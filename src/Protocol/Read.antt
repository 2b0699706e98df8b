-- ===== src/Protocol/Read.antt =====
-- `read_protocol_string` on a buffer that was zero before the bytes of one read were put at its
-- start. The reading is then a function of these bytes alone.
use adb_client.Base.{
  ℕ, zero, suc, ◌+◌, ◌≤◌, ◌<◌, ◌≡◌, refl, [], ◌∷◌, ◌++◌, arith, Bytes, codes, HasNoNul, pos, negsuc,
  length, drop, replicate, ltb, ◌==◌, if◌then◌else◌, Bool-cases, inl, inr, ltb→lt, ==_iff, drop_all,
  append-nil,
}
use adb_client.CString.{c_string, strncmp_eq, starts_with}
use adb_client.Client.{Buffer}
use adb_client.Fault.{ok}
use adb_client.Protocol.{Reading, read_long, read_tag, read_protocol_string}

-- The bytes of one read, and behind them a zero and then `room` more.
abbrev pub received : ℕ → Bytes → Buffer
received room chunk = record { memory = chunk ++ (0 ∷ replicate room 0); size = length chunk }

-- What one read means, whatever else the buffer holds.
unfoldable pub interpret : Bytes → Bytes → Bytes → Reading
interpret chunk result error =
    if ltb (length chunk) 4
    then record { status = pos 0; result = result ++ chunk; error = error }
    else if starts_with chunk (codes "OKAY")
    then record { status = pos 0; result = result ++ drop 8 chunk; error = error }
    else if starts_with chunk (codes "FAIL")
    then record { status = negsuc 0; result = result; error = error ++ drop 8 chunk }
    else record { status = pos 0; result = result ++ drop 4 chunk; error = error }

-- The status is that of the bytes, whatever the error text was before.
pub interpret_status :
    (chunk error : Bytes) → (interpret chunk [] error).status ≡ (interpret chunk [] []).status
unfolding interpret
interpret_status chunk error = ground arith

c_string-zeros : (n room : ℕ) → n ≤ room → c_string (drop n (0 ∷ replicate room 0)) ≡ ok []
unfolding c_string
c_string-zeros zero room h = refl
c_string-zeros (suc n) zero h = absurd (omega arith)
c_string-zeros (suc n) (suc room) h = c_string-zeros n room (omega arith)

-- Reading from an offset gives the rest of the bytes; past their end, nothing.
pub c_string-drop :
    (n room : ℕ) (chunk : Bytes)
    → n ≤ length chunk + room
    → HasNoNul chunk
    → c_string (drop n (chunk ++ (0 ∷ replicate room 0))) ≡ ok (drop n chunk)
unfolding c_string
c_string-drop zero room [] h t = refl
c_string-drop (suc n) room [] h t = c_string-zeros (suc n) room (omega arith)
c_string-drop zero room (c ∷ chunk) h t =
    ground (arith, c_string-drop 0 room chunk (omega arith) t.1)
c_string-drop (suc n) room (c ∷ chunk) h t = c_string-drop n room chunk (omega arith) t.1

-- A comparison with no more bytes than were received.
pub strncmp_eq-received :
    (chunk rest literal : Bytes)
    → length literal ≤ length chunk
    → strncmp_eq (chunk ++ rest) literal ≡ ok (starts_with chunk literal)
unfolding strncmp_eq starts_with
strncmp_eq-received [] rest [] h = refl
strncmp_eq-received (c ∷ chunk) rest [] h = refl
strncmp_eq-received [] rest (l ∷ ls) h = absurd (omega arith)
strncmp_eq-received (c ∷ chunk) rest (l ∷ ls) h =
    ground (arith, strncmp_eq-received chunk rest ls (omega arith))

abbrev okay : Bytes
okay = codes "OKAY"

abbrev fail : Bytes
fail = codes "FAIL"

module _ (room : ℕ) (chunk result error : Bytes) (space : 3 ≤ room) (text : HasNoNul chunk) where
  abbrev zeros : Bytes
  zeros = 0 ∷ replicate room 0

  read_long-received :
      4 < length chunk → read_long (chunk ++ zeros) result error ≡ ok (interpret chunk result error)
  unfolding read_long interpret
  read_long-received h = ground (
    arith,
    strncmp_eq-received chunk zeros okay (omega arith),
    strncmp_eq-received chunk zeros fail (omega arith),
    c_string-drop 8 room chunk (omega arith) text,
    c_string-drop 4 room chunk (omega arith) text,
  )

  read_tag-received :
      length chunk ≡ 4 → read_tag (chunk ++ zeros) result error ≡ ok (interpret chunk result error)
  unfolding read_tag interpret
  read_tag-received h = ground (
    arith,
    strncmp_eq-received chunk zeros okay (omega arith),
    strncmp_eq-received chunk zeros fail (omega arith),
    drop_all 8 chunk (omega arith),
    drop_all 4 chunk (omega arith),
    append-nil result,
    append-nil error,
  )

  -- The reading of one read is that of its bytes, if no byte is NUL and the buffer has four bytes
  -- or more behind them, all zero: nothing is read out of bounds.
  pub read_protocol_string-received :
      read_protocol_string (received room chunk) result error ≡ ok (interpret chunk result error)
  unfolding read_protocol_string
  read_protocol_string-received = elim (Bool-cases (ltb 4 (length chunk))) [
    | inl long ↦ rw long (read_long-received (ltb→lt 4 _ long))
    | inr short ↦ rw short (elim (Bool-cases (length chunk == 4)) [
      | inl tag ↦ rw tag (read_tag-received ((==_iff _ 4).0 tag))
      | inr other ↦
          rw other
            (unfold interpret in ground (arith, c_string-drop 0 room chunk (omega arith) text))
    ])
  ]
