-- ===== src/Protocol/Full.antt =====
-- `read_protocol_string` on a buffer that one read has filled: no zero stands behind its bytes.
use adb_client.Base.{
  ℕ, zero, suc, ◌≤◌, ◌<◌, ◌≡◌, refl, sym, ap, ◌∙◌, false, Bool-cases, inl, inr, [], ◌∷◌, append-nil,
  Bytes, codes, HasNoNul, length, drop, ltb, ltb→lt, ◌==◌, arith,
}
use adb_client.CString.{c_string, strncmp_eq, starts_with}
use adb_client.Client.{Buffer}
use adb_client.Fault.{ok, err, out_of_bounds}
use adb_client.Protocol.Read.{strncmp_eq-received}
use adb_client.Protocol.{read_long, read_protocol_string}

-- The bytes of one read, and nothing behind them.
abbrev pub filled : Bytes → Buffer
filled chunk = record { memory = chunk; size = length chunk }

c_string-HasNoNul : (s : Bytes) → HasNoNul s → c_string s ≡ err out_of_bounds
unfolding c_string
c_string-HasNoNul [] h = refl
c_string-HasNoNul (c ∷ s) h = ground (arith, c_string-HasNoNul s h.1)

drop-HasNoNul : (n : ℕ) (s : Bytes) → HasNoNul s → HasNoNul (drop n s)
drop-HasNoNul zero s h = h
drop-HasNoNul (suc n) [] h = tt
drop-HasNoNul (suc n) (c ∷ s) h = drop-HasNoNul n s h.1

strncmp_eq-filled :
    (chunk literal : Bytes)
    → length literal ≤ length chunk
    → strncmp_eq chunk literal ≡ ok (starts_with chunk literal)
strncmp_eq-filled chunk literal h =
    ap (λ (m : Bytes). strncmp_eq m literal) (sym (append-nil chunk))
    ∙ strncmp_eq-received chunk [] literal h

read_long-filled :
    (chunk result error : Bytes)
    → HasNoNul chunk
    → 4 < length chunk
    → read_long chunk result error ≡ err out_of_bounds
unfolding read_long
read_long-filled chunk result error t h = ground (
  arith,
  strncmp_eq-filled chunk (codes "OKAY") (omega arith),
  strncmp_eq-filled chunk (codes "FAIL") (omega arith),
  c_string-HasNoNul (drop 8 chunk) (drop-HasNoNul 8 chunk t),
  c_string-HasNoNul (drop 4 chunk) (drop-HasNoNul 4 chunk t),
)

-- A read with no NUL that fills the buffer is read past its end, whatever its bytes, unless it has
-- four.
pub read_protocol_string-filled :
    (chunk result error : Bytes)
    → HasNoNul chunk
    → (length chunk == 4) ≡ false
    → read_protocol_string (filled chunk) result error ≡ err out_of_bounds
unfolding read_protocol_string
read_protocol_string-filled chunk result error t h = elim (Bool-cases (ltb 4 (length chunk))) [
  | inl long ↦ rw long (read_long-filled chunk result error t (ltb→lt 4 _ long))
  | inr short ↦ rw short (rw h (rw (c_string-HasNoNul chunk t)))
]
