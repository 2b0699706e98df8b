-- ===== src/Printf/Append.antt =====
-- `StringAppendV` against the text that the format describes, in either buffer.
use adb_client.Base.{
  ℕ, ◌+◌, ◌-◌, ◌≤◌, ◌<◌, ◌≡◌, ◌≢◌, refl, [], ◌∷◌, ◌++◌, none, some, arith, Bytes, length, take,
  take_all, ltb, if◌then◌else◌, ◌==◌, Bool-cases, inl, inr, ltb→lt, true, false,
}
use adb_client.CString.{bytes_at}
use adb_client.Fault.{ok}
use adb_client.Printf.{int_max, vsnprintf, append_long, string_append_v, string_printf}

pub bytes_at-append : (s rest : Bytes) → bytes_at (length s) (s ++ rest) ≡ ok s
unfolding bytes_at
bytes_at-append [] rest = refl
bytes_at-append (c ∷ s) rest = ground (arith, bytes_at-append s rest)

vsnprintf_fits :
    (size : ℕ) (text : Bytes)
    → length text ≤ int_max
    → vsnprintf size (some text) ≡ (some (length text), take (size - 1) text ++ (0 ∷ []))
unfolding vsnprintf
vsnprintf_fits size text h = ground arith

vsnprintf_fails :
    (size : ℕ) (text : Bytes) → int_max < length text → vsnprintf size (some text) ≡ (none, [])
unfolding vsnprintf
vsnprintf_fails size text h = ground arith

-- the text is read back from a buffer that has room for it
bytes_at-take :
    (n : ℕ) (text : Bytes)
    → length text ≤ n
    → bytes_at (length text) (take n text ++ (0 ∷ [])) ≡ ok text
bytes_at-take n text h = rw (take_all n text h) (bytes_at-append text (0 ∷ []))

-- the second call
append_long_lem :
    (dst text : Bytes)
    → length text < int_max
    → append_long dst (some text) (length text) ≡ ok (dst ++ text)
unfolding append_long
append_long_lem dst text h =
    let fits = vsnprintf_fits (length text + 1) text (omega arith) in
    let small : (length text == int_max) ≡ false = ground arith in
    let room : ltb (length text) (length text + 1) ≡ true = ground arith in
    rw small (
      rw (fits, append_long)
        (rw room (rw fits (rw (bytes_at-take (length text + 1 - 1) text (omega arith))))))

-- `StringAppendV` appends a text shorter than INT_MAX whole, whichever of the two buffers holds it.
string_append_v_fits :
    (dst text : Bytes) → length text < int_max → string_append_v dst (some text) ≡ ok (dst ++ text)
unfolding string_append_v
string_append_v_fits dst text h =
    let fits = vsnprintf_fits 1024 text (omega arith) in
    rw (fits, string_append_v)
      (elim (Bool-cases (ltb (length text) 1024)) [
        | inl short ↦
            rw (
              short,
              fits,
              bytes_at-take 1023 text (omega (arith, ltb→lt (length text) 1024 short)),
            )
        | inr long ↦ rw (long, append_long_lem dst text h)
      ])

string_append_v_fails :
    (dst text : Bytes) → int_max < length text → string_append_v dst (some text) ≡ ok dst
unfolding string_append_v
string_append_v_fails dst text h = rw (vsnprintf_fails 1024 text h, string_append_v)

-- `StringAppendV` appends a text shorter than INT_MAX whole, whichever of the two buffers holds it.
-- Of a text longer than INT_MAX, and where the conversion fails, it appends nothing.
pub string_append_v_lem :
    (dst text : Bytes)
    → length text ≢ int_max
    → (string_append_v dst (some text)
        ≡ ok (if ltb (length text) int_max then dst ++ text else dst))
      × (string_append_v dst none ≡ ok dst)
unfolding string_append_v vsnprintf
string_append_v_lem dst text h = (
  elim (Bool-cases (ltb (length text) int_max)) [
    | inl fits ↦ rw fits (string_append_v_fits dst text (ltb→lt _ _ fits))
    | inr long ↦ rw long (string_append_v_fails dst text (ground arith))
  ],
  refl,
)

-- `StringPrintf` returns the text.
pub string_printf_lem : (text : Bytes) → length text < int_max → string_printf (some text) ≡ ok text
unfolding string_printf
string_printf_lem text h = string_append_v_fits [] text h
