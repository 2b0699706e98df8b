-- ===== src/Printf.antt =====
-- src/android/stringprintf.cpp: `StringAppendV`, `StringPrintf` and `StringAppendF`. A format and
-- its arguments stand as the text that they describe, `none` where the conversion fails.
pub mod Append
pub mod Hex
use adb_client.Base.{
  ℕ, zero, suc, ◌+◌, ◌-◌, ◌/◌, ◌%◌, ◌^◌, [], ◌∷◌, ◌++◌, Option, none, some, Bytes, length, take,
  replicate, ltb, leb, ◌==◌, if◌then◌else◌,
}
use adb_client.CString.{bytes_at}
use adb_client.Fault.{Result, ok, err, ◌>>=◌, overflow}

abbrev pub int_max : ℕ
int_max = 2 ^ 31 - 1

-- `sizeof(space)`
abbrev pub space_size : ℕ
space_size = 1024

-- `vsnprintf(buf, size, …)`: the length of the whole text, `none` for a negative result, which is
-- also the result for a length that is no `int`. At most `size - 1` bytes and a NUL are written.
unfoldable pub vsnprintf : ℕ → Option Bytes → Option ℕ × Bytes
vsnprintf size none = (none, [])
vsnprintf size (some text) =
    if leb (length text) int_max
    then (some (length text), take (size - 1) text ++ (0 ∷ []))
    else (none, [])

-- The second call, into a buffer of `result + 1` bytes.
unfoldable pub append_long : Bytes → Option Bytes → ℕ → Result Bytes
append_long dst text result =
    if result == int_max
    then err overflow
    else let length' = result + 1 in
      let (again, buf) = vsnprintf length' text in
      elim again [
        | none ↦ ok dst
        | some n ↦ if ltb n length' then (do s ← bytes_at n buf; ok (dst ++ s)) else ok dst
      ]

unfoldable pub string_append_v : Bytes → Option Bytes → Result Bytes
string_append_v dst text =
    let (result, space) = vsnprintf space_size text in
    elim result [
      | none ↦ ok dst
      | some n ↦
          if ltb n space_size
          then (do s ← bytes_at n space; ok (dst ++ s))
          else append_long dst text n
    ]

unfoldable pub string_printf : Option Bytes → Result Bytes
unfolding string_append_v
string_printf text = string_append_v [] text

unfoldable pub string_append_f : Bytes → Option Bytes → Result Bytes
unfolding string_append_v
string_append_f dst text = string_append_v dst text
