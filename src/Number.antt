-- ===== src/Number.antt =====
-- What the sources use of `std::stoi(s, nullptr, 16)` and `std::atoi`: leading white space, a sign,
-- for base 16 a prefix 0x, and the digits up to the first byte that is none.
pub mod Hex
pub mod Bits
use adb_client.Base.{
  ℕ, ◌+◌, ◌-◌, ◌*◌, ◌^◌, Bool, true, false, ◌&&◌, ◌||◌, [], ◌∷◌, Option, none, some, Bytes, ℤ, pos,
  neg, ltb, leb, ◌==◌, if◌then◌else◌,
}
use adb_client.Fault.{Result, ok, err, invalid_argument, out_of_range, overflow}

-- `isspace` in the C locale.
unfoldable pub is_space : ℕ → Bool
is_space c = (leb 9 c && leb c 13) || c == b' '

unfoldable pub skip_spaces : Bytes → Bytes
unfolding is_space
skip_spaces [] = []
skip_spaces (c ∷ cs) = if is_space c then skip_spaces cs else c ∷ cs

within : ℕ → ℕ → ℕ → Bool
within lo hi c = leb lo c && leb c hi

unfoldable pub digit_value : ℕ → ℕ → Option ℕ
unfolding within
digit_value base c =
    let value =
      if within b'0' b'9' c
      then c - b'0'
      else if within b'a' b'z' c
      then c - b'a' + 10
      else if within b'A' b'Z' c
      then c - b'A' + 10
      else base in
    if ltb value base then some value else none

-- the digits behind those that gave `acc`
unfoldable pub digits_from : ℕ → ℕ → Bytes → ℕ
digits_from base acc [] = acc
digits_from base acc (c ∷ cs) = elim (digit_value base c) [
  | none ↦ acc
  | some d ↦ digits_from base (acc * base + d) cs
]

-- `none` where the text does not begin with a digit
unfoldable pub digits : ℕ → Bytes → Option ℕ
digits base [] = none
digits base (c ∷ cs) = elim (digit_value base c) [
  | none ↦ none
  | some d ↦ some (digits_from base d cs)
]

-- A prefix 0x counts only before a digit.
unfoldable pub skip_0x : Bytes → Bytes
skip_0x (z ∷ x ∷ d ∷ cs) =
    if z == b'0' && (x == b'x' || x == b'X')
    then elim (digit_value 16 d) [ none ↦ z ∷ x ∷ d ∷ cs | some v ↦ d ∷ cs ]
    else z ∷ x ∷ d ∷ cs
skip_0x s = s

-- The sign, `true` for a minus, and what follows it.
unfoldable pub sign : Bytes → Bool × Bytes
sign [] = (false, [])
sign (c ∷ cs) = if c == b'-' then (true, cs) else if c == b'+' then (false, cs) else (false, c ∷ cs)

-- An `int` from a sign and a magnitude, or the fault.
abbrev pub to_int {ℓ} : {A : Type ℓ} → (ℤ → A) → A → Bool × ℕ → A
to_int int fault (true, n) = if leb n (2 ^ 31) then int (neg n) else fault
to_int int fault (false, n) = if ltb n (2 ^ 31) then int (pos n) else fault

-- `std::stoi(s, nullptr, 16)`.
unfoldable pub stoi_hex : Bytes → Result ℤ
stoi_hex s =
    let (minus, t) = sign (skip_spaces s) in
    elim (digits 16 (skip_0x t)) [
      | none ↦ err invalid_argument
      | some n ↦ to_int ok (err out_of_range) (minus, n)
    ]

-- `std::atoi(s)`: 0 with no digit; a value that is no `int` is undefined behaviour.
unfoldable pub atoi : Bytes → Result ℤ
atoi s =
    let (minus, t) = sign (skip_spaces s) in
    elim (digits 10 t) [ none ↦ ok (pos 0) | some n ↦ to_int ok (err overflow) (minus, n) ]
