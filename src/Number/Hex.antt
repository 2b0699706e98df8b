-- ===== src/Number/Hex.antt =====
-- `std::stoi` in base 16 on the texts of the conversion %04x.
use adb_client.Base.{
  ℕ, ◌+◌, ◌*◌, ◌≤◌, Option-cases, inl, inr, ◌/◌, ◌%◌, ◌<◌, ◌≡◌, ap, ◌∙◌, false, [], ◌∷◌, some,
  arith, Bytes, pos,
}
use adb_client.Fault.{ok}
use adb_client.Number.{skip_spaces, digit_value, digits_from, digits, skip_0x, sign, stoi_hex}
use adb_client.Printf.Hex.{hex_digit, four, format_04x, format_04x_digits}

digit_value-hex_digit : (d : ℕ) → d < 16 → digit_value 16 (hex_digit d) ≡ some d
unfolding digit_value hex_digit
digit_value-hex_digit d h = ground arith

skip_spaces-hex_digit :
    (d : ℕ) (cs : Bytes) → d < 16 → skip_spaces (hex_digit d ∷ cs) ≡ hex_digit d ∷ cs
unfolding skip_spaces hex_digit
skip_spaces-hex_digit d cs h = ground arith

sign-hex_digit : (d : ℕ) (cs : Bytes) → d < 16 → sign (hex_digit d ∷ cs) ≡ (false, hex_digit d ∷ cs)
unfolding sign hex_digit
sign-hex_digit d cs h = ground arith

skip_0x-hex_digit :
    (a b c : ℕ) (cs : Bytes)
    → b < 16
    → skip_0x (a ∷ hex_digit b ∷ c ∷ cs) ≡ a ∷ hex_digit b ∷ c ∷ cs
unfolding skip_0x hex_digit
skip_0x-hex_digit a b c cs h = ground arith

digits_from-hex_digit :
    (acc d : ℕ) (cs : Bytes)
    → d < 16
    → digits_from 16 acc (hex_digit d ∷ cs) ≡ digits_from 16 (acc * 16 + d) cs
unfolding digits_from
digits_from-hex_digit acc d cs h = rw (digit_value-hex_digit d h, digits_from)

digits-hex_digit :
    (d : ℕ) (cs : Bytes) → d < 16 → digits 16 (hex_digit d ∷ cs) ≡ some (digits_from 16 d cs)
unfolding digits
digits-hex_digit d cs h = rw (digit_value-hex_digit d h, digits)

-- Four digits are read as their value.
digits-four :
    (a b c d : ℕ)
    → a < 16
    → b < 16
    → c < 16
    → d < 16
    → digits 16 (four a b c d) ≡ some (((a * 16 + b) * 16 + c) * 16 + d)
unfolding digits_from
digits-four a b c d ha hb hc hd =
    digits-hex_digit a (hex_digit b ∷ hex_digit c ∷ hex_digit d ∷ []) ha
    ∙ ap some (
        digits_from-hex_digit a b (hex_digit c ∷ hex_digit d ∷ []) hb
        ∙ digits_from-hex_digit (a * 16 + b) c (hex_digit d ∷ []) hc
        ∙ digits_from-hex_digit ((a * 16 + b) * 16 + c) d [] hd)

stoi_hex-four :
    (a b c d : ℕ)
    → a < 16
    → b < 16
    → c < 16
    → d < 16
    → stoi_hex (four a b c d) ≡ ok (pos (((a * 16 + b) * 16 + c) * 16 + d))
unfolding stoi_hex
stoi_hex-four a b c d ha hb hc hd =
    let spaces = skip_spaces-hex_digit a (hex_digit b ∷ hex_digit c ∷ hex_digit d ∷ []) ha in
    let signed = sign-hex_digit a (hex_digit b ∷ hex_digit c ∷ hex_digit d ∷ []) ha in
    let prefix = skip_0x-hex_digit (hex_digit a) b (hex_digit c) (hex_digit d ∷ []) hb in
    rw (spaces, stoi_hex)
      (rw signed
        (rw prefix (rw (digits-four a b c d ha hb hc hd) (rw spaces (rw signed (ground arith))))))

-- A number below 2 ^ 16 printed by %04x is read back.
pub stoi_hex-format_04x : (n : ℕ) → n < 65536 → stoi_hex (format_04x n) ≡ ok (pos n)
stoi_hex-format_04x n h = rw (format_04x_digits n h) (
    stoi_hex-four _ _ _ _ (omega arith) (omega arith) (omega arith) (omega arith)
    ∙ ap (λ (k : ℕ). ok (pos k)) (omega arith))

-- The four digits of a number below 2 ^ 16 stand for it.
pub digits-format_04x :
    (n : ℕ) → n < 65536 → digits 16 (four (n / 4096) (n / 256 % 16) (n / 16 % 16) (n % 16)) ≡ some n
digits-format_04x n h =
    digits-four (n / 4096) (n / 256 % 16) (n / 16 % 16) (n % 16) (omega arith) (omega arith)
      (omega arith) (omega arith)
    ∙ ap some (omega arith)

digit_value-lt : (c d : ℕ) → digit_value 16 c ≡ some d → d < 16
unfolding digit_value
digit_value-lt c d h = ground arith

-- The value of as many digits f behind those that gave `acc`.
abbrev pub greatest : ℕ → Bytes → ℕ
greatest acc [] = acc
greatest acc (c ∷ cs) = greatest (acc * 16 + 15) cs

le-greatest : (acc : ℕ) (cs : Bytes) → acc ≤ greatest acc cs
le-greatest acc [] = omega arith
le-greatest acc (c ∷ cs) = omega (arith, le-greatest (acc * 16 + 15) cs)

digits_from-le-greatest :
    (cs : Bytes) (acc bound : ℕ) → acc ≤ bound → digits_from 16 acc cs ≤ greatest bound cs
unfolding digits_from
digits_from-le-greatest [] acc bound h = h
digits_from-le-greatest (c ∷ cs) acc bound h = elim (Option-cases (digit_value 16 c)) [
  | inl stop ↦ rw (stop, digits_from) (omega (arith, le-greatest (bound * 16 + 15) cs))
  | inr (d, more) ↦
      rw (more, digits_from)
        (digits_from-le-greatest cs (acc * 16 + d) (bound * 16 + 15)
          (omega (arith, digit_value-lt c d more)))
]

-- Four bytes never stand for more than 65535.
pub digits-lt : (a b c d n : ℕ) → digits 16 (a ∷ b ∷ c ∷ d ∷ []) ≡ some n → n < 65536
unfolding digits
digits-lt a b c d n h = elim (Option-cases (digit_value 16 a)) [
  | inl stop ↦ absurd (cc (rw (stop, digits) at h))
  | inr (v, more) ↦
      let value = rw (more, digits) at h in
      let bound =
        digits_from-le-greatest (b ∷ c ∷ d ∷ []) v 15 (omega (arith, digit_value-lt a v more)) in
      ground (arith, value, bound)
]
