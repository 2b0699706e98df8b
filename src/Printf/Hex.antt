-- ===== src/Printf/Hex.antt =====
-- The conversion `%04x` of a `size_t`: the low 32 bits, in lower-case hexadecimal digits, padded
-- with zeros to four places. Eight digits hold 32 bits, so the fuel of the digit loop is 8.
use native.Mathlib.Decide.{dec_lt}
use adb_client.Base.{
  ℕ, zero, suc, ◌+◌, ◌-◌, ◌/◌, ◌%◌, ◌^◌, ◌≤◌, ◌<◌, ◌≡◌, refl, ◌∙◌, [], ◌∷◌, ◌++◌, arith, Bytes,
  length, replicate, ltb, if◌then◌else◌,
}

unfoldable pub hex_digit : ℕ → ℕ
hex_digit d = if ltb d 10 then b'0' + d else b'a' + (d - 10)

unfoldable pub hex_digits : ℕ → ℕ → Bytes → Bytes
hex_digits zero n acc = acc
hex_digits (suc fuel) n acc =
    let more = hex_digits fuel (n / 16) (hex_digit (n % 16) ∷ acc) in
    if ltb n 16 then hex_digit n ∷ acc else more

unfoldable pub format_04x : ℕ → Bytes
unfolding hex_digits
format_04x n =
    let digits = hex_digits 8 (n % 2 ^ 32) [] in replicate (4 - length digits) b'0' ++ digits

hex_digits_last :
    (fuel n : ℕ) (acc : Bytes) → n < 16 → hex_digits (suc fuel) n acc ≡ hex_digit n ∷ acc
unfolding hex_digits
hex_digits_last fuel n acc h = ground arith

hex_digits_more :
    (fuel n : ℕ) (acc : Bytes)
    → 16 ≤ n
    → hex_digits (suc fuel) n acc ≡ hex_digits fuel (n / 16) (hex_digit (n % 16) ∷ acc)
unfolding hex_digits
hex_digits_more fuel n acc h = ground arith

-- the digits, without the padding
digits_one : (n : ℕ) → n < 16 → hex_digits 8 n [] ≡ hex_digit n ∷ []
digits_one n h = hex_digits_last 7 n [] h

digits_two :
    (n : ℕ) → 16 ≤ n → n < 256 → hex_digits 8 n [] ≡ hex_digit (n / 16) ∷ hex_digit (n % 16) ∷ []
digits_two n l h = hex_digits_more 7 n [] l ∙ hex_digits_last 6 (n / 16) _ (omega arith)

digits_three :
    (n : ℕ)
    → 256 ≤ n
    → n < 4096
    → hex_digits 8 n []
      ≡ hex_digit (n / 16 / 16) ∷ hex_digit (n / 16 % 16) ∷ hex_digit (n % 16) ∷ []
digits_three n l h =
    hex_digits_more 7 n [] (omega arith)
    ∙ hex_digits_more 6 (n / 16) _ (omega arith)
    ∙ hex_digits_last 5 (n / 16 / 16) _ (omega arith)

digits_four :
    (n : ℕ)
    → 4096 ≤ n
    → n < 65536
    → hex_digits 8 n []
      ≡ hex_digit (n / 16 / 16 / 16)
        ∷ hex_digit (n / 16 / 16 % 16)
        ∷ hex_digit (n / 16 % 16)
        ∷ hex_digit (n % 16)
        ∷ []
digits_four n l h =
    hex_digits_more 7 n [] (omega arith)
    ∙ hex_digits_more 6 (n / 16) _ (omega arith)
    ∙ hex_digits_more 5 (n / 16 / 16) _ (omega arith)
    ∙ hex_digits_last 4 (n / 16 / 16 / 16) _ (omega arith)

-- four digits of the given values
abbrev pub four : ℕ → ℕ → ℕ → ℕ → Bytes
four a b c d = hex_digit a ∷ hex_digit b ∷ hex_digit c ∷ hex_digit d ∷ []

four_eq :
    {a b c d a' b' c' d' : ℕ} → a ≡ a' → b ≡ b' → c ≡ c' → d ≡ d' → four a b c d ≡ four a' b' c' d'
four_eq p q r s = cc

-- Below 2 ^ 16 the text is the four digits.
pub format_04x_digits :
    (n : ℕ) → n < 65536 → format_04x n ≡ four (n / 4096) (n / 256 % 16) (n / 16 % 16) (n % 16)
unfolding format_04x hex_digit
format_04x_digits n h =
    let e : n % 2 ^ 32 ≡ n = omega arith in
    rw e (elim (dec_lt n 16) [
      | yes p ↦
          rw (digits_one n p) (
            four_eq {a = 0} {b = 0} {c = 0} (omega arith) (omega arith) (omega arith) (omega arith))
      | no p ↦ elim (dec_lt n 256) [
        | yes q ↦
            rw (digits_two n (omega arith) q)
              (four_eq {a = 0} {b = 0} (omega arith) (omega arith) (omega arith) refl)
        | no q ↦ elim (dec_lt n 4096) [
          | yes r ↦
              rw (digits_three n (omega arith) r)
                (four_eq {a = 0} (omega arith) (omega arith) refl refl)
          | no r ↦
              rw (digits_four n (omega arith) h) (four_eq (omega arith) (omega arith) refl refl)
        ]
      ]
    ])

pub length-format_04x_le : (n : ℕ) → length (format_04x n) ≤ 12
unfolding format_04x
length-format_04x_le n = ground arith
