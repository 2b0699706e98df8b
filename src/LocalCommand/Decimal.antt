-- ===== src/LocalCommand/Decimal.antt =====
-- The port in the service of `tcpip`.
use adb_client.Base.{
  ℕ, zero, suc, ◌+◌, ◌*◌, ◌/◌, ◌%◌, ◌^◌, ◌<◌, ◌≡◌, ◌∙◌, ap, Bool-cases, inl, inr, [], ◌∷◌, some,
  Bytes, ltb, ltb→lt, arith,
}
use adb_client.LocalCommand.{decimal}
use adb_client.Number.{digit_value, digits_from, digits}
use native.Mathlib.Nat.{pow-suc}

digit_value-decimal : (d : ℕ) → d < 10 → digit_value 10 (b'0' + d) ≡ some d
unfolding digit_value
digit_value-decimal d h = ground arith

digits_from-decimal :
    (acc d : ℕ) (cs : Bytes)
    → d < 10
    → digits_from 10 acc ((b'0' + d) ∷ cs) ≡ digits_from 10 (acc * 10 + d) cs
unfolding digits_from
digits_from-decimal acc d cs h = rw (digit_value-decimal d h, digits_from)

digits-decimal_one :
    (n : ℕ) (acc : Bytes) → n < 10 → digits 10 ((b'0' + n) ∷ acc) ≡ some (digits_from 10 n acc)
unfolding digits
digits-decimal_one n acc h = rw (digit_value-decimal n h, digits)

-- A number that the fuel has digits for is read back, in front of the digits that follow it.
digits-decimal_before :
    (fuel n : ℕ) (acc : Bytes)
    → n < 10 ^ suc fuel
    → digits 10 (decimal (suc fuel) n acc) ≡ some (digits_from 10 n acc)
unfolding decimal
digits-decimal_before zero n acc h = elim (Bool-cases (ltb n 10)) [
  | inl one ↦ rw (one, decimal) (digits-decimal_one n acc (ltb→lt n 10 one))
  | inr more ↦ absurd (ground (arith, more))
]
digits-decimal_before (suc fuel) n acc h = elim (Bool-cases (ltb n 10)) [
  | inl one ↦ rw (one, decimal) (digits-decimal_one n acc (ltb→lt n 10 one))
  | inr more ↦
      rw (more, decimal)
        (digits-decimal_before fuel (n / 10) ((b'0' + n % 10) ∷ acc)
            (omega (arith, pow-suc 10 (suc fuel)))
          ∙ ap some (
              digits_from-decimal (n / 10) (n % 10) acc (omega arith)
              ∙ ap (λ (k : ℕ). digits_from 10 k acc) (omega arith)))
]

-- Ten digits are enough for every `uint32_t`.
pub digits-decimal : (n : ℕ) → n < 2 ^ 32 → digits 10 (decimal 10 n []) ≡ some n
unfolding digits_from
digits-decimal n h = digits-decimal_before 9 n [] (omega arith)
