-- ===== src/Number/Bits.antt =====
-- `|` of a number with a number that is shifted past its digits.
use Prim.Native.Nat.{bit_or, bit_or-bitwise, digits, max}
use adb_client.Base.{ℕ, zero, suc, ◌+◌, ◌*◌, ◌/◌, ◌%◌, ◌^◌, ◌≤◌, ◌<◌, ◌≡◌, refl, ap, arith}
use native.Mathlib.Nat.{pow-suc}

-- The native operation by its recursion, on a count of digits to go.
abbrev or_digits : ℕ → ℕ → ℕ → ℕ
or_digits = digits (λ y. y) max

or_digits-enough : (n m a b : ℕ) → a ≤ n → a ≤ m → or_digits n a b ≡ or_digits m a b
or_digits-enough zero zero a b h k = refl
or_digits-enough zero (suc m) zero b h k = refl
or_digits-enough (suc n) zero zero b h k = refl
or_digits-enough (suc n) (suc m) zero b h k = refl
or_digits-enough (suc n) (suc m) (suc a) b h k =
    rw (or_digits-enough n m (suc a / 2) (b / 2) (omega arith) (omega arith))
or_digits-enough _ _ (suc a) b h k = absurd (omega arith)

bit_or-digit : (a b : ℕ) → bit_or a b ≡ bit_or (a / 2) (b / 2) * 2 + max (a % 2) (b % 2)
bit_or-digit zero b = simp bit_or-bitwise (omega arith)
bit_or-digit (suc a) b =
    simp bit_or-bitwise
      (rw (or_digits-enough a (suc a / 2) (suc a / 2) (b / 2) (omega arith) (omega arith)))

-- `r | (q << k)` is a sum if `r` has `k` binary digits at most.
pub bit_or-shifted : (k r q : ℕ) → r < 2 ^ k → bit_or r (q * 2 ^ k) ≡ r + q * 2 ^ k
bit_or-shifted zero zero q h = simp bit_or-bitwise (omega arith)
bit_or-shifted zero (suc r) q h = absurd (omega arith)
bit_or-shifted (suc k) r q h =
    let twice : q * 2 ^ suc k ≡ 2 * (q * 2 ^ k) =
      omega (arith, ap (λ (t : ℕ). q * t) (pow-suc 2 k)) in
    ground (
      arith,
      bit_or-digit r (q * 2 ^ suc k),
      twice,
      pow-suc 2 k,
      bit_or-shifted k (r / 2) q (omega (arith, pow-suc 2 k)),
    )
