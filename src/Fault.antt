-- ===== src/Fault.antt =====
-- What a piece of the C++ code may do other than return a value.
use adb_client.Base.{◌≡◌, refl, ◌⊎◌, inl, inr}

-- `out_of_bounds`, `overflow` and `dangling` are undefined behaviour: an access past the end of an
-- object, an integer that does not fit its type, a use of a dead local variable.
-- `invalid_argument` and `out_of_range` are the exceptions of `std::stoi`; nothing catches them.
-- `blocked` is a wait on the condition variable that no delivered event ends.
pub data Fault : Type 0 where
  out_of_bounds overflow dangling invalid_argument out_of_range blocked : Fault

pub data Result {κ} (V : Type κ) : Type κ where
  err : Fault → Result V
  ok : V → Result V

-- The value of a result, or else `v`.
abbrev pub value_or {κ} : {V : Type κ} → V → Result V → V
value_or v (err x) = v
value_or v (ok w) = w

infixl 5 ◌>>=◌
abbrev pub ◌>>=◌ {κ μ} : {V : Type κ} {W : Type μ} → Result V → (V → Result W) → Result W
err x >>= next = err x
ok v >>= next = next v

-- Inversion of a bind that returns.
pub >>=-eq-ok {κ μ} :
    {V : Type κ} {W : Type μ} (r : Result V) (next : V → Result W) {w : W}
    → (r >>= next) ≡ ok w
    → (v : V) × (r ≡ ok v) × (next v ≡ ok w)
>>=-eq-ok (err x) next e = cc
>>=-eq-ok (ok v) next e = (v, refl, e)

-- To split on a computed result and keep the equation.
pub Result-cases {κ} :
    {V : Type κ} (r : Result V) → ((v : V) × (r ≡ ok v)) ⊎ ((x : Fault) × (r ≡ err x))
Result-cases (err x) = inr (x, refl)
Result-cases (ok v) = inl (v, refl)
