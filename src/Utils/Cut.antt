-- ===== src/Utils/Cut.antt =====
-- A text cut at its first delimiter.
use adb_client.Base.{ℕ, ◌≡◌, Bool, true, false, [], ◌∷◌, ◌++◌, Bytes, ◌==◌, if◌then◌else◌, arith}
use adb_client.Utils.Split.{count}

-- The bytes before the first `d`, and those behind it.
abbrev pub before : ℕ → Bytes → Bytes
before d [] = []
before d (c ∷ cs) = if c == d then [] else c ∷ before d cs

abbrev pub behind : ℕ → Bytes → Bytes
behind d [] = []
behind d (c ∷ cs) = if c == d then cs else behind d cs

abbrev pub has : ℕ → Bytes → Bool
has d [] = false
has d (c ∷ cs) = if c == d then true else has d cs

pub before-append : (d : ℕ) (s t : Bytes) → count d s ≡ 0 → before d (s ++ (d ∷ t)) ≡ s
before-append d [] t h = ground arith
before-append d (c ∷ s) t h = ground (arith, before-append d s t)

pub behind-append : (d : ℕ) (s t : Bytes) → count d s ≡ 0 → behind d (s ++ (d ∷ t)) ≡ t
behind-append d [] t h = ground arith
behind-append d (c ∷ s) t h = ground (arith, behind-append d s t)
