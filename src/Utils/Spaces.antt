-- ===== src/Utils/Spaces.antt =====
-- `unique_spaces` against a text with single spaces, and against the bytes that are no space.
use adb_client.Base.{
  ℕ, ◌≡◌, refl, ap, Bool-cases, inl, inr, true, false, List, [], ◌∷◌, ◌++◌, arith, Bytes, ◌==◌,
}
use adb_client.Utils.{both_spaces, unique_from, unique_spaces, split_from, string_split}

-- No two neighbours are spaces.
abbrev pub IsSingleSpaced : Bytes → Type 0
IsSingleSpaced [] = Unit
IsSingleSpaced (c ∷ []) = Unit
IsSingleSpaced (c ∷ d ∷ cs) = (both_spaces c d ≡ false) × IsSingleSpaced (d ∷ cs)

-- The words that have bytes.
abbrev pub non_empty : List Bytes → List Bytes
non_empty [] = []
non_empty ([] ∷ ws) = non_empty ws
non_empty ((c ∷ w) ∷ ws) = (c ∷ w) ∷ non_empty ws

unique_from-IsSingleSpaced : (last : ℕ) (cs : Bytes) → IsSingleSpaced (last ∷ unique_from last cs)
unfolding unique_from
unique_from-IsSingleSpaced last [] = tt
unique_from-IsSingleSpaced last (c ∷ cs) =
    ground (arith, unique_from-IsSingleSpaced c cs, unique_from-IsSingleSpaced last cs)

non_empty-same :
    (word : Bytes) (vs ws : List Bytes)
    → non_empty vs ≡ non_empty ws
    → non_empty (word ∷ vs) ≡ non_empty (word ∷ ws)
non_empty-same [] vs ws h = h
non_empty-same (c ∷ w) vs ws h = ap (◌∷◌ (c ∷ w)) h

non_empty-unique_from :
    (last : ℕ) (word cs : Bytes)
    → ((last == b' ') ≡ true → word ≡ [])
    → non_empty (split_from word (unique_from last cs) b' ') ≡ non_empty (split_from word cs b' ')
unfolding unique_from split_from
non_empty-unique_from last word [] h = refl
non_empty-unique_from last word (c ∷ cs) h = elim (Bool-cases (c == b' ')) [
  | inl space ↦ ground (
    arith,
    h,
    non_empty-unique_from last [] cs (λ e. refl),
    non_empty-same word (split_from [] (unique_from c cs) b' ') (split_from [] cs b' ')
        (non_empty-unique_from c [] cs (λ e. refl)),
  )
  | inr other ↦ ground (arith, non_empty-unique_from c (word ++ (c ∷ [])) cs (λ e. ground arith))
]

unique_from-append :
    (last : ℕ) (s t : Bytes)
    → unique_from last (unique_from last s ++ t) ≡ unique_from last (s ++ t)
unfolding unique_from
unique_from-append last [] t = refl
unique_from-append last (c ∷ s) t =
    ground (arith, unique_from-append c s t, unique_from-append last s t)

pub unique_spaces-append :
    (s t : Bytes) → unique_spaces (unique_spaces s ++ t) ≡ unique_spaces (s ++ t)
unfolding unique_spaces
unique_spaces-append [] t = refl
unique_spaces-append (c ∷ s) t = ap (◌∷◌ c) (unique_from-append c s t)

-- `unique_spaces` leaves no two spaces next to each other, and the same words between its spaces.
pub unique_spaces_lem :
    (str : Bytes)
    → IsSingleSpaced (unique_spaces str)
      × (non_empty (string_split (unique_spaces str) b' ') ≡ non_empty (string_split str b' '))
unfolding unique_spaces string_split split_from
unique_spaces_lem [] = (tt, refl)
unique_spaces_lem (c ∷ cs) = (
  unique_from-IsSingleSpaced c cs,
  elim (Bool-cases (c == b' ')) [
    | inl space ↦ ground (arith, non_empty-unique_from c [] cs (λ e. refl))
    | inr other ↦ ground (arith, non_empty-unique_from c (c ∷ []) cs (λ e. ground arith))
  ],
)
