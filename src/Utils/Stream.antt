-- ===== src/Utils/Stream.antt =====
-- The loop of `string_split`, over the string stream that it reads, and the words that `Utils` has
-- for it. `std::getline` reads up to the delimiter, which it takes away, or up to the end of the
-- stream, where it sets the end flag.
use adb_client.Base.{
  ℕ, zero, suc, ◌+◌, ◌≤◌, ◌≡◌, refl, ◌∙◌, Bool, true, false, Bool-cases, inl, inr, List, [], ◌∷◌,
  ◌++◌, append_assoc, Option, none, some, Bytes, length, ◌==◌, arith,
}
use adb_client.Utils.{split_from, string_split}

-- `std::stringstream`: the bytes not read yet, and `eof()`.
pub record Stream : Type 0 where
  pub rest : Bytes
  pub eof : Bool

-- `std::getline(ss, word, delimiter)`, behind the bytes that it has put in `word`.
unfoldable pub getline : Bytes → Bytes → ℕ → Bytes × Stream
getline word [] delimiter = (word, record { rest = []; eof = true })
getline word (c ∷ cs) delimiter = elim (c == delimiter) [
  | true ↦ (word, record { rest = cs; eof = false })
  | false ↦ getline (word ++ (c ∷ [])) cs delimiter
]

-- `while (!ss.eof())`; `none` where the rounds do not suffice.
unfoldable pub split_loop : ℕ → Stream → ℕ → List Bytes → Option (List Bytes)
split_loop zero ss delimiter res = none
split_loop (suc rounds) ss delimiter res = elim ss.eof [
  | true ↦ some res
  | false ↦
      let (word, ss') = getline [] ss.rest delimiter in
      split_loop rounds ss' delimiter (res ++ (word ∷ []))
]

loop-getline :
    (str word : Bytes) (d rounds : ℕ) (res : List Bytes)
    → length str + 1 ≤ rounds
    → split_loop rounds (getline word str d).1 d (res ++ ((getline word str d).0 ∷ []))
      ≡ some (res ++ split_from word str d)
unfolding split_loop getline split_from
loop-getline str word d zero res h = absurd (omega arith)
loop-getline [] word d (suc rounds) res h = refl
loop-getline (c ∷ cs) word d (suc rounds) res h = elim (Bool-cases (c == d)) [
  | inl same ↦
      rw (same, getline)
        (loop-getline cs [] d rounds (res ++ (word ∷ [])) (omega arith)
          ∙ rw (append_assoc res (word ∷ []) (split_from [] cs d)))
  | inr other ↦
      rw (other, getline) (loop-getline cs (word ++ (c ∷ [])) d (suc rounds) res (omega arith))
]

-- The loop of `string_split` ends: two rounds more than the string has bytes are enough, and the
-- vector then holds the words of `string_split`.
pub split_loop-string_split :
    (str : Bytes) (delimiter rounds : ℕ)
    → length str + 2 ≤ rounds
    → split_loop rounds (record { rest = str; eof = false }) delimiter []
      ≡ some (string_split str delimiter)
unfolding split_loop string_split
split_loop-string_split str delimiter zero h = absurd (omega arith)
split_loop-string_split str delimiter (suc rounds) h =
    loop-getline str [] delimiter rounds [] (omega arith)
