-- ===== src/Utils/Split.antt =====
-- `string_split` and `get_lines_from_buf` against joining.
use adb_client.Base.{
  ℕ, false, suc, ◌+◌, ◌≡◌, refl, sym, ap, ◌∙◌, List, [], ◌∷◌, ◌++◌, ◌≢◌, arith, Bytes, ◌==◌,
  if◌then◌else◌, length, append-nil, append_assoc,
}
use adb_client.Utils.{split_from, string_split, pop_back, get_lines_from_buf}

-- The words with one delimiter between any two.
abbrev pub join : ℕ → List Bytes → Bytes
join d [] = []
join d (w ∷ []) = w
join d (w ∷ v ∷ ws) = w ++ (d ∷ join d (v ∷ ws))

-- How often a byte occurs.
abbrev pub count : ℕ → Bytes → ℕ
count d [] = 0
count d (c ∷ cs) = (if c == d then 1 else 0) + count d cs

-- The words, each with the delimiter behind it.
abbrev pub terminate : ℕ → List Bytes → Bytes
terminate d [] = []
terminate d (w ∷ ws) = w ++ (d ∷ terminate d ws)

-- No word holds the delimiter.
abbrev pub AllFree : ℕ → List Bytes → Type 0
AllFree d [] = Unit
AllFree d (w ∷ ws) = (count d w ≡ 0) × AllFree d ws

pub count-append : (d : ℕ) (s t : Bytes) → count d (s ++ t) ≡ count d s + count d t
count-append d [] t = omega arith
count-append d (c ∷ s) t = ground (arith, count-append d s t)

length-split_from : (word str : Bytes) (d : ℕ) → length (split_from word str d) ≡ suc (count d str)
unfolding split_from
length-split_from word [] d = refl
length-split_from word (c ∷ cs) d =
    ground (arith, length-split_from [] cs d, length-split_from (word ++ (c ∷ [])) cs d)

-- `string_split` returns one word more than the string has delimiters.
length-string_split : (str : Bytes) (d : ℕ) → length (string_split str d) ≡ suc (count d str)
unfolding string_split
length-string_split str d = length-split_from [] str d

-- a word without the delimiter is read up to what follows it
split_from-free :
    (w word rest : Bytes) (d : ℕ)
    → count d w ≡ 0
    → split_from word (w ++ rest) d ≡ split_from (word ++ w) rest d
unfolding split_from
split_from-free [] word rest d h = rw append-nil
split_from-free (c ∷ w) word rest d h =
    ground (arith, split_from-free w (word ++ (c ∷ [])) rest d, append_assoc word (c ∷ []) w)

split_from-delimiter :
    (word rest : Bytes) (d : ℕ) → split_from word (d ∷ rest) d ≡ word ∷ split_from [] rest d
unfolding split_from
split_from-delimiter word rest d = ground arith

split_from-end : (w word : Bytes) (d : ℕ) → count d w ≡ 0 → split_from word w d ≡ (word ++ w) ∷ []
unfolding split_from
split_from-end [] word d h = rw append-nil
split_from-end (c ∷ w) word d h =
    ground (arith, split_from-end w (word ++ (c ∷ [])) d, append_assoc word (c ∷ []) w)

-- a whole word and the delimiter behind it
split_from-word :
    (w rest : Bytes) (d : ℕ)
    → count d w ≡ 0
    → split_from [] (w ++ (d ∷ rest)) d ≡ w ∷ split_from [] rest d
split_from-word w rest d h = split_from-free w [] (d ∷ rest) d h ∙ split_from-delimiter w rest d

-- Words that do not hold the delimiter, joined by it, are split into the same words.
pub string_split-join :
    (w : Bytes) (ws : List Bytes) (d : ℕ)
    → AllFree d (w ∷ ws)
    → string_split (join d (w ∷ ws)) d ≡ w ∷ ws
unfolding string_split
string_split-join w [] d h = split_from-end w [] d h.0
string_split-join w (v ∷ ws) d h =
    split_from-word w (join d (v ∷ ws)) d h.0 ∙ ap (◌∷◌ w) (string_split-join v ws d h.1)

split_from-ne-nil : (word str : Bytes) (d : ℕ) → split_from word str d ≢ []
split_from-ne-nil word str d e =
    absurd (omega (arith, length-split_from word str d, ap (λ (l : List Bytes). length l) e))

join-cons : (w : Bytes) (ws : List Bytes) (d : ℕ) → ws ≢ [] → join d (w ∷ ws) ≡ w ++ (d ∷ join d ws)
join-cons w [] d ne = absurd (ne refl)
join-cons w (v ∷ ws) d ne = refl

split_from-join : (str word : Bytes) (d : ℕ) → join d (split_from word str d) ≡ word ++ str
unfolding split_from
split_from-join [] word d = sym (append-nil word)
split_from-join (c ∷ cs) word d = ground (
  arith,
  join-cons word (split_from [] cs d) d (split_from-ne-nil [] cs d),
  split_from-join cs [] d,
  split_from-join cs (word ++ (c ∷ [])) d,
  append_assoc word (c ∷ []) cs,
)

-- Joining what `string_split` returns gives the string back, whatever the string.
join-string_split : (str : Bytes) (d : ℕ) → join d (string_split str d) ≡ str
unfolding string_split
join-string_split str d = split_from-join str [] d

-- lines that end in a newline, and a rest
split_from-terminate :
    (ws : List Bytes) (tail : Bytes) (d : ℕ)
    → AllFree d ws
    → count d tail ≡ 0
    → split_from [] (terminate d ws ++ tail) d ≡ ws ++ (tail ∷ [])
split_from-terminate [] tail d h t = split_from-end tail [] d t
split_from-terminate (w ∷ ws) tail d h t =
    ap (λ (s : Bytes). split_from [] s d) (append_assoc w (d ∷ terminate d ws) tail)
    ∙ split_from-word w (terminate d ws ++ tail) d h.0
    ∙ ap (◌∷◌ w) (split_from-terminate ws tail d h.1 t)

pop_back-append : (ws : List Bytes) (w : Bytes) → pop_back (ws ++ (w ∷ [])) ≡ ws
unfolding pop_back
pop_back-append [] w = refl
pop_back-append (x ∷ []) w = refl
pop_back-append (x ∷ y ∷ ws) w = ap (◌∷◌ x) (pop_back-append (y ∷ ws) w)

-- Of a buffer of lines that each end in a newline, with a rest that holds none, exactly those lines
-- are appended to the vector, in order: the rest is dropped.
pub get_lines_from_buf-terminate :
    (lines ws : List Bytes) (tail : Bytes)
    → AllFree b'\n' ws
    → count b'\n' tail ≡ 0
    → get_lines_from_buf lines (terminate b'\n' ws ++ tail) ≡ lines ++ ws
unfolding get_lines_from_buf
get_lines_from_buf-terminate lines ws tail h t =
    ap (λ (v : List Bytes). lines ++ pop_back v) (split_from-terminate ws tail b'\n' h t)
    ∙ ap (◌++◌ lines) (pop_back-append ws tail)

-- the lines of a text in which every line ends in the delimiter
pub split_terminated :
    (ws : List Bytes) (d : ℕ) → AllFree d ws → pop_back (string_split (terminate d ws) d) ≡ ws
unfolding string_split
split_terminated ws d h =
    ap (λ (s : Bytes). pop_back (split_from [] s d)) (sym (append-nil (terminate d ws)))
    ∙ ap (λ (v : List Bytes). pop_back v) (split_from-terminate ws [] d h refl)
    ∙ pop_back-append ws []

pop_back-cons : (w : Bytes) (ws : List Bytes) → ws ≢ [] → pop_back (w ∷ ws) ≡ w ∷ pop_back ws
unfolding pop_back
pop_back-cons w [] ne = absurd (ne refl)
pop_back-cons w (v ∷ ws) ne = refl

-- the first line of a text
pub first_line :
    (w rest : Bytes) (d : ℕ)
    → count d w ≡ 0
    → pop_back (string_split (w ++ (d ∷ rest)) d) ≡ w ∷ pop_back (string_split rest d)
unfolding string_split
first_line w rest d h =
    ap (λ (v : List Bytes). pop_back v) (split_from-word w rest d h)
    ∙ pop_back-cons w (split_from [] rest d) (split_from-ne-nil [] rest d)

-- a byte that is neither in the words nor the separator is not in the joined text
pub count-join :
    (ws : List Bytes) (d sep : ℕ) → (sep == d) ≡ false → AllFree d ws → count d (join sep ws) ≡ 0
count-join [] d sep ne h = refl
count-join (w ∷ []) d sep ne h = h.0
count-join (w ∷ v ∷ ws) d sep ne h =
    ground (arith, count-append d w (sep ∷ join sep (v ∷ ws)), count-join (v ∷ ws) d sep ne h.1)
