-- ===== src/Utils.antt =====
-- src/utils.cpp: the text helpers. `get_device_info_from_buf` stands in Utils/Devices.
pub mod Split
pub mod Cut
pub mod Stream
pub mod Spaces
pub mod Devices
use adb_client.Base.{ℕ, Bool, ◌&&◌, List, [], ◌∷◌, ◌++◌, Bytes, ◌==◌, if◌then◌else◌}

-- `string_split`, with the word that `std::getline` has read so far. A delimiter ends a word, and
-- so does the end of the stream, where `eof` is set and the loop stops.
unfoldable pub split_from : Bytes → Bytes → ℕ → List Bytes
split_from word [] delimiter = word ∷ []
split_from word (c ∷ cs) delimiter =
    let ended = word ∷ split_from [] cs delimiter in
    let longer = split_from (word ++ (c ∷ [])) cs delimiter in
    if c == delimiter then ended else longer

unfoldable pub string_split : Bytes → ℕ → List Bytes
unfolding split_from
string_split str delimiter = split_from [] str delimiter

-- The predicate of `std::unique` in `unique_spaces`.
abbrev pub both_spaces : ℕ → ℕ → Bool
both_spaces lhs rhs = lhs == rhs && lhs == b' '

-- `std::unique` and `erase`: `last` is the last element that was kept; an element that the
-- predicate relates to it is dropped.
unfoldable pub unique_from : ℕ → Bytes → Bytes
unique_from last [] = []
unique_from last (c ∷ cs) =
    let kept = c ∷ unique_from c cs in
    let dropped = unique_from last cs in if both_spaces last c then dropped else kept

unfoldable pub unique_spaces : Bytes → Bytes
unfolding unique_from
unique_spaces [] = []
unique_spaces (c ∷ cs) = c ∷ unique_from c cs

-- `pop_back` on a vector; the sources call it only on the result of `string_split`.
unfoldable pub pop_back : List Bytes → List Bytes
pop_back [] = []
pop_back (x ∷ []) = []
pop_back (x ∷ y ∷ xs) = x ∷ pop_back (y ∷ xs)

-- `get_lines_from_buf`: the lines are appended to the vector that is passed in.
unfoldable pub get_lines_from_buf : List Bytes → Bytes → List Bytes
unfolding string_split pop_back
get_lines_from_buf lines buf = lines ++ pop_back (string_split buf b'\n')
