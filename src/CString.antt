-- ===== src/CString.antt =====
-- What the sources use of <string.h> and of the constructor `std::string(const char*)`, over the
-- memory from a pointer to the end of the readable bytes. A read past that end is a fault.
pub mod Laws
use adb_client.Base.{
  ℕ, zero, suc, Bool, true, false, ◌||◌, [], ◌∷◌, Bytes, drop, ◌==◌, if◌then◌else◌,
}
use adb_client.Fault.{Result, ok, err, ◌>>=◌, out_of_bounds}

-- `std::string(p)`: the bytes up to the first NUL.
unfoldable pub c_string : Bytes → Result Bytes
c_string [] = err out_of_bounds
c_string (c ∷ m) = let rest = c_string m in if c == 0 then ok [] else do s ← rest; ok (c ∷ s)

-- `std::string(p + k)`.
abbrev pub c_string_from : ℕ → Bytes → Result Bytes
c_string_from k m = c_string (drop k m)

-- `strncmp(p, s, n) == 0` for a literal `s` of `n` bytes, none of them NUL.
unfoldable pub strncmp_eq : Bytes → Bytes → Result Bool
strncmp_eq m [] = ok true
strncmp_eq [] (l ∷ ls) = err out_of_bounds
strncmp_eq (c ∷ m) (l ∷ ls) = let rest = strncmp_eq m ls in if c == l then rest else ok false

-- `strcmp(p, s) == 0` for a literal `s`: the NUL behind it is compared too.
unfoldable pub strcmp_eq : Bytes → Bytes → Result Bool
strcmp_eq [] ls = err out_of_bounds
strcmp_eq (c ∷ m) [] = ok (c == 0)
strcmp_eq (c ∷ m) (l ∷ ls) = let rest = strcmp_eq m ls in if c == l then rest else ok false

unfoldable pub starts_with : Bytes → Bytes → Bool
starts_with s [] = true
starts_with [] (l ∷ ls) = false
starts_with (c ∷ s) (l ∷ ls) = if c == l then starts_with s ls else false

unfoldable pub contains : Bytes → Bytes → Bool
unfolding starts_with
contains [] ls = starts_with [] ls
contains (c ∷ s) ls = starts_with (c ∷ s) ls || contains s ls

-- `strstr(p, s) != NULL`.
unfoldable pub strstr_found : Bytes → Bytes → Result Bool
unfolding c_string contains
strstr_found m ls = do s ← c_string m; ok (contains s ls)

-- `memset(p, 0, n)`.
unfoldable pub memset_zero : ℕ → Bytes → Result Bytes
memset_zero zero m = ok m
memset_zero (suc n) [] = err out_of_bounds
memset_zero (suc n) (c ∷ m) = do rest ← memset_zero n m; ok (0 ∷ rest)

-- The `n` bytes that `append(p, n)` and `std::string(p, p + n)` read.
unfoldable pub bytes_at : ℕ → Bytes → Result Bytes
bytes_at zero buf = ok []
bytes_at (suc n) [] = err out_of_bounds
bytes_at (suc n) (c ∷ buf) = do rest ← bytes_at n buf; ok (c ∷ rest)
