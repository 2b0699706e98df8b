-- ===== src/CString/Laws.antt =====
-- The C string functions on memory that holds a text and a NUL behind it.
use adb_client.Base.{◌≡◌, refl, true, [], ◌∷◌, ◌++◌, arith, Bytes, HasNoNul, length, replicate}
use adb_client.Fault.{ok}
use adb_client.CString.{c_string, strncmp_eq, memset_zero}

-- A text with no NUL is read back whole.
c_string-append : (s rest : Bytes) → HasNoNul s → c_string (s ++ (0 ∷ rest)) ≡ ok s
unfolding c_string
c_string-append [] rest h = refl
c_string-append (c ∷ s) rest h = ground (arith, c_string-append s rest h.1)

strncmp_eq-append : (s rest : Bytes) → strncmp_eq (s ++ rest) s ≡ ok true
unfolding strncmp_eq
strncmp_eq-append [] rest = refl
strncmp_eq-append (c ∷ s) rest = ground (arith, strncmp_eq-append s rest)

-- `memset` over all the bytes that are there leaves them zero.
pub memset_zero-append :
    (s rest : Bytes) → memset_zero (length s) (s ++ rest) ≡ ok (replicate (length s) 0 ++ rest)
unfolding memset_zero
memset_zero-append [] rest = refl
memset_zero-append (c ∷ s) rest = ground (arith, memset_zero-append s rest)
