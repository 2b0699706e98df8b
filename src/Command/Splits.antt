-- ===== src/Command/Splits.antt =====
-- How a reply of the server is read when it arrives in one read, or in two. A reply is a status of
-- four bytes, the length of the text in four hexadecimal digits, and the text.
use adb_client.Base.{
  List, append_assoc, ltb, if◌then◌else◌, ℕ, ◌+◌, ◌≤◌, ◌<◌, ◌≡◌, ap, false, [], ◌∷◌, ◌++◌, arith,
  Bytes, HasNoNul, pos, negsuc, length, length-append, codes, drop, append-nil, ◌==◌,
}
use adb_client.CString.{starts_with}
use adb_client.Command.Replies.{interpret_all, AllText}
use adb_client.Command.Statuses.{interpret_each}
use adb_client.Printf.Hex.{four, hex_digit, format_04x, format_04x_digits}
use adb_client.Protocol.Read.{interpret}
use adb_client.Protocol.{Reading}

-- The length and the text.
abbrev pub sized : Bytes → Bytes
sized text = format_04x (length text) ++ text

abbrev pub okay : Bytes → Bytes
okay text = codes "OKAY" ++ sized text

abbrev pub fail : Bytes → Bytes
fail text = codes "FAIL" ++ sized text

-- The text does not begin with a status.
abbrev pub IsUntagged : Bytes → Type 0
IsUntagged s = (starts_with s (codes "OKAY") ≡ false) × (starts_with s (codes "FAIL") ≡ false)

-- A hexadecimal digit is neither O nor F.
hex_digit-untagged :
    (d : ℕ) → d < 16 → ((hex_digit d == b'O') ≡ false) × ((hex_digit d == b'F') ≡ false)
unfolding hex_digit
hex_digit-untagged d h = ground arith

four-IsUntagged : (a b c d : ℕ) (s : Bytes) → a < 16 → IsUntagged (four a b c d ++ s)
unfolding starts_with
four-IsUntagged a b c d s h = ground (arith, hex_digit-untagged a h)

interpret_okay :
    (a b c d : ℕ) (text result error : Bytes)
    → interpret (codes "OKAY" ++ (four a b c d ++ text)) result error
      ≡ record { status = pos 0; result = result ++ text; error = error }
unfolding interpret starts_with
interpret_okay a b c d text result error = ground arith

interpret_fail :
    (a b c d : ℕ) (text result error : Bytes)
    → interpret (codes "FAIL" ++ (four a b c d ++ text)) result error
      ≡ record { status = negsuc 0; result = result; error = error ++ text }
unfolding interpret starts_with
interpret_fail a b c d text result error = ground arith

-- Four bytes or more that begin with no status lose the first four.
interpret_untagged :
    (a b c d : ℕ) (text result error : Bytes)
    → IsUntagged (a ∷ b ∷ c ∷ d ∷ text)
    → interpret (a ∷ b ∷ c ∷ d ∷ text) result error
      ≡ record { status = pos 0; result = result ++ text; error = error }
unfolding interpret
interpret_untagged a b c d text result error h = ground arith

interpret_status :
    (result error : Bytes)
    → (interpret (codes "OKAY") result error
        ≡ record { status = pos 0; result = result; error = error })
      × (interpret (codes "FAIL") result error
          ≡ record { status = negsuc 0; result = result; error = error })
unfolding interpret starts_with
interpret_status result error = (
  ap (λ (s : Bytes). record { status = pos 0; result = s; error = error }) (append-nil result),
  ap (λ (s : Bytes). record { status = negsuc 0; result = result; error = s }) (append-nil error),
)

module _ (text : Bytes) (short : length text < 65536) (r : Reading) where
  -- An OKAY reply is read as its text, with status 0, in one read and where the status comes first.
  pub interpret_all-okay :
      (interpret_all (okay text ∷ []) r
        ≡ record { status = pos 0; result = r.result ++ text; error = r.error })
      × (interpret_all (codes "OKAY" ∷ sized text ∷ []) r
          ≡ record { status = pos 0; result = r.result ++ text; error = r.error })
  unfolding interpret_all
  interpret_all-okay = (
    rw (format_04x_digits (length text) short) (interpret_okay _ _ _ _ text r.result r.error),
    rw (format_04x_digits (length text) short) (
        rw (interpret_status r.result r.error).0 (
          interpret_untagged _ _ _ _ text r.result r.error
            (four-IsUntagged _ _ _ _ text (omega arith)))),
  )

  -- A FAIL reply in one read: the text is appended to the error, with status -1. Where the status
  -- comes first, the text is taken for a result, with status 0.
  pub interpret_all-fail :
      (interpret_all (fail text ∷ []) r
        ≡ record { status = negsuc 0; result = r.result; error = r.error ++ text })
      × (interpret_all (codes "FAIL" ∷ sized text ∷ []) r
          ≡ record { status = pos 0; result = r.result ++ text; error = r.error })
  unfolding interpret_all
  interpret_all-fail = (
    rw (format_04x_digits (length text) short) (interpret_fail _ _ _ _ text r.result r.error),
    rw (format_04x_digits (length text) short) (
        rw (interpret_status r.result r.error).1 (
          interpret_untagged _ _ _ _ text r.result r.error
            (four-IsUntagged _ _ _ _ text (omega arith)))),
  )

  -- The same where every read starts with an empty result. An OKAY reply with no text has status 0.
  -- A FAIL reply in one read has status -1, and its text is appended to the error; where its status
  -- comes first it ends with status 0 and the old error.
  pub interpret_each-status :
      (interpret_each (codes "OKAY" ∷ []) r
        ≡ record { status = pos 0; result = []; error = r.error })
      × (interpret_each (fail text ∷ []) r
          ≡ record { status = negsuc 0; result = []; error = r.error ++ text })
      × (interpret_each (codes "FAIL" ∷ sized text ∷ []) r
          ≡ record { status = pos 0; result = text; error = r.error })
  unfolding interpret_each
  interpret_each-status = (
    (interpret_status [] r.error).0,
    rw (format_04x_digits (length text) short) (interpret_fail _ _ _ _ text [] r.error),
    rw (format_04x_digits (length text) short) (
        rw (interpret_status [] r.error).1 (
          interpret_untagged _ _ _ _ text [] r.error (four-IsUntagged _ _ _ _ text (omega arith)))),
  )

-- What a read that begins with no status adds to a text.
abbrev pub surviving : Bytes → Bytes
surviving chunk = if ltb (length chunk) 4 then chunk else drop 4 chunk

abbrev pub survivors : List Bytes → Bytes
survivors [] = []
survivors (chunk ∷ chunks) = surviving chunk ++ survivors chunks

abbrev pub AllUntagged : List Bytes → Type 0
AllUntagged [] = Unit
AllUntagged (chunk ∷ chunks) = IsUntagged chunk × AllUntagged chunks

interpret-surviving :
    (chunk result error : Bytes)
    → IsUntagged chunk
    → interpret chunk result error
      ≡ record { status = pos 0; result = result ++ surviving chunk; error = error }
unfolding interpret
interpret-surviving chunk result error u = ground arith

interpret_all-survivors :
    (chunks : List Bytes) (result error : Bytes)
    → AllUntagged chunks
    → interpret_all chunks (record { status = pos 0; result = result; error = error })
      ≡ record { status = pos 0; result = result ++ survivors chunks; error = error }
unfolding interpret_all
interpret_all-survivors [] result error u = rw (append-nil result)
interpret_all-survivors (chunk ∷ chunks) result error u =
    rw (interpret-surviving chunk result error u.0) (
      rw (interpret_all-survivors chunks (result ++ surviving chunk) error u.1)
        (rw (append_assoc result (surviving chunk) (survivors chunks))))

-- Where the text of an OKAY reply goes on in reads that begin with no status, each of these of four
-- bytes or more loses its first four; the status is 0.
pub interpret_all-fragments :
    (n : ℕ) (front : Bytes) (chunks : List Bytes) (r : Reading)
    → n < 65536
    → AllUntagged chunks
    → interpret_all ((codes "OKAY" ++ (format_04x n ++ front)) ∷ chunks) r
      ≡ record { status = pos 0; result = (r.result ++ front) ++ survivors chunks; error = r.error }
unfolding interpret_all
interpret_all-fragments n front chunks r short u = rw (format_04x_digits n short) (
    rw (interpret_okay _ _ _ _ front r.result r.error)
      (interpret_all-survivors chunks (r.result ++ front) r.error u))

HasNoNul-append : (s t : Bytes) → HasNoNul s → HasNoNul t → HasNoNul (s ++ t)
HasNoNul-append [] t hs ht = ht
HasNoNul-append (c ∷ s) t hs ht = (hs.0, HasNoNul-append s t hs.1 ht)

pub hex_digit-ne-nul : (d : ℕ) → (hex_digit d == 0) ≡ false
unfolding hex_digit
hex_digit-ne-nul d = ground arith

sized-HasNoNul : (text : Bytes) → length text < 65536 → HasNoNul text → HasNoNul (sized text)
sized-HasNoNul text short h =
    rw (format_04x_digits (length text) short)
      (hex_digit-ne-nul _, (hex_digit-ne-nul _, (hex_digit-ne-nul _, (hex_digit-ne-nul _, h))))

pub length-sized : (text : Bytes) → length text < 65536 → length (sized text) ≡ length text + 4
length-sized text short = rw (format_04x_digits (length text) short) (omega arith)

module _ (size : ℕ) (text : Bytes) (short : length text < 65536) (h : HasNoNul text)
    (fits : length text + 12 ≤ size) where
  -- A status and a text with no NUL make reads with no NUL.
  pub whole-AllText :
      (status : Bytes)
      → length status ≡ 4
      → HasNoNul status
      → AllText size ((status ++ sized text) ∷ [])
  whole-AllText status four hs = (
    HasNoNul-append status (sized text) hs (sized-HasNoNul text short h),
    omega (arith, length-append status (sized text), length-sized text short),
    tt,
  )

  pub split-AllText :
      (status : Bytes)
      → length status ≡ 4
      → HasNoNul status
      → AllText size (status ∷ sized text ∷ [])
  split-AllText status four hs =
      (hs, omega arith, (sized-HasNoNul text short h, omega (arith, length-sized text short), tt))
