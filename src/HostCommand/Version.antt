-- ===== src/HostCommand/Version.antt =====
-- `get_version`: the reply to `host:version` is four hexadecimal digits.
use adb_client.Base.{
  ℕ, inl, inr, sym, Bool-cases, append-nil, ◌+◌, ◌<◌, ◌≤◌, ◌≡◌, ◌≢◌, refl, ◌∙◌, false, List, [],
  ◌∷◌, ◌++◌, arith, Bytes, codes, HasNoNul, ℤ, pos, negsuc, length, equal,
}
use adb_client.Client.{Event}
use adb_client.Command.Replies.{interpret_all, AllText, finished}
use adb_client.Command.Splits.{
  hex_digit-ne-nul, okay, fail, interpret_all-okay, interpret_all-fail, whole-AllText,
}
use adb_client.Command.{Frame}
use adb_client.Fault.{Fault, Result, ok, err, ◌>>=◌, Result-cases}
use adb_client.HostCommand.VersionReads.{
  version_of, version_reads, reading, is_number, last_number, last_status, failures,
  interpret-reading, get_version-last_number,
}
use adb_client.HostCommand.{HostCommand, host_class, get_version}
use adb_client.Number.Hex.{stoi_hex-format_04x}
use adb_client.Number.{stoi_hex}
use adb_client.Printf.Hex.{format_04x, format_04x_digits}
use adb_client.Protocol.Read.{interpret}
use adb_client.Protocol.{Reading}

-- The outcome of `get_version`.
abbrev pub version_answer :
    List Event → HostCommand → ℤ → Bytes → ℤ → Result (Frame HostCommand ℤ × List Event)
version_answer rest o status error version = ok (
  record {
    object = finished host_class o (codes "host:version") error;
    status = status;
    out = version;
  },
  rest,
)

module _ (size : ℕ) (rest : List Event) (o : HostCommand) (out : ℤ) where
  one_read :
      (chunk : Bytes) (r : Reading)
      → AllText size (chunk ∷ [])
      → interpret chunk [] o.adb.error ≡ r
      → get_version (version_reads size (chunk ∷ []) rest) o out
        ≡ (do version ← version_of r out; version_answer rest o r.status r.error version)
  unfolding last_number last_status failures version_of
  one_read chunk r h e =
      let shown = sym (interpret-reading chunk o.adb.error) ∙ e in
      let error = (reading chunk).error in
      get_version-last_number size rest o out (chunk ∷ []) h
      ∙ rw (← shown) (
          rw (append-nil error) (elim (Bool-cases (is_number chunk)) [
            | inl is ↦ rw is (elim (Result-cases (stoi_hex (reading chunk).result)) [
              | inl (n, value) ↦ rw value
              | inr (x, refused) ↦ rw refused
            ])
            | inr isnt ↦ rw isnt
          ]))

-- A number of four digits is read as itself.
version_of-format_04x :
    (v : ℕ) (error : Bytes) (out : ℤ)
    → v < 65536
    → version_of (record { status = pos 0; result = format_04x v; error = error }) out ≡ ok (pos v)
unfolding version_of equal
version_of-format_04x v error out h =
    let read = stoi_hex-format_04x v h in
    rw (format_04x_digits v h) (rw (format_04x_digits v h) at read)

version_text-HasNoNul : (v : ℕ) → v < 65536 → HasNoNul (format_04x v)
version_text-HasNoNul v h =
    rw (format_04x_digits v h)
      (hex_digit-ne-nul _, (hex_digit-ne-nul _, (hex_digit-ne-nul _, (hex_digit-ne-nul _, tt))))

length-version_text : (v : ℕ) → v < 65536 → length (format_04x v) ≡ 4
length-version_text v h = rw (format_04x_digits v h)

no_nul_in_okay : HasNoNul (codes "OKAY")
no_nul_in_okay = (refl, (refl, (refl, (refl, tt))))

module _ (size : ℕ) (rest : List Event) (o : HostCommand) (out : ℤ) (room : 16 ≤ size) where
  -- The version that the server sends as four hexadecimal digits, in one read with OKAY, is stored
  -- in the caller's variable, with status 0. The version is below 65536 and the buffer has 16 bytes
  -- or more.
  pub get_version-okay :
      (v : ℕ)
      → v < 65536
      → get_version (version_reads size (okay (format_04x v) ∷ []) rest) o out
        ≡ version_answer rest o (pos 0) o.adb.error (pos v)
  unfolding interpret_all
  get_version-okay v h =
      let four = length-version_text v h in
      let r : Reading = record { status = pos 0; result = []; error = o.adb.error } in
      one_read size rest o out (okay (format_04x v))
        (record { status = pos 0; result = format_04x v; error = o.adb.error })
        (whole-AllText size (format_04x v) (omega arith) (version_text-HasNoNul v h) (omega arith)
          (codes "OKAY") refl no_nul_in_okay)
        (interpret_all-okay (format_04x v) (omega arith) r).0
      ∙ rw (version_of-format_04x v o.adb.error out h)

not_empty : (s : Bytes) → s ≢ [] → equal s [] ≡ false
unfolding equal
not_empty [] h = absurd (h refl)
not_empty (c ∷ s) h = refl

module _ (size : ℕ) (rest : List Event) (o : HostCommand) (out : ℤ) (text : Bytes)
    (short : length text < 65536) (no_nul : HasNoNul text) (fits : length text + 12 ≤ size) where
  -- A text that `stoi` refuses makes the command end in the fault of `stoi`. The text is not empty
  -- and arrives in one read with OKAY. The text has fewer than 65536 bytes, none of them NUL, and
  -- the buffer has room for the reply.
  get_version-fault :
      (x : Fault)
      → text ≢ []
      → stoi_hex text ≡ err x
      → get_version (version_reads size (okay text ∷ []) rest) o out ≡ err x
  unfolding interpret_all version_of
  get_version-fault x full refused =
      let r : Reading = record { status = pos 0; result = []; error = o.adb.error } in
      one_read size rest o out (okay text)
        (record { status = pos 0; result = text; error = o.adb.error })
        (whole-AllText size text short no_nul fits (codes "OKAY") refl no_nul_in_okay)
        (interpret_all-okay text short r).0
      ∙ rw (not_empty text full, version_of) (rw refused)

  -- A FAIL reply in one read leaves the caller's variable alone: the status is -1 and the text is
  -- appended to the error. The text has fewer than 65536 bytes, none of them NUL, and the buffer
  -- has room for the reply.
  pub get_version-fail :
      get_version (version_reads size (fail text ∷ []) rest) o out
      ≡ version_answer rest o (negsuc 0) (o.adb.error ++ text) out
  unfolding interpret_all version_of
  get_version-fail =
      let r : Reading = record { status = pos 0; result = []; error = o.adb.error } in
      one_read size rest o out (fail text)
        (record { status = negsuc 0; result = []; error = o.adb.error ++ text })
        (whole-AllText size text short no_nul fits (codes "FAIL") refl
          (refl, (refl, (refl, (refl, tt)))))
        (interpret_all-fail text short r).0
