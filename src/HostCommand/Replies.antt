-- ===== src/HostCommand/Replies.antt =====
-- `get_devices` over one exchange, from the request to the returned text.
use adb_client.Base.{
  ℕ, ◌+◌, ◌<◌, ◌≤◌, refl, ◌≡◌, ◌∙◌, ap, List, [], ◌∷◌, ◌++◌, map, Bytes, codes, HasNoNul, ℤ, pos,
  negsuc, length,
}
use adb_client.Client.{Event}
use adb_client.Command.Exchange.{exchange}
use adb_client.Command.Handlers.{read_into}
use adb_client.Command.ReadBuffer.{received_in}
use adb_client.Command.Replies.{AllText, finished, interpret_all, execute-read_into}
use adb_client.Command.Splits.{
  AllUntagged, survivors, interpret_all-fragments, okay, fail, sized, interpret_all-okay,
  interpret_all-fail, whole-AllText, split-AllText,
}
use adb_client.Command.{Frame}
use adb_client.Fault.{ok}
use adb_client.HostCommand.{HostCommand, host_class, get_devices}
use adb_client.Printf.Hex.{format_04x}
use adb_client.Protocol.{Reading}

-- The events of one exchange whose reads are `chunks`, into a buffer of `size` bytes.
abbrev pub reads : ℕ → List Bytes → List Event → List Event
reads size chunks rest =
    exchange host_class (read_into host_class) (map (received_in size) chunks) rest

module _ (size : ℕ) (rest : List Event) (o : HostCommand) (out : Bytes) where
  -- The answer of `get_devices` with a given status, text and error.
  abbrev pub answer : ℤ → Bytes → Bytes → Frame HostCommand Bytes × List Event
  answer status devices error = (
    record {
      object = finished host_class o (codes "host:devices") error;
      status = status;
      out = devices;
    },
    rest,
  )

  answered :
      (chunks : List Bytes) (status : ℤ) (devices error : Bytes)
      → AllText size chunks
      → interpret_all chunks (record { status = pos 0; result = out; error = o.adb.error })
        ≡ record { status = status; result = devices; error = error }
      → get_devices (reads size chunks rest) o out ≡ ok (answer status devices error)
  unfolding get_devices
  answered chunks status devices error h e =
      execute-read_into host_class size chunks (codes "host:devices") (pos 0) rest o out h
      ∙ ap (λ (r : Reading). ok (answer r.status r.result r.error)) e

  module _ (text : Bytes) (short : length text < 65536) (no_nul : HasNoNul text)
      (fits : length text + 12 ≤ size) where
    -- The text of an OKAY reply is appended to the caller's string, with status 0, whether the
    -- reply arrives in one read or its status arrives first. The text has fewer than 65536 bytes,
    -- none of them NUL, and the buffer has room for the reply.
    pub get_devices-okay :
        (get_devices (reads size (okay text ∷ []) rest) o out
          ≡ ok (answer (pos 0) (out ++ text) o.adb.error))
        × (get_devices (reads size (codes "OKAY" ∷ sized text ∷ []) rest) o out
            ≡ ok (answer (pos 0) (out ++ text) o.adb.error))
    get_devices-okay =
        let r : Reading = record { status = pos 0; result = out; error = o.adb.error } in
        let (whole, split) = interpret_all-okay text short r in
        (
          answered (okay text ∷ []) (pos 0) (out ++ text) o.adb.error
              (whole-AllText size text short no_nul fits (codes "OKAY") refl
                (refl, (refl, (refl, (refl, tt)))))
              whole,
          answered (codes "OKAY" ∷ sized text ∷ []) (pos 0) (out ++ text) o.adb.error
              (split-AllText size text short no_nul fits (codes "OKAY") refl
                (refl, (refl, (refl, (refl, tt)))))
              split,
        )

    -- The text of a FAIL reply that arrives in one read is appended to the error, with status -1,
    -- and the caller's string is left alone. If the status arrives first, the command returns 0,
    -- and the text of the failure is appended to the caller's string. The text has fewer than 65536
    -- bytes, none of them NUL, and the buffer has room for the reply.
    pub get_devices-fail :
        (get_devices (reads size (fail text ∷ []) rest) o out
          ≡ ok (answer (negsuc 0) out (o.adb.error ++ text)))
        × (get_devices (reads size (codes "FAIL" ∷ sized text ∷ []) rest) o out
            ≡ ok (answer (pos 0) (out ++ text) o.adb.error))
    get_devices-fail =
        let r : Reading = record { status = pos 0; result = out; error = o.adb.error } in
        let (whole, split) = interpret_all-fail text short r in
        (
          answered (fail text ∷ []) (negsuc 0) out (o.adb.error ++ text)
              (whole-AllText size text short no_nul fits (codes "FAIL") refl
                (refl, (refl, (refl, (refl, tt)))))
              whole,
          answered (codes "FAIL" ∷ sized text ∷ []) (pos 0) (out ++ text) o.adb.error
              (split-AllText size text short no_nul fits (codes "FAIL") refl
                (refl, (refl, (refl, (refl, tt)))))
              split,
        )

  -- Where the text of an OKAY reply, of fewer than 65536 bytes, goes on in further reads that begin
  -- with no status, each of these of four bytes or more loses its first four, with status 0. No
  -- read has a NUL, and each leaves four bytes of the buffer.
  pub get_devices-fragments :
      (n : ℕ) (front : Bytes) (chunks : List Bytes)
      → n < 65536
      → AllUntagged chunks
      → AllText size ((codes "OKAY" ++ (format_04x n ++ front)) ∷ chunks)
      → get_devices (reads size ((codes "OKAY" ++ (format_04x n ++ front)) ∷ chunks) rest) o out
        ≡ ok (answer (pos 0) ((out ++ front) ++ survivors chunks) o.adb.error)
  get_devices-fragments n front chunks short untagged texts =
      answered ((codes "OKAY" ++ (format_04x n ++ front)) ∷ chunks) (pos 0)
        ((out ++ front) ++ survivors chunks) o.adb.error texts
        (interpret_all-fragments n front chunks
          (record { status = pos 0; result = out; error = o.adb.error }) short untagged)
