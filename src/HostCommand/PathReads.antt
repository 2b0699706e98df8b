-- ===== src/HostCommand/PathReads.antt =====
-- `get_devices_with_path`, whose reply may arrive in any number of reads.
use adb_client.Base.{
  ℕ, ◌-◌, ◌≡◌, refl, sym, ap, ◌∙◌, List, [], ◌∷◌, map, arith, Bytes, codes, drop, negsuc, length,
  is_minus_one, not, if◌then◌else◌,
}
use adb_client.Client.{Event}
use adb_client.Command.Exchange.{
  exchange, execute-exchange, handle_all, sent, started, ended, update,
}
use adb_client.Command.ReadBuffer.{received_in}
use adb_client.Command.Replies.{AllText, interpret_all, finished}
use adb_client.Command.{Frame}
use adb_client.Fault.{ok, ◌>>=◌}
use adb_client.HostCommand.Paths.{
  devices_with_path_message-IsQuiet, devices_with_path_message-received,
}
use adb_client.HostCommand.{
  HostCommand, host_class, devices_with_path_message, get_devices_with_path,
}
use adb_client.Protocol.Read.{interpret}
use adb_client.Protocol.{Reading}
use adb_client.Utils.Spaces.{unique_spaces-append}
use adb_client.Utils.{unique_spaces}

-- A reading whose spaces are made unique.
abbrev tidy : Reading → Reading
tidy r = record r { result = unique_spaces r.result }

-- What the message callback makes of a reading.
abbrev stored : Reading → Reading
stored r = record r {
  result = if not (is_minus_one r.status) then unique_spaces r.result else r.result;
}

stored-interpret :
    (chunk result error : Bytes)
    → stored (interpret chunk (unique_spaces result) error) ≡ tidy (interpret chunk result error)
unfolding interpret
stored-interpret chunk result error = ground (
  arith,
  unique_spaces-append result chunk,
  unique_spaces-append result (drop 8 chunk),
  unique_spaces-append result (drop 4 chunk),
)

abbrev path_frame : HostCommand → Reading → Frame HostCommand Bytes
path_frame o r = record {
  object = record o { adb = record (o.adb) { error = r.error } };
  status = r.status;
  out = r.result;
}

handle_all-paths :
    (size : ℕ) (chunks : List Bytes) (o : HostCommand) (r : Reading)
    → AllText size chunks
    → handle_all devices_with_path_message (map (received_in size) chunks) (path_frame o (tidy r))
      ≡ ok (path_frame o (tidy (interpret_all chunks r)))
unfolding handle_all interpret_all
handle_all-paths size [] o r h = refl
handle_all-paths size (chunk ∷ chunks) o r h =
    rw
      (devices_with_path_message-received (size - length chunk - 1) chunk (path_frame o (tidy r))
        (interpret chunk (unique_spaces r.result) r.error) h.0 (omega arith) refl)
      (ap
          (λ (x : Reading).
            handle_all devices_with_path_message (map (received_in size) chunks) (path_frame o x))
          (stored-interpret chunk r.result r.error)
        ∙ handle_all-paths size chunks o (interpret chunk r.result r.error) h.2)

module _ (size : ℕ) (rest : List Event) (o : HostCommand) (out : Bytes) (chunks : List Bytes) where
  -- Over any reads, `get_devices_with_path` returns the status and the text of the readings of the
  -- reads, taken one after the other, as `get_devices` does, with the repeated spaces of the whole
  -- text gone: where a read ends does not matter for them. The caller's string has no repeated
  -- spaces, no read has a NUL, and each leaves four bytes of the buffer.
  pub get_devices_with_path-interpret_all :
      unique_spaces out ≡ out
      → AllText size chunks
      → get_devices_with_path
          (exchange host_class devices_with_path_message (map (received_in size) chunks) rest)
          o
          out
        ≡ (let r =
              interpret_all chunks
                (record { status = negsuc 0; result = out; error = o.adb.error }) in
            ok (
              record {
                object = finished host_class o (codes "host:devices-l") r.error;
                status = r.status;
                out = unique_spaces r.result;
              },
              rest,
            ))
  unfolding get_devices_with_path
  get_devices_with_path-interpret_all single h =
      let base = sent (started (codes "host:devices-l") o.adb) in
      let r₀ : Reading = record { status = negsuc 0; result = out; error = o.adb.error } in
      execute-exchange host_class devices_with_path_message devices_with_path_message-IsQuiet
        (codes "host:devices-l") (negsuc 0) (map (received_in size) chunks) rest o out
      ∙ ap
          (λ (x : Bytes). (do
            g ←
                handle_all devices_with_path_message (map (received_in size) chunks)
                  (path_frame (record o { adb = base }) (record r₀ { result = x }))
            ok (update host_class devices_with_path_message ended g, rest)))
          (sym single)
      ∙ rw (handle_all-paths size chunks (record o { adb = base }) r₀ h)
