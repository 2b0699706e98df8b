-- ===== src/HostCommand/Paths.antt =====
-- `get_devices_with_path`, and the devices of its text, as `execute_host_command` of main.cpp reads
-- them.
use adb_client.Base.{
  ℕ, ◌+◌, ◌-◌, ◌<◌, ◌≤◌, ◌≡◌, refl, ◌∙◌, List, [], ◌∷◌, ◌++◌, map, arith, Bytes, codes, HasNoNul,
  pos, negsuc, length, is_minus_one, not, if◌then◌else◌,
}
use adb_client.Client.{Event}
use adb_client.Command.Exchange.{
  IsQuiet, flag_of-ok, exchange, execute-exchange, handle_all, sent, started,
}
use adb_client.Command.ReadBuffer.{received_in, zeroed, clear-received}
use adb_client.Command.Replies.{interpret_all, finished}
use adb_client.Command.Splits.{okay, interpret_all-okay, whole-AllText}
use adb_client.Command.{Frame, clear}
use adb_client.DeviceInfo.{DeviceInfo}
use adb_client.Fault.{Result, ok, ◌>>=◌, >>=-eq-ok}
use adb_client.HostCommand.{
  HostCommand, host_class, devices_with_path_message, get_devices_with_path,
}
use adb_client.Protocol.Read.{received, interpret, read_protocol_string-received}
use adb_client.Protocol.{Reading, read_protocol_string}
use adb_client.Utils.Devices.Long.{
  LongEntry, AllEntries, long_line, entry_info, get_device_info_from_buf-long,
}
use adb_client.Utils.Devices.{get_device_info_from_buf}
use adb_client.Utils.Split.{terminate}
use adb_client.Utils.{unique_spaces}

pub devices_with_path_message-IsQuiet : IsQuiet host_class devices_with_path_message
unfolding devices_with_path_message
devices_with_path_message-IsQuiet = record {
  flag = λ buf cleared f g h.
      let (r, reads, h') = >>=-eq-ok (read_protocol_string buf f.out f.object.adb.error) _ h in
      let (c, clears, same) = >>=-eq-ok (clear buf) _ h' in
      flag_of-ok host_class devices_with_path_message same;
}

pub devices_with_path_message-received :
    (room : ℕ) (chunk : Bytes) (f : Frame HostCommand Bytes) (r : Reading)
    → HasNoNul chunk
    → 3 ≤ room
    → interpret chunk f.out f.object.adb.error ≡ r
    → devices_with_path_message (received room chunk) f
      ≡ ok (
        record {
          object = record (f.object) { adb = record (f.object.adb) { error = r.error } };
          status = r.status;
          out = if not (is_minus_one r.status) then unique_spaces r.result else r.result;
        },
        zeroed room chunk,
      )
unfolding devices_with_path_message
devices_with_path_message-received room chunk f r t h e =
    rw
      (
        read_protocol_string-received room chunk f.out f.object.adb.error h t,
        devices_with_path_message,
      )
      (rw e (rw (clear-received room chunk)))

-- The events of one exchange whose only read is `chunk`, into a buffer of `size` bytes.
abbrev pub path_reads : ℕ → Bytes → List Event → List Event
path_reads size chunk rest =
    exchange host_class devices_with_path_message (map (received_in size) (chunk ∷ [])) rest

-- The devices with their paths that the server lists.
unfoldable pub list_devices_with_path : List Event → HostCommand → Result (List DeviceInfo)
list_devices_with_path events o = do
  r ← get_devices_with_path events o []
  get_device_info_from_buf [] r.0.out

module _ (size : ℕ) (rest : List Event) (o : HostCommand) (text : Bytes)
    (short : length text < 65536) (no_nul : HasNoNul text) (fits : length text + 12 ≤ size) where
  pub get_devices_with_path-okay :
      (out : Bytes)
      → get_devices_with_path (path_reads size (okay text) rest) o out
        ≡ ok (
          record {
            object = finished host_class o (codes "host:devices-l") o.adb.error;
            status = pos 0;
            out = unique_spaces (out ++ text);
          },
          rest,
        )
  unfolding get_devices_with_path handle_all interpret_all
  get_devices_with_path-okay out =
      let r : Reading = record { status = pos 0; result = out; error = o.adb.error } in
      let fit =
        whole-AllText size text short no_nul fits (codes "OKAY") refl
          (refl, (refl, (refl, (refl, tt)))) in
      execute-exchange host_class devices_with_path_message devices_with_path_message-IsQuiet
        (codes "host:devices-l") (negsuc 0) (map (received_in size) (okay text ∷ [])) rest o out
      ∙ rw (
          devices_with_path_message-received (size - length (okay text) - 1) (okay text)
            (record {
              object = record o { adb = sent (started (codes "host:devices-l") o.adb) };
              status = negsuc 0;
              out = out;
            })
            (record { status = pos 0; result = out ++ text; error = o.adb.error }) fit.0
            (omega arith) (interpret_all-okay text short r).0)

  -- Of an OKAY reply in one read, whose text without repeated spaces is a line of six fields for
  -- each device, every device is returned in order with the values of all six, as
  -- `get_device_info_from_buf` reads them. The text has fewer than 65536 bytes, none of them NUL,
  -- and the buffer has room for the reply.
  list_devices_with_path-okay :
      (es : List LongEntry)
      → AllEntries es
      → unique_spaces text ≡ terminate b'\n' (map long_line es)
      → list_devices_with_path (path_reads size (okay text) rest) o ≡ ok (map entry_info es)
  unfolding list_devices_with_path
  list_devices_with_path-okay es entries lines =
      rw (get_devices_with_path-okay [], list_devices_with_path)
        (rw lines (get_device_info_from_buf-long [] es entries))
