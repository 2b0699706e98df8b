-- ===== src/HostCommand/Devices.antt =====
-- From the reply of the server to the list of devices, as `execute_host_command` of main.cpp does:
-- `get_devices`, and then `get_device_info_from_buf` on the text.
use adb_client.Base.{ℕ, ◌+◌, ◌<◌, ◌≤◌, ◌≡◌, List, [], ◌∷◌, map, Bytes, codes, HasNoNul, length}
use adb_client.Client.{Event}
use adb_client.Command.Splits.{okay, sized}
use adb_client.DeviceInfo.{DeviceInfo}
use adb_client.Fault.{Result, ok, ◌>>=◌}
use adb_client.HostCommand.Replies.{reads, get_devices-okay}
use adb_client.HostCommand.{HostCommand, get_devices}
use adb_client.Utils.Devices.Short.{
  ShortEntry, AllWords, short_line, entry_info, get_device_info_from_buf-short,
}
use adb_client.Utils.Devices.{get_device_info_from_buf}
use adb_client.Utils.Split.{terminate}

-- The devices that the server lists.
unfoldable pub list_devices : List Event → HostCommand → Result (List DeviceInfo)
list_devices events o = do r ← get_devices events o []; get_device_info_from_buf [] r.0.out

abbrev pub listing : List ShortEntry → Bytes
listing es = terminate b'\n' (map short_line es)

-- The devices that an OKAY reply lists by serial, tab and state, a line each, are returned in
-- order, whether the reply arrives in one read or its status arrives first. Serials and states hold
-- no newline, space or tab. The text has fewer than 65536 bytes, none of them NUL, and the buffer
-- has room for the reply.
pub list_devices-okay :
    (size : ℕ) (rest : List Event) (o : HostCommand) (es : List ShortEntry)
    → AllWords es
    → length (listing es) < 65536
    → HasNoNul (listing es)
    → length (listing es) + 12 ≤ size
    → (list_devices (reads size (okay (listing es) ∷ []) rest) o ≡ ok (map entry_info es))
      × (list_devices (reads size (codes "OKAY" ∷ sized (listing es) ∷ []) rest) o
          ≡ ok (map entry_info es))
unfolding list_devices
list_devices-okay size rest o es words short no_nul fits =
    let (whole, split) = get_devices-okay size rest o [] (listing es) short no_nul fits in
    let parsed = get_device_info_from_buf-short [] es words in
    (rw (whole, list_devices) parsed, rw (split, list_devices) parsed)
