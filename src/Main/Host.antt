-- ===== src/Main/Host.antt =====
-- A whole run of `execute_host_command` against a server that answers every request.
use adb_client.Base.{
  ℕ, ◌<◌, ◌≤◌, ◌≡◌, ap, true, List, [], ◌∷◌, ◌++◌, map, Bytes, codes, HasNoNul, ℤ, pos, some,
}
use adb_client.Client.{Event, connection, message}
use adb_client.Command.Exchange.{ended, sent, started}
use adb_client.Command.Replies.{finished, with_error}
use adb_client.Command.Splits.{okay}
use adb_client.Fault.{ok, err, dangling, ◌>>=◌}
use adb_client.HostCommand.Devices.{listing}
use adb_client.HostCommand.Paths.{get_devices_with_path-okay}
use adb_client.HostCommand.Replies.{get_devices-okay}
use adb_client.HostCommand.Track.{tracked_devices, tracked_devices-late, tracked_devices-early}
use adb_client.HostCommand.Version.{get_version-okay}
use adb_client.HostCommand.{
  HostCommand, host_class, get_version, get_devices, get_devices_with_path, get_tracked_devices,
}
use adb_client.Main.Session.{served, IsReply}
use adb_client.Main.{opened, closed, HostReport, host_commands, execute_host_command}
use adb_client.Printf.Hex.{format_04x}
use adb_client.Protocol.Read.{received, interpret, interpret_status}
use adb_client.Utils.Devices.Long
use adb_client.Utils.Devices.Long.{LongEntry, AllEntries, long_line, get_device_info_from_buf-long}
use adb_client.Utils.Devices.Short
use adb_client.Utils.Devices.Short.{ShortEntry, AllWords, get_device_info_from_buf-short}
use adb_client.Utils.Split.{terminate}
use adb_client.Utils.{unique_spaces}

-- The object after a command with a given request that has been answered by OKAY.
unfoldable pub asked : Bytes → HostCommand → HostCommand
asked request o = finished host_class o request o.adb.error

-- What the server answers to the version and to the two listings.
pub record HostAnswers : Type 0 where
  pub version : ℕ
  pub devices : List ShortEntry
  pub paths : Bytes
  pub devices_with_path : List LongEntry

-- The buffer holds every reply in one read. `paths` is the text of the second listing, whose fields
-- may be apart by several spaces.
pub record IsServed (size : ℕ) (a : HostAnswers) : Type 0 where
  pub version : a.version < 65536
  pub words : AllWords a.devices
  pub devices : IsReply size (listing a.devices)
  pub paths : IsReply size a.paths
  pub lines : unique_spaces a.paths ≡ terminate b'\n' (map long_line a.devices_with_path)
  pub entries : AllEntries a.devices_with_path

abbrev pub host_session : ℕ → HostAnswers → List Event → List Event
host_session size a rest =
    served size (okay (format_04x a.version) ∷ [])
      (served size (okay (listing a.devices) ∷ []) (served size (okay a.paths ∷ []) rest))

-- The object after the three requests.
abbrev pub told : HostCommand → HostCommand
told o =
    asked (codes "host:devices-l") (asked (codes "host:devices") (asked (codes "host:version") o))

abbrev pub host_report : HostAnswers → HostCommand → ℤ → HostReport
host_report a t status = record {
  object = record t { adb = closed t.adb };
  version = pos a.version;
  devices_list_str = listing a.devices;
  devices = map Short.entry_info a.devices;
  devices_with_path = map Long.entry_info a.devices_with_path;
  device_status = get_tracked_devices t;
  status = status;
}

module _ (size : ℕ) (a : HostAnswers) (h : IsServed size a) (rest early : List Event) (version : ℤ)
    (o : HostCommand) where
  version_step :
      (later : List Event)
      → 16 ≤ size
      → get_version (served size (okay (format_04x a.version) ∷ []) later) o version
        ≡ ok (
          record { object = asked (codes "host:version") o; status = pos 0; out = pos a.version },
          later,
        )
  unfolding asked
  version_step later room = get_version-okay size later o version room a.version h.version

  devices_step :
      (later : List Event) (c : HostCommand)
      → get_devices (served size (okay (listing a.devices) ∷ []) later) c []
        ≡ ok (
          record {
            object = asked (codes "host:devices") c;
            status = pos 0;
            out = listing a.devices;
          },
          later,
        )
  unfolding asked
  devices_step later c =
      (get_devices-okay size later c [] (listing a.devices) h.devices.0 h.devices.1 h.devices.2).0

  paths_step :
      (later : List Event) (c : HostCommand)
      → get_devices_with_path (served size (okay a.paths ∷ []) later) c []
        ≡ ok (
          record {
            object = asked (codes "host:devices-l") c;
            status = pos 0;
            out = unique_spaces a.paths;
          },
          later,
        )
  unfolding asked
  paths_step later c =
      get_devices_with_path-okay size later c a.paths h.paths.0 h.paths.1 h.paths.2 []

  host_commands-session :
      16 ≤ size
      → host_commands version (host_session size a rest) early o ≡ (do
        (t, status, left) ← tracked_devices early rest (told o)
        ok (host_report a t status, left))
  unfolding host_commands
  host_commands-session room =
      rw (version_step _ room, host_commands)
        (rw (devices_step _ (asked (codes "host:version") o)) (
          rw (get_device_info_from_buf-short [] a.devices h.words) (
            rw (paths_step _ (asked (codes "host:devices") (asked (codes "host:version") o)))
              (rw h.lines (rw (get_device_info_from_buf-long [] a.devices_with_path h.entries))))))

-- The object that has seen the first reply to `host:track-devices`.
abbrev pub tracked : Bytes → HostCommand → HostCommand
tracked chunk o =
    let r = interpret chunk [] o.adb.error in
    record {
      adb = ended (with_error r.error (sent (started (codes "host:track-devices") o.adb)));
      tracked_device = r.result;
    }

-- Against a server that answers the version and the two listings, each in one read, the program
-- comes to `track_devices`. Where the first reply to that comes before `track_devices` returns, the
-- program returns 0 and has printed the version, the devices of both listings, and the text and the
-- status of that reply. Where it comes later, the program ends in the write to a variable that is
-- gone. The socket has been made; the buffer has 16 bytes or more and holds every reply, with four
-- bytes or more behind the last one; the version is below 65536, the texts have fewer than 65536
-- bytes, none of them NUL, and neither has that reply, and the lists of devices are in the server's
-- form.
pub execute_host_command-session :
    (size connfd : ℕ) (version : ℤ) (a : HostAnswers) (room : ℕ) (chunk : Bytes) (rest : List Event)
    → IsServed size a
    → 16 ≤ size
    → 3 ≤ room
    → HasNoNul chunk
    → let first : List Event = connection true ∷ message (received room chunk) ∷ [] in
      let status = (interpret chunk [] []).status in
      let object = tracked chunk (told (record { adb = opened; tracked_device = [] })) in
      (execute_host_command (pos connfd) version (host_session size a rest) first
        ≡ ok (pos 0, some (host_report a object status, rest)))
      × (execute_host_command (pos connfd) version (host_session size a (first ++ rest)) []
          ≡ err dangling)
unfolding execute_host_command
execute_host_command-session size connfd version a room chunk rest h wide space no_nul =
    let o : HostCommand = record { adb = opened; tracked_device = [] } in
    let first : List Event = connection true ∷ message (received room chunk) ∷ [] in
    (
      rw (host_commands-session size a h rest first version o wide) (
          rw (tracked_devices-early room chunk rest (told o) space no_nul) (
            ap
              (λ (status : ℤ).
                ok (pos 0, some (host_report a (tracked chunk (told o)) status, rest)))
              (interpret_status chunk (told o).adb.error))),
      rw (host_commands-session size a h (first ++ rest) [] version o wide)
          (rw (tracked_devices-late room chunk rest (told o) space no_nul)),
    )
