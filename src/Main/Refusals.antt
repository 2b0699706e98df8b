-- ===== src/Main/Refusals.antt =====
-- A run of `execute_host_command` against a server that refuses the version and both listings.
use adb_client.Base.{
  ℕ, ◌≤◌, ◌≡◌, refl, ap, ◌∙◌, true, List, [], ◌∷◌, ◌++◌, Bytes, codes, HasNoNul, ℤ, pos, negsuc,
  some,
}
use adb_client.Client.{Event, connection, message}
use adb_client.Command.Replies.{finished}
use adb_client.Command.Splits.{fail, interpret_all-fail, whole-AllText}
use adb_client.Command.{Frame}
use adb_client.Fault.{Result, ok, ◌>>=◌}
use adb_client.HostCommand.PathReads.{get_devices_with_path-interpret_all}
use adb_client.HostCommand.Replies.{get_devices-fail}
use adb_client.HostCommand.Track.{tracked_devices, tracked_devices-early}
use adb_client.HostCommand.Version.{get_version-fail}
use adb_client.HostCommand.{
  HostCommand, host_class, get_version, get_devices, get_devices_with_path, get_tracked_devices,
}
use adb_client.Main.Host.{tracked}
use adb_client.Main.Session.{served, IsReply}
use adb_client.Main.{opened, closed, HostReport, host_commands, execute_host_command}
use adb_client.Protocol.Read.{received, interpret, interpret_status}
use adb_client.Protocol.{Reading}
use adb_client.Utils.Devices.Short.{get_device_info_from_buf-short}
use adb_client.Utils.{unique_spaces}

-- The object after a command with a given request that has been answered by FAIL and a text.
unfoldable pub refused : Bytes → Bytes → HostCommand → HostCommand
refused request text o = finished host_class o request (o.adb.error ++ text)

-- The texts with which the server refuses the three requests.
pub record Refusals : Type 0 where
  pub version : Bytes
  pub devices : Bytes
  pub paths : Bytes

pub record AreReplies (size : ℕ) (t : Refusals) : Type 0 where
  pub version : IsReply size t.version
  pub devices : IsReply size t.devices
  pub paths : IsReply size t.paths

abbrev pub refusal_session : ℕ → Refusals → List Event → List Event
refusal_session size t rest =
    served size (fail t.version ∷ [])
      (served size (fail t.devices ∷ []) (served size (fail t.paths ∷ []) rest))

abbrev pub refused_all : Refusals → HostCommand → HostCommand
refused_all t o =
    refused (codes "host:devices-l") t.paths
      (refused (codes "host:devices") t.devices (refused (codes "host:version") t.version o))

-- What is printed: the value that the variable for the version has had, and no device.
abbrev pub refusal_report : ℤ → HostCommand → ℤ → HostReport
refusal_report version t status = record {
  object = record t { adb = closed t.adb };
  version = version;
  devices_list_str = [];
  devices = [];
  devices_with_path = [];
  device_status = get_tracked_devices t;
  status = status;
}

no_text_single : unique_spaces [] ≡ []
unfolding unique_spaces
no_text_single = refl

module _ (size : ℕ) (later : List Event) (o : HostCommand) (text : Bytes)
    (h : IsReply size text) where
  abbrev answer : Bytes → Result (Frame HostCommand Bytes × List Event)
  answer request =
      ok (record { object = refused request text o; status = negsuc 0; out = [] }, later)

  version_refused :
      (version : ℤ)
      → get_version (served size (fail text ∷ []) later) o version
        ≡ ok (
          record {
            object = refused (codes "host:version") text o;
            status = negsuc 0;
            out = version;
          },
          later,
        )
  unfolding refused
  version_refused version = get_version-fail size later o version text h.0 h.1 h.2

  devices_refused :
      get_devices (served size (fail text ∷ []) later) o [] ≡ answer (codes "host:devices")
  unfolding refused
  devices_refused = (get_devices-fail size later o [] text h.0 h.1 h.2).0

  paths_refused :
      get_devices_with_path (served size (fail text ∷ []) later) o []
      ≡ answer (codes "host:devices-l")
  unfolding refused
  paths_refused =
      let r : Reading = record { status = negsuc 0; result = []; error = o.adb.error } in
      let fit =
        whole-AllText size text h.0 h.1 h.2 (codes "FAIL") refl
          (refl, (refl, (refl, (refl, tt)))) in
      get_devices_with_path-interpret_all size later o [] (fail text ∷ []) no_text_single fit
      ∙ rw (interpret_all-fail text h.0 r).0 (rw no_text_single)

module _ (size : ℕ) (t : Refusals) (h : AreReplies size t) (rest early : List Event) (version : ℤ)
    (o : HostCommand) where
  host_commands-refused : host_commands version (refusal_session size t rest) early o ≡ (do
    (u, status, left) ← tracked_devices early rest (refused_all t o)
    ok (refusal_report version u status, left))
  unfolding host_commands
  host_commands-refused =
      rw (version_refused size _ o t.version h.version version, host_commands)
        (rw (devices_refused size _ _ t.devices h.devices) (
          rw (get_device_info_from_buf-short [] [] tt) (
            rw (paths_refused size _ _ t.paths h.paths)
              (rw (get_device_info_from_buf-short [] [] tt)))))

-- Where the server refuses the version and both listings, each with a FAIL and its text in one
-- read, and answers `host:track-devices` before `track_devices` returns, the program returns 0 all
-- the same. It has printed the value that the variable for the version had before, which main.cpp
-- does not initialise, no device, and the status of that answer. The socket has been made; the
-- texts have fewer than 65536 bytes, none of them NUL, the buffer has room for the replies, with
-- four bytes or more behind the last one, which has no NUL.
pub execute_host_command-refused :
    (size connfd : ℕ) (version : ℤ) (t : Refusals) (room : ℕ) (chunk : Bytes) (rest : List Event)
    → AreReplies size t
    → 3 ≤ room
    → HasNoNul chunk
    → execute_host_command
        (pos connfd)
        version
        (refusal_session size t rest)
        (connection true ∷ message (received room chunk) ∷ [])
      ≡ ok (
        pos 0,
        some (
          refusal_report version
              (tracked chunk (refused_all t (record { adb = opened; tracked_device = [] })))
              (interpret chunk [] []).status,
          rest,
        ),
      )
unfolding execute_host_command
execute_host_command-refused size connfd version t room chunk rest h space no_nul =
    let o : HostCommand = record { adb = opened; tracked_device = [] } in
    let first : List Event = connection true ∷ message (received room chunk) ∷ [] in
    rw (host_commands-refused size t h rest first version o) (
      rw (tracked_devices-early room chunk rest (refused_all t o) space no_nul) (
        ap
          (λ (status : ℤ).
            ok
              (pos 0, some (refusal_report version (tracked chunk (refused_all t o)) status, rest)))
          (interpret_status chunk (refused_all t o).adb.error)))
