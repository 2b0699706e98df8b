-- ===== src/HostCommand.antt =====
-- src/host_command.cpp: the commands to the adb server itself.
pub mod Replies
pub mod Talk
pub mod Outcomes
pub mod Version
pub mod VersionReads
pub mod Devices
pub mod Paths
pub mod PathReads
pub mod Track
use adb_client.Base.{
  ℕ, ◌≡◌, refl, Bool, true, false, not, ◌&&◌, List, [], ◌∷◌, ◌++◌, Bytes, codes, equal, ℤ, pos,
  negsuc, is_minus_one, if◌then◌else◌,
}
use adb_client.Client.{
  Buffer, Event, connection, message, set_on_connection, set_on_message, set_on_write_complete,
}
use adb_client.Command.Handlers.{read_into, read_status}
use adb_client.Command.{
  AdbCommand, Derived, Frame, Handler, call, on_connection, weak_up, clear, deliver, waits, begin,
  execute,
}
use adb_client.Fault.{Result, ok, err, ◌>>=◌, dangling}
use adb_client.Number.{stoi_hex}
use adb_client.Protocol.{read_protocol_string}
use adb_client.Utils.{unique_spaces}

pub record HostCommand : Type 0 where
  pub adb : AdbCommand
  pub tracked_device : Bytes

unfoldable pub defualt_on_connection_callback : Bool → HostCommand → Result HostCommand
defualt_on_connection_callback up o = do b ← on_connection up o.adb; ok (record o { adb = b })

unfoldable pub set_client_on_connection_callback : HostCommand → HostCommand
set_client_on_connection_callback o = record o { adb = call set_on_connection o.adb }

unfoldable pub set_client_on_message_callback : HostCommand → HostCommand
set_client_on_message_callback o = record o { adb = call set_on_message o.adb }

unfoldable pub set_client_on_write_complete_callback : HostCommand → HostCommand
set_client_on_write_complete_callback o = record o { adb = call set_on_write_complete o.adb }

-- The body is empty. No command installs it.
unfoldable pub defualt_on_message_callback : HostCommand → HostCommand
defualt_on_message_callback o = o

unfoldable pub error_message : HostCommand → Bytes
error_message o = o.adb.error

unfoldable pub execute_cmd : HostCommand → Bytes → ℤ
execute_cmd o cmd = pos 0

unfoldable pub get_tracked_devices : HostCommand → Bytes
get_tracked_devices o = o.tracked_device

pub connection_lem :
    (up : Bool) (o : HostCommand)
    → defualt_on_connection_callback up o
      ≡ (do b ← on_connection up o.adb; ok (record o { adb = b }))
unfolding defualt_on_connection_callback
connection_lem up o = refl

pub set_connection_lem :
    (o : HostCommand)
    → set_client_on_connection_callback o ≡ record o { adb = call set_on_connection o.adb }
unfolding set_client_on_connection_callback
set_connection_lem o = refl

pub set_message_lem :
    (o : HostCommand)
    → set_client_on_message_callback o ≡ record o { adb = call set_on_message o.adb }
unfolding set_client_on_message_callback
set_message_lem o = refl

abbrev pub host_class : Derived HostCommand
host_class = record {
  base = λ o. o.adb;
  set_base = λ o b. record o { adb = b };
  defualt_on_connection_callback = defualt_on_connection_callback;
  set_client_on_connection_callback = set_client_on_connection_callback;
  set_client_on_message_callback = set_client_on_message_callback;
  base-set_base = λ o b. refl;
  set_base-set_base = λ o b c. refl;
  set_base_self = λ o. refl;
  connection_lem = connection_lem;
  set_connection_lem = set_connection_lem;
  set_message_lem = set_message_lem;
}

-- The message callback of `get_version`.
unfoldable pub version_message : Handler HostCommand ℤ
version_message buf f = do
  r ← read_protocol_string buf [] f.object.adb.error
  version ←
      (if not (is_minus_one r.status) && not (equal r.result [])
        then stoi_hex r.result
        else ok f.out)
  cleared ← clear buf
  ok (
    record {
      object = record (f.object) { adb = record (f.object.adb) { error = r.error } };
      status = r.status;
      out = version;
    },
    cleared,
  )

-- The message callback of `get_devices_with_path`.
unfoldable pub devices_with_path_message : Handler HostCommand Bytes
devices_with_path_message buf f = do
  r ← read_protocol_string buf f.out f.object.adb.error
  cleared ← clear buf
  ok (
    record {
      object = record (f.object) { adb = record (f.object.adb) { error = r.error } };
      status = r.status;
      out = if not (is_minus_one r.status) then unique_spaces r.result else r.result;
    },
    cleared,
  )

-- The message callback of `track_devices`.
unfoldable pub track_devices_message : Handler HostCommand (Unit {0})
track_devices_message buf f = do
  r ← read_protocol_string buf [] f.object.adb.error
  cleared ← clear buf
  ok (
    record f {
      object = record {
        adb = weak_up (record (f.object.adb) { error = r.error });
        tracked_device = r.result;
      };
      status = r.status;
    },
    cleared,
  )

module _ (events : List Event) (o : HostCommand) where
  unfoldable pub get_version : ℤ → Result (Frame HostCommand ℤ × List Event)
  get_version = execute host_class version_message (codes "host:version") (negsuc 0) events o

  unfoldable pub get_devices : Bytes → Result (Frame HostCommand Bytes × List Event)
  get_devices = execute host_class (read_into host_class) (codes "host:devices") (pos 0) events o

  unfoldable pub get_devices_with_path : Bytes → Result (Frame HostCommand Bytes × List Event)
  get_devices_with_path =
      execute host_class devices_with_path_message (codes "host:devices-l") (negsuc 0) events o

  unfoldable pub kill : Result (Frame HostCommand (Unit {0}) × List Event)
  kill = execute host_class (read_status host_class) (codes "host:kill") (negsuc 0) events o tt

  unfoldable pub connect : Bytes → Bytes → Result (Frame HostCommand (Unit {0}) × List Event)
  connect host port =
      let command = codes "host:connect:" ++ (host ++ (b':' ∷ port)) in
      execute host_class (read_status host_class) command (negsuc 0) events o tt

  unfoldable pub disconnect : Bytes → Bytes → Result (Frame HostCommand (Unit {0}) × List Event)
  disconnect host port =
      let command = codes "host:disconnect:" ++ (host ++ (b':' ∷ port)) in
      execute host_class (read_status host_class) command (negsuc 0) events o tt

-- The callbacks that are made before `track_devices` returns.
unfoldable pub deliver_all :
    List Event → Frame HostCommand (Unit {0}) → Result (Frame HostCommand (Unit {0}))
deliver_all [] f = ok f
deliver_all (e ∷ events) f = do
  g ← deliver host_class track_devices_message e f
  deliver_all events g

-- `track_devices` does not wait: `events` are the callbacks made before it returns.
unfoldable pub track_devices : List Event → HostCommand → Result (Frame HostCommand (Unit {0}))
track_devices events o = deliver_all events (record {
  object = begin host_class track_devices_message (codes "host:track-devices") o;
  status = pos 0;
  out = tt;
})

-- The message callback of `track_devices` after the return: it captured `status` by reference,
-- and that variable is gone.
unfoldable pub late_track_devices_message : Handler HostCommand (Unit {0})
late_track_devices_message buf f = do
  r ← read_protocol_string buf [] f.object.adb.error
  err dangling
