-- ===== src/Main.antt =====
-- main.cpp: the three example programs, which drive one object of a command class each. The
-- result of `createsocket` and the callbacks of the event loop are parameters. What the programs
-- print and the file that `execute_local_command` writes are left out; a program returns the exit
-- value and the values that it prints.
pub mod Session
pub mod Refusals
pub mod Serial
pub mod Denied
pub mod Host
pub mod Visits
pub mod Local
pub mod Absent
use adb_client.Base.{
  ℕ, Bool, true, false, List, [], ◌∷◌, Bytes, codes, ℤ, pos, negsuc, if◌then◌else◌, Option, none,
  some,
}
use adb_client.Client.{Event, createsocket, stop, closesocket}
use adb_client.Command.{AdbCommand, call}
use adb_client.DeviceInfo.{DeviceInfo}
use adb_client.Fault.{Result, ok, ◌>>=◌}
use adb_client.HostCommand.Track.{tracked_devices}
use adb_client.HostCommand.{
  HostCommand, get_version, get_devices, get_devices_with_path, get_tracked_devices,
}
use adb_client.HostSerialCommand.{
  HostSerialCommand, forward, list_forward, kill_forward, kill_forward_all, get_device_path,
  get_serial_no, get_state,
}
use adb_client.LocalCommand.Handlers.{LocalCommand}
use adb_client.LocalCommand.{
  shell, get_shell_data, list_packages, get_properties, screencap, root, sync, reverse,
  list_reverse, kill_reverse, kill_reverse_all,
}
use adb_client.Utils.Devices.{get_device_info_from_buf}
use adb_client.Utils.{get_lines_from_buf}

abbrev pub remote_port : ℕ
remote_port = 5037

abbrev pub remote_host : Bytes
remote_host = codes "127.0.0.1"

abbrev pub serial : Bytes
serial = codes "d17cdac6"

-- A command object that has just been made.
abbrev pub new_command : AdbCommand
new_command = record { command = []; error = []; command_finished = 0; calls = [] }

-- `createsocket` has been called, and at the end `stop` and `closesocket` are.
abbrev pub opened : AdbCommand
opened = call (createsocket remote_port remote_host) new_command

abbrev pub closed : AdbCommand → AdbCommand
closed b = call closesocket (call stop b)

-- `connfd < 0`.
abbrev pub is_negative : ℤ → Bool
is_negative (pos n) = false
is_negative (negsuc n) = true

-- What `execute_host_command` prints.
pub record HostReport : Type 0 where
  pub object : HostCommand
  pub version : ℤ
  pub devices_list_str : Bytes
  pub devices : List DeviceInfo
  pub devices_with_path : List DeviceInfo
  pub device_status : Bytes
  pub status : ℤ

-- `version` is the value of the uninitialised variable. `devices_list.clear()` and
-- `devices_list_str.clear()` make the second listing start from nothing. `early` are the callbacks
-- that are made before `track_devices` returns.
unfoldable pub host_commands :
    ℤ → List Event → List Event → HostCommand → Result (HostReport × List Event)
host_commands version events early o = do
  (v, events) ← get_version events o version
  (l, events) ← get_devices events v.object []
  devices ← get_device_info_from_buf [] l.out
  (p, events) ← get_devices_with_path events l.object []
  devices_with_path ← get_device_info_from_buf [] p.out
  (t, status, events) ← tracked_devices early events p.object
  ok (
    record {
      object = record t { adb = closed t.adb };
      version = v.out;
      devices_list_str = l.out;
      devices = devices;
      devices_with_path = devices_with_path;
      device_status = get_tracked_devices t;
      status = status;
    },
    events,
  )

-- Where `createsocket` fails nothing else is called, and the value is -20.
unfoldable pub execute_host_command :
    ℤ → ℤ → List Event → List Event → Result (ℤ × Option (HostReport × List Event))
execute_host_command connfd version events early =
    let o : HostCommand = record { adb = opened; tracked_device = [] } in
    if is_negative connfd
    then ok (negsuc 19, none)
    else do r ← host_commands version events early o; ok (pos 0, some r)

-- What `execute_serial_command` prints.
pub record SerialReport : Type 0 where
  pub object : HostSerialCommand
  pub forwards : List (List Bytes)
  pub device_path : Bytes
  pub serial_no : Bytes
  pub state : Bytes

-- `list_forward` into a string that has just been cleared, and its lines.
unfoldable pub forward_lines :
    List Event → HostSerialCommand → Result (HostSerialCommand × List Bytes × List Event)
forward_lines events o = do
  (l, events) ← list_forward events o serial []
  ok (l.object, get_lines_from_buf [] l.out, events)

unfoldable pub serial_commands : List Event → HostSerialCommand → Result (SerialReport × List Event)
serial_commands events o = do
  (a, events) ← forward events o serial (codes "tcp:1346") (codes "tcp:1346") false
  (b, events) ← forward events a.object serial (codes "tcp:1345") (codes "tcp:1345") false
  (o₁, lines₁, events) ← forward_lines events b.object
  (c, events) ← kill_forward events o₁ serial (codes "tcp:1345")
  (o₂, lines₂, events) ← forward_lines events c.object
  (d, events) ← kill_forward_all events o₂ serial
  (o₃, lines₃, events) ← forward_lines events d.object
  (p, events) ← get_device_path events o₃ serial []
  (n, events) ← get_serial_no events p.object serial []
  (t, events) ← get_state events n.object serial []
  ok (
    record {
      object = record { adb = closed t.object.adb };
      forwards = lines₁ ∷ lines₂ ∷ lines₃ ∷ [];
      device_path = p.out;
      serial_no = n.out;
      state = t.out;
    },
    events,
  )

unfoldable pub execute_serial_command :
    ℤ → List Event → Result (ℤ × Option (SerialReport × List Event))
execute_serial_command connfd events =
    let o : HostSerialCommand = record { adb = opened } in
    if is_negative connfd
    then ok (negsuc 19, none)
    else do r ← serial_commands events o; ok (pos 0, some r)

-- What `execute_local_command` prints, and the bytes that it writes to a file.
pub record LocalReport : Type 0 where
  pub object : LocalCommand
  pub shell_lines : List Bytes
  pub packages : List Bytes
  pub properties : List Bytes
  pub screencap : Bytes
  pub reverses : List (List Bytes)

-- `list_reverse` into a string that has just been cleared, and its lines.
unfoldable pub reverse_lines :
    List Event → LocalCommand → Result (LocalCommand × List Bytes × List Event)
reverse_lines events o = do
  (l, events) ← list_reverse events o serial []
  ok (l.object, get_lines_from_buf [] l.out, events)

unfoldable pub local_commands : List Event → LocalCommand → Result (LocalReport × List Event)
local_commands events o = do
  (a, events) ← shell events o serial (codes "getprop ro.build.version.release")
  (b, events) ← list_packages events a.object serial
  (c, events) ← get_properties events b.object serial
  (d, events) ← screencap events c.object serial []
  (e, events) ← root events d.object serial
  (f, events) ← sync events e.object serial
  (g, events) ← reverse events f.object serial (codes "tcp:1247") (codes "tcp:1247") false
  (h, events) ← reverse events g.object serial (codes "tcp:1248") (codes "tcp:1248") false
  (i, events) ← reverse events h.object serial (codes "tcp:1249") (codes "tcp:1249") true
  (o₁, lines₁, events) ← reverse_lines events i.object
  (j, events) ← kill_reverse events o₁ serial (codes "tcp:1248")
  (o₂, lines₂, events) ← reverse_lines events j.object
  (k, events) ← kill_reverse_all events o₂ serial
  (o₃, lines₃, events) ← reverse_lines events k.object
  ok (
    record {
      object = record o₃ { adb = closed o₃.adb };
      shell_lines = get_lines_from_buf [] (get_shell_data a.object);
      packages = get_lines_from_buf [] b.out;
      properties = get_lines_from_buf [] c.out;
      screencap = d.out;
      reverses = lines₁ ∷ lines₂ ∷ lines₃ ∷ [];
    },
    events,
  )

unfoldable pub execute_local_command :
    ℤ → List Event → Result (ℤ × Option (LocalReport × List Event))
execute_local_command connfd events =
    let o : LocalCommand = record { adb = opened; serial = []; shell_data = [] } in
    if is_negative connfd
    then ok (negsuc 19, none)
    else do r ← local_commands events o; ok (pos 0, some r)

-- `main` runs one of the three, and ignores what it returns.
unfoldable pub main : ℤ → List Event → Result ℤ
main connfd events = do r ← execute_serial_command connfd events; ok (pos 0)
