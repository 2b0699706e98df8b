-- ===== src/HostSerialCommand.antt =====
-- src/host_serial_command.cpp: the commands to the adb server about one device.
pub mod Outcomes
pub mod Replies
pub mod Talk
use adb_client.Base.{
  ℕ, ◌≡◌, refl, Bool, List, [], ◌∷◌, ◌++◌, Bytes, codes, ℤ, pos, negsuc, if◌then◌else◌,
}
use adb_client.Client.{Event, set_on_connection, set_on_message, set_on_write_complete}
use adb_client.Command.Handlers.{read_into, read_status}
use adb_client.Command.{AdbCommand, Derived, Frame, call, on_connection, execute}
use adb_client.Fault.{Result, ok, ◌>>=◌}

pub record HostSerialCommand : Type 0 where
  pub adb : AdbCommand

unfoldable pub defualt_on_connection_callback : Bool → HostSerialCommand → Result HostSerialCommand
defualt_on_connection_callback up o = do b ← on_connection up o.adb; ok (record o { adb = b })

unfoldable pub set_client_on_connection_callback : HostSerialCommand → HostSerialCommand
set_client_on_connection_callback o = record o { adb = call set_on_connection o.adb }

unfoldable pub set_client_on_message_callback : HostSerialCommand → HostSerialCommand
set_client_on_message_callback o = record o { adb = call set_on_message o.adb }

unfoldable pub set_client_on_write_complete_callback : HostSerialCommand → HostSerialCommand
set_client_on_write_complete_callback o = record o { adb = call set_on_write_complete o.adb }

-- The body is empty. No command installs it.
unfoldable pub defualt_on_message_callback : HostSerialCommand → HostSerialCommand
defualt_on_message_callback o = o

unfoldable pub error_message : HostSerialCommand → Bytes
error_message o = o.adb.error

unfoldable pub execute_cmd : HostSerialCommand → Bytes → ℤ
execute_cmd o cmd = pos 0

pub connection_lem :
    (up : Bool) (o : HostSerialCommand)
    → defualt_on_connection_callback up o
      ≡ (do b ← on_connection up o.adb; ok (record o { adb = b }))
unfolding defualt_on_connection_callback
connection_lem up o = refl

pub set_connection_lem :
    (o : HostSerialCommand)
    → set_client_on_connection_callback o ≡ record o { adb = call set_on_connection o.adb }
unfolding set_client_on_connection_callback
set_connection_lem o = refl

pub set_message_lem :
    (o : HostSerialCommand)
    → set_client_on_message_callback o ≡ record o { adb = call set_on_message o.adb }
unfolding set_client_on_message_callback
set_message_lem o = refl

abbrev pub serial_class : Derived HostSerialCommand
serial_class = record {
  base = λ o. o.adb;
  set_base = λ o b. record o { adb = b };
  defualt_on_connection_callback = defualt_on_connection_callback;
  set_client_on_connection_callback = set_client_on_connection_callback;
  set_client_on_message_callback = set_client_on_message_callback;
  base-set_base = λ o b. refl;
  set_base-set_base = λ o b c. refl;
  set_base_self = λ o. refl;
  connection_lem = connection_lem;
  set_connection_lem = set_connection_lem;
  set_message_lem = set_message_lem;
}

-- `std::format("host-serial:{0}:", serial)`, with which every request begins.
abbrev pub host_serial : Bytes → Bytes → Bytes
host_serial serial service = codes "host-serial:" ++ (serial ++ (b':' ∷ service))

-- The request of `forward`.
unfoldable pub forward_request : Bytes → Bytes → Bytes → Bool → Bytes
forward_request serial local remote norebind =
    if norebind
    then host_serial serial (codes "forward:norebind:" ++ (local ++ (b';' ∷ remote)))
    else host_serial serial (codes "forward:" ++ (local ++ (b';' ∷ remote)))

module _ (events : List Event) (o : HostSerialCommand) (serial : Bytes) where
  unfoldable pub forward :
      Bytes → Bytes → Bool → Result (Frame HostSerialCommand (Unit {0}) × List Event)
  forward local remote norebind =
      execute serial_class (read_status serial_class) (forward_request serial local remote norebind)
        (negsuc 0) events o tt

  unfoldable pub list_forward : Bytes → Result (Frame HostSerialCommand Bytes × List Event)
  list_forward =
      execute serial_class (read_into serial_class) (host_serial serial (codes "list-forward"))
        (negsuc 0) events o

  unfoldable pub kill_forward : Bytes → Result (Frame HostSerialCommand (Unit {0}) × List Event)
  kill_forward local =
      execute serial_class (read_status serial_class)
        (host_serial serial (codes "killforward:" ++ local)) (negsuc 0) events o tt

  unfoldable pub kill_forward_all : Result (Frame HostSerialCommand (Unit {0}) × List Event)
  kill_forward_all =
      execute serial_class (read_status serial_class) (host_serial serial (codes "killforward-all"))
        (negsuc 0) events o tt

  unfoldable pub get_device_path : Bytes → Result (Frame HostSerialCommand Bytes × List Event)
  get_device_path =
      execute serial_class (read_into serial_class) (host_serial serial (codes "get-devpath"))
        (negsuc 0) events o

  unfoldable pub get_serial_no : Bytes → Result (Frame HostSerialCommand Bytes × List Event)
  get_serial_no =
      execute serial_class (read_into serial_class) (host_serial serial (codes "get-serialno"))
        (negsuc 0) events o

  unfoldable pub get_state : Bytes → Result (Frame HostSerialCommand Bytes × List Event)
  get_state =
      execute serial_class (read_into serial_class) (host_serial serial (codes "get-state"))
        (negsuc 0) events o
