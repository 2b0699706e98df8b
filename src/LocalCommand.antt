-- ===== src/LocalCommand.antt =====
-- src/local_command.cpp: the services of one device, behind a `host:transport` request.
pub mod Handlers
pub mod Decimal
pub mod Services
pub mod Outcomes
pub mod Shell
pub mod Outputs
pub mod Reverses
pub mod Lists
pub mod Refused
pub mod Screencap
pub mod Images
pub mod Talk
use adb_client.Base.{
  ℕ, zero, suc, ◌+◌, ◌/◌, ◌%◌, ◌≡◌, refl, Bool, List, [], ◌∷◌, ◌++◌, Bytes, codes, ℤ, pos, negsuc,
  ltb, if◌then◌else◌,
}
use adb_client.Client.{Event}
use adb_client.Command.{Frame, execute}
use adb_client.Fault.{Result, ok, ◌>>=◌}
use Handlers.{
  LocalCommand, local_class, shell_message, respond_message, screencap_message,
  list_reverse_message,
}

-- `std::format("host:transport:{0}", serial)`, the text of every request.
abbrev pub transport_request : Bytes → Bytes
transport_request serial = codes "host:transport:" ++ serial

-- `std::format("{0}", n)` of a `uint32_t`: ten digits hold it.
unfoldable pub decimal : ℕ → ℕ → Bytes → Bytes
decimal zero n acc = acc
decimal (suc fuel) n acc =
    let more = decimal fuel (n / 10) ((b'0' + n % 10) ∷ acc) in
    if ltb n 10 then (b'0' + n) ∷ acc else more

-- The body is empty. No command installs it.
unfoldable pub defualt_on_message_callback : LocalCommand → LocalCommand
defualt_on_message_callback o = o

unfoldable pub error_message : LocalCommand → Bytes
error_message o = o.adb.error

unfoldable pub execute_cmd : LocalCommand → Bytes → ℤ
execute_cmd o cmd = pos 0

unfoldable pub transport : LocalCommand → Bytes → ℤ
transport o serial = negsuc 0

unfoldable pub get_shell_data : LocalCommand → Bytes
get_shell_data o = o.shell_data

-- The service of `reverse`.
unfoldable pub reverse_service : Bytes → Bytes → Bool → Bytes
reverse_service local remote norebind =
    if norebind
    then codes "reverse:forward:norebind:" ++ (local ++ (b';' ∷ remote))
    else codes "reverse:forward:" ++ (local ++ (b';' ∷ remote))

module _ (events : List Event) (o : LocalCommand) (serial : Bytes) where
  unfoldable pub shell : Bytes → Result (Frame LocalCommand (Unit {0}) × List Event)
  shell command =
      execute local_class (shell_message (codes "shell:" ++ command)) (transport_request serial)
        (pos 0) events o tt

  -- A command that sends one service and looks at the status only.
  unfoldable pub request : Bytes → Result (Frame LocalCommand (Unit {0}) × List Event)
  request service =
      execute local_class (respond_message service) (transport_request serial) (negsuc 0) events o
        tt

  unfoldable pub sync : Result (Frame LocalCommand (Unit {0}) × List Event)
  unfolding request
  sync = request (codes "sync:")

  unfoldable pub screencap : Bytes → Result (Frame LocalCommand Bytes × List Event)
  screencap =
      execute local_class (screencap_message (codes "shell:/system/bin/screencap -p"))
        (transport_request serial) (negsuc 0) events o

  -- The shell data of the object goes to the caller's variable.
  shell_output : Bytes → Result (Frame LocalCommand Bytes × List Event)
  unfolding shell
  shell_output command = do
    r ← shell command
    ok (record { object = r.0.object; status = r.0.status; out = r.0.object.shell_data }, r.1)

  unfoldable pub list_packages : Result (Frame LocalCommand Bytes × List Event)
  unfolding shell_output
  list_packages = shell_output (codes "pm list packages")

  unfoldable pub tcpip : ℕ → Result (Frame LocalCommand (Unit {0}) × List Event)
  unfolding request
  tcpip port = request (codes "tcpip:" ++ decimal 10 port [])

  unfoldable pub usb : Result (Frame LocalCommand (Unit {0}) × List Event)
  unfolding request
  usb = request (codes "usb:")

  unfoldable pub logcat : Result (Frame LocalCommand (Unit {0}) × List Event)
  logcat = shell (codes "logcat")

  unfoldable pub get_properties : Result (Frame LocalCommand Bytes × List Event)
  unfolding shell_output
  get_properties = shell_output (codes "getprop")

  unfoldable pub root : Result (Frame LocalCommand (Unit {0}) × List Event)
  unfolding request
  root = request (codes "root:")

  unfoldable pub reverse :
      Bytes → Bytes → Bool → Result (Frame LocalCommand (Unit {0}) × List Event)
  unfolding request
  reverse local remote norebind = request (reverse_service local remote norebind)

  unfoldable pub list_reverse : Bytes → Result (Frame LocalCommand Bytes × List Event)
  list_reverse =
      execute local_class (list_reverse_message (codes "reverse:list-forward"))
        (transport_request serial) (negsuc 0) events o

  unfoldable pub kill_reverse : Bytes → Result (Frame LocalCommand (Unit {0}) × List Event)
  unfolding request
  kill_reverse local = request (codes "reverse:killforward:" ++ local)

  unfoldable pub kill_reverse_all : Result (Frame LocalCommand (Unit {0}) × List Event)
  unfolding request
  kill_reverse_all = request (codes "reverse:killforward-all")
