-- ===== src/Talk.antt =====
-- What all the commands of the three classes write to the adb server, whatever it answers.
use adb_client.Base.{ℕ, ℤ, Bool, List, Bytes}
use adb_client.Client.{Event}
use adb_client.HostCommand.Talk.{AllTalk as HostTalk, commands-AllTalk as host_commands}
use adb_client.HostCommand.{HostCommand}
use adb_client.HostSerialCommand.Talk.{AllTalk as SerialTalk, commands-AllTalk as serial_commands}
use adb_client.HostSerialCommand.{HostSerialCommand}
use adb_client.LocalCommand.Handlers.{LocalCommand}
use adb_client.LocalCommand.Talk.{AllTalk as LocalTalk, commands-AllTalk as local_commands}

-- Whatever the events, connections, ends and reads of any bytes in any order: each command of the
-- three classes that returns has made the calls that start it, and behind them has written nothing
-- but its request, and a command of `LocalCommand` its request for the transport and its service,
-- each behind its length. The text of the request is still that of the command. For `track_devices`
-- the events are those before it returns.
pub commands-Talk :
    (events : List Event) (h : HostCommand) (s : HostSerialCommand) (l : LocalCommand) (version : ℤ)
    (serial command out host local remote tcp_port : Bytes) (port : ℕ) (norebind : Bool)
    → HostTalk events h version out host tcp_port
      × SerialTalk events s serial out local remote norebind
      × LocalTalk events l serial command out local remote port norebind
commands-Talk events h s l version serial command out host local remote tcp_port port norebind = (
  host_commands events h version out host tcp_port,
  serial_commands events s serial out local remote norebind,
  local_commands events l serial command out local remote port norebind,
)
