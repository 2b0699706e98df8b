-- ===== src/LocalCommand/Handlers.antt =====
-- src/local_command.cpp: the class and its message callbacks.
use adb_client.Base.{
  ◌≡◌, refl, Bool, not, List, [], ◌∷◌, ◌++◌, Bytes, codes, ℤ, pos, negsuc, is_minus_one, ◌==◌,
  if◌then◌else◌,
}
use adb_client.CString.{bytes_at, c_string, c_string_from, strcmp_eq, strncmp_eq, strstr_found}
use adb_client.Client.{Call, write, set_on_connection, set_on_message, set_on_write_complete}
use adb_client.Command.{AdbCommand, Derived, Frame, Handler, call, on_connection, clear}
use adb_client.Fault.{Result, ok, ◌>>=◌}
use adb_client.Protocol.{frame, respond_transport_command}

-- Nothing reads or writes `serial`.
pub record LocalCommand : Type 0 where
  pub adb : AdbCommand
  pub serial : Bytes
  pub shell_data : Bytes

unfoldable pub defualt_on_connection_callback : Bool → LocalCommand → Result LocalCommand
defualt_on_connection_callback up o = do b ← on_connection up o.adb; ok (record o { adb = b })

unfoldable pub set_client_on_connection_callback : LocalCommand → LocalCommand
set_client_on_connection_callback o = record o { adb = call set_on_connection o.adb }

unfoldable pub set_client_on_message_callback : LocalCommand → LocalCommand
set_client_on_message_callback o = record o { adb = call set_on_message o.adb }

unfoldable pub set_client_on_write_complete_callback : LocalCommand → LocalCommand
set_client_on_write_complete_callback o = record o { adb = call set_on_write_complete o.adb }

pub connection_lem :
    (up : Bool) (o : LocalCommand)
    → defualt_on_connection_callback up o
      ≡ (do b ← on_connection up o.adb; ok (record o { adb = b }))
unfolding defualt_on_connection_callback
connection_lem up o = refl

pub set_connection_lem :
    (o : LocalCommand)
    → set_client_on_connection_callback o ≡ record o { adb = call set_on_connection o.adb }
unfolding set_client_on_connection_callback
set_connection_lem o = refl

pub set_message_lem :
    (o : LocalCommand)
    → set_client_on_message_callback o ≡ record o { adb = call set_on_message o.adb }
unfolding set_client_on_message_callback
set_message_lem o = refl

abbrev pub local_class : Derived LocalCommand
local_class = record {
  base = λ o. o.adb;
  set_base = λ o b. record o { adb = b };
  defualt_on_connection_callback = defualt_on_connection_callback;
  set_client_on_connection_callback = set_client_on_connection_callback;
  set_client_on_message_callback = set_client_on_message_callback;
  base-set_base = λ o b. refl;
  set_base-set_base = λ o b c. refl;
  set_base_self = λ o. refl;
  connection_lem = connection_lem;
  set_connection_lem = set_connection_lem;
  set_message_lem = set_message_lem;
}

abbrev pub with_calls : LocalCommand → List Call → LocalCommand
with_calls o calls = record o { adb = record (o.adb) { calls = calls } }

-- The message callback of the commands that look at the status only: `sync`, `tcpip`, `usb`,
-- `root`, `reverse`, `kill_reverse` and `kill_reverse_all`.
unfoldable pub respond_message : Bytes → Handler LocalCommand (Unit {0})
respond_message cmd buf f = do
  r ← respond_transport_command buf cmd f.object.adb.calls
  cleared ← clear buf
  ok (record f { object = with_calls f.object r.1; status = r.0 }, cleared)

-- What `shell` stores of a message, given the status of the message.
unfoldable pub shell_data_of : ℤ → Bytes → Bytes → Result Bytes
shell_data_of status memory old =
    if not (is_minus_one status)
    then (do okay ← strncmp_eq memory (codes "OKAY"); if not okay then c_string memory else ok old)
    else ok old

-- The message callback of `shell`.
unfoldable pub shell_message : Bytes → Handler LocalCommand (Unit {0})
shell_message cmd buf f = do
  r ← respond_transport_command buf cmd f.object.adb.calls
  shell_data ← shell_data_of r.0 buf.memory f.object.shell_data
  cleared ← clear buf
  ok (
    record f {
      object = record (with_calls f.object r.1) { shell_data = shell_data };
      status = r.0;
    },
    cleared,
  )

-- The branch of `screencap` for four bytes. The test for FAIL lacks `== 0`: it holds for every
-- four bytes but FAIL.
unfoldable pub screencap_tag :
    Bytes → Bytes → Frame LocalCommand Bytes → Result (Frame LocalCommand Bytes)
screencap_tag cmd memory f = do
  okay ← strcmp_eq memory (codes "OKAY")
  if okay
      then (do
        str ← frame cmd
        ok (record f {
          object = with_calls f.object (f.object.adb.calls ++ (write str ∷ []));
          status = pos 0;
        }))
      else do
        fail ← strcmp_eq memory (codes "FAIL")
        ok (if not fail then record f { status = negsuc 0 } else f)

-- The message callback of `screencap`.
unfoldable pub screencap_message : Bytes → Handler LocalCommand Bytes
screencap_message cmd buf f = do
  g ←
      (if buf.size == 4
        then screencap_tag cmd buf.memory f
        else do payload ← bytes_at buf.size buf.memory; ok (record f { out = f.out ++ payload }))
  cleared ← clear buf
  ok (g, cleared)

-- What `list_reverse` appends for a message, given the status of the message.
unfoldable pub reverse_list_of : ℤ → Bytes → Bytes → Result Bytes
reverse_list_of status memory old =
    if not (is_minus_one status)
    then (do
      found ← strstr_found memory (codes "OKAY")
      s ← (if found then c_string_from 8 memory else c_string_from 4 memory)
      ok (old ++ s))
    else ok old

-- The message callback of `list_reverse`.
unfoldable pub list_reverse_message : Bytes → Handler LocalCommand Bytes
list_reverse_message cmd buf f = do
  r ← respond_transport_command buf cmd f.object.adb.calls
  forward_list ← reverse_list_of r.0 buf.memory f.out
  cleared ← clear buf
  ok (record { object = with_calls f.object r.1; status = r.0; out = forward_list }, cleared)
