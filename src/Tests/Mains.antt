-- ===== src/Tests/Mains.antt =====
-- One run of each example program.
use adb_client.Base.{
  false, ◌≡◌, refl, true, List, [], ◌∷◌, ◌++◌, map, arith, Bytes, codes, pos, some,
}
use adb_client.CString.{contains, starts_with}
use adb_client.Command.Splits.{fail}
use adb_client.Printf.Hex.{format_04x, hex_digits, hex_digit}
use adb_client.Client.{Event, connection, message}
use adb_client.Fault.{ok, err, dangling}
use adb_client.HostCommand.{HostCommand}
use adb_client.LocalCommand.Outputs.{IsOutput}
use adb_client.Main.Absent
use adb_client.Main.Absent.{absent_report, nothing, execute_local_command-refused}
use adb_client.Main.Denied.{denials, denied_report, execute_serial_command-denied}
use adb_client.Main.Host
use adb_client.Main.Host.{
  HostAnswers, host_session, host_report, told, tracked, execute_host_command-session,
}
use adb_client.Main.Local
use adb_client.Main.Local.{
  LocalAnswers, local_session, local_report, local_visits, execute_local_command-session,
}
use adb_client.Main.Refusals.{
  Refusals, AreReplies, refusal_session, refusal_report, refused_all, execute_host_command-refused,
}
use adb_client.Main.Serial
use adb_client.Main.Serial.{
  SerialAnswers, serial_session, serial_report, serial_requests, execute_serial_command-session,
}
use adb_client.Main.Session.{IsReply, writes, framed}
use adb_client.Main.Visits.{local_writes}
use adb_client.Main.{opened, execute_host_command, execute_serial_command, execute_local_command}
use adb_client.Protocol.Read.{received, interpret}
use adb_client.Tests.Devices.{short_entries, short_words, long_entry, long_entry-IsEntry}
use adb_client.Tests.{has_no_nul-HasNoNul}
use adb_client.Utils.Devices.Long.{long_line}
use adb_client.Utils.Split.{terminate, AllFree}
use adb_client.Utils.{unique_spaces, unique_from}

abbrev forwards : List Bytes
forwards = codes "d17cdac6 tcp:1345 tcp:1345" ∷ codes "d17cdac6 tcp:1346 tcp:1346" ∷ []

abbrev one : List Bytes
one = codes "d17cdac6 tcp:1346 tcp:1346" ∷ []

forwards-IsReply : IsReply 256 (terminate b'\n' forwards) × AllFree b'\n' forwards
forwards-IsReply = (
  (omega arith, has_no_nul-HasNoNul (terminate b'\n' forwards) refl, omega arith),
  (refl, (refl, tt)),
)

one-IsReply : IsReply 256 (terminate b'\n' one) × AllFree b'\n' one
one-IsReply =
    ((omega arith, has_no_nul-HasNoNul (terminate b'\n' one) refl, omega arith), (refl, tt))

none-IsReply : IsReply 256 (terminate b'\n' []) × AllFree b'\n' []
none-IsReply = ((omega arith, tt, omega arith), tt)

abbrev serial_answers : SerialAnswers
serial_answers = record {
  first = forwards;
  second = one;
  third = [];
  device_path = codes "usb:1-1";
  serial_no = codes "d17cdac6";
  state = codes "device";
}

serial_answers-IsServed : Serial.IsServed 256 serial_answers
serial_answers-IsServed = record {
  first = forwards-IsReply;
  second = one-IsReply;
  third = none-IsReply;
  device_path = (omega arith, has_no_nul-HasNoNul (codes "usb:1-1") refl, omega arith);
  serial_no = (omega arith, has_no_nul-HasNoNul (codes "d17cdac6") refl, omega arith);
  state = (omega arith, has_no_nul-HasNoNul (codes "device") refl, omega arith);
}

execute_serial_command-session_example :
    (execute_serial_command (pos 3) (serial_session 256 serial_answers [])
      ≡ ok (pos 0, some (serial_report serial_answers (record { adb = opened }), [])))
    × (writes (serial_report serial_answers (record { adb = opened })).object.adb.calls
        ≡ map framed serial_requests)
execute_serial_command-session_example =
    execute_serial_command-session 256 3 serial_answers [] serial_answers-IsServed

abbrev host_answers : HostAnswers
host_answers = record {
  version = 41;
  devices = short_entries;
  paths = terminate b'\n' (map long_line (long_entry ∷ []));
  devices_with_path = long_entry ∷ [];
}

host_answers-IsServed : Host.IsServed 256 host_answers
unfolding unique_spaces unique_from
host_answers-IsServed = record {
  version = omega arith;
  words = short_words;
  devices = (omega arith, has_no_nul-HasNoNul (codes "abc\tdevice\n") refl, omega arith);
  paths = (
    omega arith,
    has_no_nul-HasNoNul (terminate b'\n' (map long_line (long_entry ∷ []))) refl,
    omega arith,
  );
  lines = refl;
  entries = (long_entry-IsEntry, tt);
}

abbrev fresh : HostCommand
fresh = record { adb = opened; tracked_device = [] }

abbrev first : List Event
first = connection true ∷ message (received 8 (codes "OKAY")) ∷ []

execute_host_command-session_example :
    (execute_host_command (pos 3) (pos 0) (host_session 256 host_answers []) first
      ≡ ok (
        pos 0,
        some (host_report host_answers (tracked (codes "OKAY") (told fresh)) (pos 0), []),
      ))
    × (execute_host_command (pos 3) (pos 0) (host_session 256 host_answers (first ++ [])) []
        ≡ err dangling)
unfolding interpret starts_with
execute_host_command-session_example =
    execute_host_command-session 256 3 (pos 0) host_answers 8 (codes "OKAY") []
      host_answers-IsServed (omega arith) (omega arith) (has_no_nul-HasNoNul (codes "OKAY") refl)

abbrev local_answers : LocalAnswers
local_answers = record {
  shell = codes "version 12\n" ∷ [];
  packages = codes "package:a\n" ∷ codes "package:b\n" ∷ [];
  properties = [];
  image = codes "PNG" ∷ codes "bytes" ∷ [];
  first = forwards;
  second = one;
  third = [];
}

text-IsOutput : IsOutput 256 (codes "version 12\n")
unfolding starts_with
text-IsOutput = (has_no_nul-HasNoNul (codes "version 12\n") refl, omega arith, omega arith, refl)

a-IsOutput : IsOutput 256 (codes "package:a\n")
unfolding starts_with
a-IsOutput = (has_no_nul-HasNoNul (codes "package:a\n") refl, omega arith, omega arith, refl)

b-IsOutput : IsOutput 256 (codes "package:b\n")
unfolding starts_with
b-IsOutput = (has_no_nul-HasNoNul (codes "package:b\n") refl, omega arith, omega arith, refl)

local_answers-IsServed : Local.IsServed 256 local_answers
local_answers-IsServed = record {
  shell = (text-IsOutput, tt);
  packages = (a-IsOutput, (b-IsOutput, tt));
  properties = tt;
  image = (refl, (refl, tt));
  first = forwards-IsReply;
  second = one-IsReply;
  third = none-IsReply;
}

execute_local_command-session_example :
    (execute_local_command (pos 3) (local_session 256 local_answers [])
      ≡ ok (pos 0, some (local_report local_answers opened, [])))
    × (writes (local_report local_answers opened).object.adb.calls ≡ local_writes local_visits)
execute_local_command-session_example =
    execute_local_command-session 256 3 local_answers [] local_answers-IsServed

abbrev refusals : Refusals
refusals = record { version = codes "no"; devices = codes "none"; paths = codes "never" }

refusals-AreReplies : AreReplies 256 refusals
refusals-AreReplies = record {
  version = (omega arith, has_no_nul-HasNoNul (codes "no") refl, omega arith);
  devices = (omega arith, has_no_nul-HasNoNul (codes "none") refl, omega arith);
  paths = (omega arith, has_no_nul-HasNoNul (codes "never") refl, omega arith);
}

execute_host_command-refused_example :
    execute_host_command (pos 3) (pos 77) (refusal_session 256 refusals []) first
    ≡ ok (
      pos 0,
      some (
        refusal_report (pos 77) (tracked (codes "OKAY") (refused_all refusals fresh)) (pos 0),
        [],
      ),
    )
unfolding interpret starts_with
execute_host_command-refused_example =
    execute_host_command-refused 256 3 (pos 77) refusals 8 (codes "OKAY") [] refusals-AreReplies
      (omega arith) (has_no_nul-HasNoNul (codes "OKAY") refl)

abbrev not_found : Bytes
not_found = codes "device 'd17cdac6' not found"

not_found-IsReply : IsReply 256 not_found
not_found-IsReply = (omega arith, has_no_nul-HasNoNul not_found refl, omega arith)

no_okay : contains (fail not_found) (codes "OKAY") ≡ false
unfolding contains starts_with format_04x hex_digits hex_digit
no_okay = refl

execute_local_command-refused_example :
    (execute_local_command (pos 3) (Absent.refusals 256 not_found 14 [])
      ≡ ok (pos 0, some (absent_report not_found opened, [])))
    × (writes (absent_report not_found opened).object.adb.calls ≡ local_writes nothing)
execute_local_command-refused_example =
    execute_local_command-refused 256 3 not_found [] not_found-IsReply no_okay

execute_serial_command-denied_example :
    (execute_serial_command (pos 3) (denials 256 not_found 10 [])
      ≡ ok (pos 0, some (denied_report not_found (record { adb = opened }), [])))
    × (writes (denied_report not_found (record { adb = opened })).object.adb.calls
        ≡ map framed serial_requests)
execute_serial_command-denied_example =
    execute_serial_command-denied 256 3 not_found [] not_found-IsReply
