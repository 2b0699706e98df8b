-- ===== src/Tests/Exchanges.antt =====
-- Exchanges: one run of the theorems on `waits`, on the read buffer and on the readings.
use adb_client.Base.{
  false, ◌<◌, ◌↔◌, ◌≡◌, refl, ap, List, [], ◌∷◌, ◌++◌, map, drop, arith, Bytes, codes, pos, length,
  true, some, replicate,
}
use adb_client.Client.{Event, connection, message}
use adb_client.Command.Exchange.{
  exchange, update, ended, sent, started, begin_lem, handle_all, execute-exchange,
}
use adb_client.Command.Filled.{execute-filled}
use adb_client.Command.Handlers.{read_into, read_status}
use adb_client.Command.ReadBuffer.{received_in, read_all, read_all-received}
use adb_client.Command.Replies.{
  AllText, finished, interpret_all, execute-read_into, read_into-IsQuiet, read_into-IsClearing,
}
use adb_client.Command.Waits.{Passes, waits_iff}
use adb_client.Command.{Frame, begin, waits, execute}
use adb_client.Fault.{ok, err, out_of_bounds, ◌>>=◌}
use adb_client.HostCommand.{HostCommand, host_class}
use adb_client.Main.{new_command}
use adb_client.Protocol.Full.{filled}
use adb_client.Protocol.Frame.{decode_frame, decode_frame-frame_iff}
use adb_client.Protocol.Read.{received, interpret, read_protocol_string-received}
use adb_client.Protocol.{Reading, frame, read_protocol_string}
use adb_client.HostCommand.Talk.{AllTalk as HostTalk}
use adb_client.HostSerialCommand.Talk.{AllTalk as SerialTalk}
use adb_client.LocalCommand.Talk.{AllTalk as LocalTalk}
use adb_client.Talk.{commands-Talk}
use adb_client.Tests.{new_host, new_serial, new_local, has_no_nul-HasNoNul}

abbrev reply : List Bytes
reply = codes "OKAY0003abc" ∷ []

reply-AllText : AllText 64 reply
reply-AllText = (has_no_nul-HasNoNul (codes "OKAY0003abc") refl, omega arith, tt)

abbrev request : Bytes
request = codes "host:devices"

abbrev events : List Event
events =
    exchange host_class (read_into host_class) (map (received_in 64) reply) (connection true ∷ [])

abbrev start : Frame HostCommand Bytes
start = record {
  object = host_class.set_base new_host (sent (started request new_command));
  status = pos 0;
  out = [];
}

execute-exchange_example :
    execute host_class (read_into host_class) request (pos 0) events new_host [] ≡ (do
      g ← handle_all (read_into host_class) (map (received_in 64) reply) start
      ok (update host_class (read_into host_class) ended g, connection true ∷ []))
execute-exchange_example =
    execute-exchange host_class (read_into host_class) (read_into-IsQuiet host_class) request
      (pos 0) (map (received_in 64) reply) (connection true ∷ []) new_host []

abbrev read : Reading
read = interpret_all reply (record { status = pos 0; result = []; error = [] })

abbrev outcome : Frame HostCommand Bytes
outcome = record {
  object = finished host_class new_host request read.error;
  status = read.status;
  out = read.result;
}

execute-read_into_example :
    execute host_class (read_into host_class) request (pos 0) events new_host []
    ≡ ok (outcome, connection true ∷ [])
execute-read_into_example =
    execute-read_into host_class 64 reply request (pos 0) (connection true ∷ []) new_host []
      reply-AllText

abbrev begun : Frame HostCommand Bytes
begun = record {
  object = begin host_class (read_into host_class) request new_host;
  status = pos 0;
  out = [];
}

begun_flag : (host_class.base begun.object).command_finished ≡ 0
begun_flag =
    ap (λ (o : HostCommand). (host_class.base o).command_finished)
      (begin_lem host_class (read_into host_class) request new_host)

waits_iff_example :
    (waits host_class (read_into host_class) events begun ≡ ok (outcome, connection true ∷ []))
    ↔ Passes host_class (read_into host_class) events (connection true ∷ []) begun outcome
waits_iff_example =
    waits_iff host_class (read_into host_class) (read_into-IsQuiet host_class) events
      (connection true ∷ []) begun outcome begun_flag

-- Both sides hold here.
run : Passes host_class (read_into host_class) events (connection true ∷ []) begun outcome
unfolding execute
run = waits_iff_example.0 execute-read_into_example

read_protocol_string-received_example :
    read_protocol_string (received 8 (codes "OKAY0003abc")) (codes "x") []
    ≡ ok (interpret (codes "OKAY0003abc") (codes "x") [])
read_protocol_string-received_example =
    read_protocol_string-received 8 (codes "OKAY0003abc") (codes "x") [] (omega arith)
      (has_no_nul-HasNoNul (codes "OKAY0003abc") refl)

decode_frame-frame_iff_example :
    (w : Bytes) × (frame request ≡ ok w)
    × ((decode_frame (w ++ codes "xy") ≡ some (request, codes "xy")) ↔ (length request < 65536))
decode_frame-frame_iff_example = decode_frame-frame_iff request (codes "xy")

abbrev strange_events : List Event
strange_events =
    message (received 10 (codes "OKAY"))
    ∷ connection true
    ∷ message (received 10 (codes "noise"))
    ∷ connection true
    ∷ message (received 10 (codes "OKAY"))
    ∷ connection false
    ∷ []

commands-Talk_example :
    HostTalk strange_events new_host (pos 7) [] (codes "h") (codes "1")
    × SerialTalk strange_events new_serial (codes "s") [] (codes "tcp:1") (codes "tcp:2") true
    × LocalTalk strange_events new_local
        (codes "s")
        (codes "ls")
        []
        (codes "tcp:1")
        (codes "tcp:2")
        5555
        true
commands-Talk_example =
    commands-Talk strange_events new_host new_serial new_local (pos 7) (codes "s") (codes "ls") []
      (codes "h") (codes "tcp:1") (codes "tcp:2") (codes "1") 5555 true

-- A read that overwrites the start of the buffer.
abbrev overwrite : Bytes → Bytes → Bytes
overwrite memory chunk = chunk ++ drop (length chunk) memory

read_all-received_example :
    read_all overwrite
      (read_into host_class)
      (codes "OKAY" ∷ codes "0001a" ∷ [])
      (replicate 16 0)
      start
    ≡ (do
      g ←
          handle_all
            (read_into host_class)
            (map (received_in 16) (codes "OKAY" ∷ codes "0001a" ∷ []))
            start
      ok (g, replicate 16 0))
read_all-received_example =
    read_all-received overwrite (read_into host_class)
      (record { receive_lem = λ memory chunk. refl }) (read_into-IsClearing host_class) 16
      (codes "OKAY" ∷ codes "0001a" ∷ []) start (omega arith, (omega arith, tt))

execute-filled_example :
    (execute host_class
        (read_into host_class)
        request
        (pos 0)
        (exchange host_class (read_into host_class) (filled (codes "OKAY0003abc") ∷ []) [])
        new_host
        []
      ≡ err out_of_bounds)
    × (execute host_class
          (read_status host_class)
          request
          (pos 0)
          (exchange host_class
            (read_status host_class {V = Unit {0}})
            (filled (codes "OKAY0003abc") ∷ [])
            [])
          new_host
          tt
        ≡ err out_of_bounds)
execute-filled_example =
    execute-filled host_class (codes "OKAY0003abc") [] request (pos 0) [] new_host []
      (has_no_nul-HasNoNul (codes "OKAY0003abc") refl) refl
