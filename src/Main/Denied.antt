-- ===== src/Main/Denied.antt =====
-- A run of `execute_serial_command` where the server answers every request with a FAIL.
use adb_client.Base.{
  ℕ, zero, suc, ◌≡◌, refl, ◌∙◌, Bool, false, List, [], ◌∷◌, ◌++◌, map, append-nil, append_assoc,
  Bytes, codes, pos, negsuc, some,
}
use adb_client.Client.{Event}
use adb_client.Command.Replies.{finished}
use adb_client.Command.Splits.{fail, interpret_all-fail, whole-AllText}
use adb_client.Command.{Frame}
use adb_client.Fault.{Result, ok}
use adb_client.HostSerialCommand.Outcomes.{forward-Outcomes}
use adb_client.HostSerialCommand.Replies.{queries-interpret_all}
use adb_client.HostSerialCommand.{
  HostSerialCommand, serial_class, host_serial, forward_request, forward, list_forward,
  kill_forward, kill_forward_all, get_device_path, get_serial_no, get_state,
}
use adb_client.Main.Serial.{serial_requests}
use adb_client.Main.Session.{served, IsReply, writes, framed, writes-append, writes-closed}
use adb_client.Main.{
  serial, opened, closed, SerialReport, forward_lines, serial_commands, execute_serial_command,
}
use adb_client.Protocol.{Reading}
use adb_client.Utils.{get_lines_from_buf, string_split, split_from, pop_back}

-- The object after a command with a given request that has been answered by FAIL and a text.
unfoldable pub denied : Bytes → Bytes → HostSerialCommand → HostSerialCommand
denied text request o = finished serial_class o request (o.adb.error ++ text)

abbrev pub denied_all : Bytes → List Bytes → HostSerialCommand → HostSerialCommand
denied_all text [] o = o
denied_all text (request ∷ requests) o = denied_all text requests (denied text request o)

-- Exchanges whose only read is a FAIL with its text.
abbrev pub denials : ℕ → Bytes → ℕ → List Event → List Event
denials size text zero rest = rest
denials size text (suc n) rest = served size (fail text ∷ []) (denials size text n rest)

abbrev pub denied_report : Bytes → HostSerialCommand → SerialReport
denied_report text o = record {
  object = record { adb = closed (denied_all text serial_requests o).adb };
  forwards = [] ∷ [] ∷ [] ∷ [];
  device_path = [];
  serial_no = [];
  state = [];
}

no_lines : get_lines_from_buf [] [] ≡ []
unfolding get_lines_from_buf string_split split_from pop_back
no_lines = refl

module _ (size : ℕ) (text : Bytes) (h : IsReply size text) where
  module _ (rest : List Event) (o : HostSerialCommand) where
    abbrev events : List Event
    events = served size (fail text ∷ []) rest

    abbrev answer : {V : Type 0} → Bytes → V → Result (Frame HostSerialCommand V × List Event)
    answer request out =
        ok (record { object = denied text request o; status = negsuc 0; out = out }, rest)

    fails :
        (local remote : Bytes) (norebind : Bool)
        → (forward events o serial local remote norebind
            ≡ answer (forward_request serial local remote norebind) tt)
          × (kill_forward events o serial local
              ≡ answer (host_serial serial (codes "killforward:" ++ local)) tt)
          × (kill_forward_all events o serial
              ≡ answer (host_serial serial (codes "killforward-all")) tt)
    unfolding denied
    fails local remote norebind =
        let (f, k, a) =
          forward-Outcomes size rest o serial local remote text norebind h.0 h.1 h.2 in
        (f.1, k.1, a.1)

    texts :
        (list_forward events o serial [] ≡ answer (host_serial serial (codes "list-forward")) [])
        × (get_device_path events o serial []
            ≡ answer (host_serial serial (codes "get-devpath")) [])
        × (get_serial_no events o serial [] ≡ answer (host_serial serial (codes "get-serialno")) [])
        × (get_state events o serial [] ≡ answer (host_serial serial (codes "get-state")) [])
    unfolding denied
    texts =
        let r : Reading = record { status = negsuc 0; result = []; error = o.adb.error } in
        let fit =
          whole-AllText size text h.0 h.1 h.2 (codes "FAIL") refl
            (refl, (refl, (refl, (refl, tt)))) in
        let (l, p, n, s) = queries-interpret_all size rest o [] (fail text ∷ []) serial fit in
        let whole = (interpret_all-fail text h.0 r).0 in
        (rw whole at l, rw whole at p, rw whole at n, rw whole at s)

    lines :
        forward_lines events o
        ≡ ok (denied text (host_serial serial (codes "list-forward")) o, [], rest)
    unfolding forward_lines
    lines = rw (texts.0, forward_lines) (rw no_lines)

  serial_commands-denied :
      (rest : List Event) (o : HostSerialCommand)
      → serial_commands (denials size text 10 rest) o ≡ ok (denied_report text o, rest)
  unfolding serial_commands
  serial_commands-denied rest o =
      rw ((fails _ o (codes "tcp:1346") (codes "tcp:1346") false).0, serial_commands)
        (rw (fails _ _ (codes "tcp:1345") (codes "tcp:1345") false).0 (
          rw (lines _ _) (
            rw (fails _ _ (codes "tcp:1345") [] false).1 (
              rw (lines _ _) (
                rw (fails _ _ [] [] false).2
                  (rw (lines _ _) (rw (texts _ _).1 (rw (texts _ _).2 (rw (texts rest _).3)))))))))

writes-denied :
    (text request : Bytes) (o : HostSerialCommand)
    → writes (denied text request o).adb.calls ≡ writes o.adb.calls ++ (framed request ∷ [])
unfolding denied
writes-denied text request o = simp (writes-append, append-nil)

writes-denied_all :
    (text : Bytes) (requests : List Bytes) (o : HostSerialCommand)
    → writes (denied_all text requests o).adb.calls ≡ writes o.adb.calls ++ map framed requests
writes-denied_all text [] o = rw append-nil
writes-denied_all text (request ∷ requests) o =
    writes-denied_all text requests (denied text request o)
    ∙ rw (writes-denied text request o)
        (append_assoc (writes o.adb.calls) (framed request ∷ []) (map framed requests))

-- Where the server answers each of the ten requests with a FAIL and its text in one read, the
-- program returns 0 all the same: it has written the ten requests, each behind its length, in
-- order, and has printed no forward and an empty path, serial number and state. The socket has been
-- made, the text has fewer than 65536 bytes, none of them NUL, and the buffer has room for the
-- reply.
pub execute_serial_command-denied :
    (size connfd : ℕ) (text : Bytes) (rest : List Event)
    → IsReply size text
    → let report = denied_report text (record { adb = opened }) in
      (execute_serial_command (pos connfd) (denials size text 10 rest)
        ≡ ok (pos 0, some (report, rest)))
      × (writes report.object.adb.calls ≡ map framed serial_requests)
unfolding execute_serial_command
execute_serial_command-denied size connfd text rest h = (
  rw (serial_commands-denied size text h rest (record { adb = opened })),
  writes-closed (denied_all text serial_requests (record { adb = opened })).adb
      ∙ writes-denied_all text serial_requests (record { adb = opened }),
)
