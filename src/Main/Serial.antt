-- ===== src/Main/Serial.antt =====
-- A whole run of `execute_serial_command` against a server that answers every request.
use adb_client.Base.{
  ℕ, ◌≤◌, ◌≡◌, refl, ◌∙◌, false, List, [], ◌∷◌, ◌++◌, map, append-nil, append_assoc, arith, Bytes,
  codes, Bool, pos, negsuc, some,
}
use adb_client.Client.{Event}
use adb_client.Command.Replies.{finished}
use adb_client.Command.Splits.{okay, interpret_all-okay, whole-AllText}
use adb_client.Command.{Frame}
use adb_client.Fault.{Result, ok}
use adb_client.HostSerialCommand.Outcomes.{forward-Outcomes}
use adb_client.HostSerialCommand.Replies.{queries-interpret_all}
use adb_client.HostSerialCommand.{
  HostSerialCommand, serial_class, host_serial, forward_request, forward, list_forward,
  kill_forward, kill_forward_all, get_device_path, get_serial_no, get_state,
}
use adb_client.Main.Session.{served, IsReply, writes, framed, writes-append, writes-closed}
use adb_client.Main.{
  serial, opened, closed, SerialReport, forward_lines, serial_commands, execute_serial_command,
}
use adb_client.Protocol.{Reading}
use adb_client.Utils.Split.{terminate, AllFree, split_terminated}
use adb_client.Utils.{get_lines_from_buf}

-- The object after a command with a given request that has been answered by OKAY.
unfoldable pub asked : Bytes → HostSerialCommand → HostSerialCommand
asked request o = finished serial_class o request o.adb.error

abbrev pub asked_all : List Bytes → HostSerialCommand → HostSerialCommand
asked_all [] o = o
asked_all (request ∷ requests) o = asked_all requests (asked request o)

module _ (size : ℕ) (rest : List Event) (o : HostSerialCommand) where
  abbrev told : Bytes → Result (Frame HostSerialCommand (Unit {0}) × List Event)
  told request = ok (record { object = asked request o; status = pos 0; out = tt }, rest)

  okays :
      (local remote : Bytes) (norebind : Bool)
      → 12 ≤ size
      → (forward (served size (codes "OKAY" ∷ []) rest) o serial local remote norebind
          ≡ told (forward_request serial local remote norebind))
        × (kill_forward (served size (codes "OKAY" ∷ []) rest) o serial local
            ≡ told (host_serial serial (codes "killforward:" ++ local)))
        × (kill_forward_all (served size (codes "OKAY" ∷ []) rest) o serial
            ≡ told (host_serial serial (codes "killforward-all")))
  unfolding asked
  okays local remote norebind h =
      let (f, k, a) =
        forward-Outcomes size rest o serial local remote [] norebind (omega arith) tt
          (omega arith) in
      (f.0, k.0, a.0)

  abbrev read_text : Bytes → Bytes → Result (Frame HostSerialCommand Bytes × List Event)
  read_text request text =
      ok (record { object = asked request o; status = pos 0; out = text }, rest)

  texts :
      (text : Bytes)
      → IsReply size text
      → (list_forward (served size (okay text ∷ []) rest) o serial []
          ≡ read_text (host_serial serial (codes "list-forward")) text)
        × (get_device_path (served size (okay text ∷ []) rest) o serial []
            ≡ read_text (host_serial serial (codes "get-devpath")) text)
        × (get_serial_no (served size (okay text ∷ []) rest) o serial []
            ≡ read_text (host_serial serial (codes "get-serialno")) text)
        × (get_state (served size (okay text ∷ []) rest) o serial []
            ≡ read_text (host_serial serial (codes "get-state")) text)
  unfolding asked
  texts text h =
      let r : Reading = record { status = negsuc 0; result = []; error = o.adb.error } in
      let fit =
        whole-AllText size text h.0 h.1 h.2 (codes "OKAY") refl
          (refl, (refl, (refl, (refl, tt)))) in
      let (l, p, n, s) = queries-interpret_all size rest o [] (okay text ∷ []) serial fit in
      let whole = (interpret_all-okay text h.0 r).0 in
      (rw whole at l, rw whole at p, rw whole at n, rw whole at s)

  lines :
      (ws : List Bytes)
      → IsReply size (terminate b'\n' ws)
      → AllFree b'\n' ws
      → forward_lines (served size (okay (terminate b'\n' ws) ∷ []) rest) o
        ≡ ok (asked (host_serial serial (codes "list-forward")) o, ws, rest)
  unfolding forward_lines get_lines_from_buf
  lines ws h free =
      rw ((texts (terminate b'\n' ws) h).0, forward_lines) (rw (split_terminated ws b'\n' free))

-- What the server answers: the forwards at the three listings, and the three texts.
pub record SerialAnswers : Type 0 where
  pub first : List Bytes
  pub second : List Bytes
  pub third : List Bytes
  pub device_path : Bytes
  pub serial_no : Bytes
  pub state : Bytes

-- The buffer holds every reply in one read, and no forward holds a newline.
pub record IsServed (size : ℕ) (a : SerialAnswers) : Type 0 where
  pub first : IsReply size (terminate b'\n' a.first) × AllFree b'\n' a.first
  pub second : IsReply size (terminate b'\n' a.second) × AllFree b'\n' a.second
  pub third : IsReply size (terminate b'\n' a.third) × AllFree b'\n' a.third
  pub device_path : IsReply size a.device_path
  pub serial_no : IsReply size a.serial_no
  pub state : IsReply size a.state

-- The ten exchanges, one for each request, in order.
abbrev pub serial_session : ℕ → SerialAnswers → List Event → List Event
serial_session size a rest =
    let answer : List Event → List Event = served size (codes "OKAY" ∷ []) in
    let listing = λ (ws : List Bytes). served size (okay (terminate b'\n' ws) ∷ []) in
    let text = λ (s : Bytes). served size (okay s ∷ []) in
    answer (
      answer (
        listing a.first (
          answer (
            listing a.second (
              answer
                (listing a.third (text a.device_path (text a.serial_no (text a.state rest)))))))))

abbrev pub serial_requests : List Bytes
serial_requests =
    forward_request serial (codes "tcp:1346") (codes "tcp:1346") false
    ∷ forward_request serial (codes "tcp:1345") (codes "tcp:1345") false
    ∷ host_serial serial (codes "list-forward")
    ∷ host_serial serial (codes "killforward:tcp:1345")
    ∷ host_serial serial (codes "list-forward")
    ∷ host_serial serial (codes "killforward-all")
    ∷ host_serial serial (codes "list-forward")
    ∷ host_serial serial (codes "get-devpath")
    ∷ host_serial serial (codes "get-serialno")
    ∷ host_serial serial (codes "get-state")
    ∷ []

-- What the program prints of these answers.
abbrev pub serial_report : SerialAnswers → HostSerialCommand → SerialReport
serial_report a o = record {
  object = record { adb = closed (asked_all serial_requests o).adb };
  forwards = a.first ∷ a.second ∷ a.third ∷ [];
  device_path = a.device_path;
  serial_no = a.serial_no;
  state = a.state;
}

module _ (size : ℕ) (a : SerialAnswers) (h : IsServed size a) (rest : List Event) where
  enough : 12 ≤ size
  enough = omega (arith, h.state.2)

  serial_commands-session :
      (o : HostSerialCommand)
      → serial_commands (serial_session size a rest) o ≡ ok (serial_report a o, rest)
  unfolding serial_commands
  serial_commands-session o =
      rw ((okays size _ o (codes "tcp:1346") (codes "tcp:1346") false enough).0, serial_commands)
        (rw (okays size _ (asked _ o) (codes "tcp:1345") (codes "tcp:1345") false enough).0 (
          rw (lines size _ _ a.first h.first.0 h.first.1) (
            rw (okays size _ _ (codes "tcp:1345") [] false enough).1 (
              rw (lines size _ _ a.second h.second.0 h.second.1) (
                rw (okays size _ _ [] [] false enough).2 (
                  rw (lines size _ _ a.third h.third.0 h.third.1) (
                    rw (texts size _ _ a.device_path h.device_path).1 (
                      rw (texts size _ _ a.serial_no h.serial_no).2
                        (rw (texts size rest _ a.state h.state).3)))))))))

-- calls that are appended one at a time, of which the last one alone is a write
writes-asked :
    (request : Bytes) (o : HostSerialCommand)
    → writes (asked request o).adb.calls ≡ writes o.adb.calls ++ (framed request ∷ [])
unfolding asked
writes-asked request o = simp (writes-append, append-nil)

writes-asked_all :
    (requests : List Bytes) (o : HostSerialCommand)
    → writes (asked_all requests o).adb.calls ≡ writes o.adb.calls ++ map framed requests
writes-asked_all [] o = rw append-nil
writes-asked_all (request ∷ requests) o =
    writes-asked_all requests (asked request o)
    ∙ rw (writes-asked request o)
        (append_assoc (writes o.adb.calls) (framed request ∷ []) (map framed requests))

-- Against a server that answers its ten requests, each in one read and the three listings with a
-- line for each forward, the program returns 0, has printed what the server answered, and has
-- written the ten requests, each behind its length, in order. The socket has been made, the buffer
-- holds every reply, the texts have fewer than 65536 bytes, none of them NUL, and no forward holds
-- a newline.
pub execute_serial_command-session :
    (size connfd : ℕ) (a : SerialAnswers) (rest : List Event)
    → IsServed size a
    → let report = serial_report a (record { adb = opened }) in
      (execute_serial_command (pos connfd) (serial_session size a rest)
        ≡ ok (pos 0, some (report, rest)))
      × (writes report.object.adb.calls ≡ map framed serial_requests)
unfolding execute_serial_command
execute_serial_command-session size connfd a rest h = (
  rw (serial_commands-session size a h rest (record { adb = opened })),
  writes-closed (asked_all serial_requests (record { adb = opened })).adb
      ∙ writes-asked_all serial_requests (record { adb = opened }),
)
