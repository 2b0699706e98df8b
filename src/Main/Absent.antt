-- ===== src/Main/Absent.antt =====
-- A run of `execute_local_command` where the server refuses the transport of every command, as it
-- does where the device is not there.
use adb_client.Base.{
  ℕ, ◌≡◌, ◌∙◌, zero, suc, Bool, true, false, List, [], ◌∷◌, replicate, Bytes, codes, pos, negsuc,
  some,
}
use adb_client.CString.{contains}
use adb_client.Client.{Event}
use adb_client.Command.Splits.{fail, sized}
use adb_client.Command.{AdbCommand, Frame}
use adb_client.Fault.{Result, ok}
use adb_client.LocalCommand.Handlers.{LocalCommand}
use adb_client.LocalCommand.Refused.{refusal, commands-refused}
use adb_client.LocalCommand.{
  shell, get_shell_data, list_packages, get_properties, screencap, root, sync, reverse,
  kill_reverse, kill_reverse_all,
}
use adb_client.Main.Session.{IsReply, writes, writes-closed}
use adb_client.Main.Visits.{visit, visit_all, local_writes, writes-visit_all}
use adb_client.Main.{
  serial, opened, closed, LocalReport, reverse_lines, local_commands, execute_local_command,
}
use adb_client.Utils.{get_lines_from_buf}

-- Exchanges that the server refuses, one for each command.
abbrev pub refusals : ℕ → Bytes → ℕ → List Event → List Event
refusals size text zero rest = rest
refusals size text (suc n) rest = refusal size text (refusals size text n rest)

-- What each command writes behind its request for the transport.
abbrev pub nothing : List (List Bytes)
nothing = replicate 14 []

-- What the program prints and stores: the lines of the refusal, for an output and for a list, and
-- the refusal, for the image.
abbrev pub absent_report : Bytes → AdbCommand → LocalReport
absent_report text b =
    let lines = get_lines_from_buf [] (fail text) in
    let reverses = get_lines_from_buf [] (sized text) in
    record {
      object = record { adb = closed (visit_all nothing b); serial = []; shell_data = fail text };
      shell_lines = lines;
      packages = lines;
      properties = lines;
      screencap = fail text;
      reverses = reverses ∷ reverses ∷ reverses ∷ [];
    }

abbrev object : AdbCommand → Bytes → LocalCommand
object b stored = record { adb = b; serial = []; shell_data = stored }

module _ (size : ℕ) (text : Bytes) (h : IsReply size text)
    (no_okay : contains (fail text) (codes "OKAY") ≡ false) where
  module _ (later : List Event) (o : LocalCommand) (command local remote : Bytes)
      (norebind : Bool) where
    abbrev events : List Event
    events = refusal size text later

    abbrev rejected : Result (Frame LocalCommand (Unit {0}) × List Event)
    rejected =
        ok (record { object = record o { adb = visit [] o.adb }; status = pos 0; out = tt }, later)

    abbrev told : LocalCommand
    told = record o { adb = visit [] o.adb; shell_data = fail text }

    refused :
        (shell events o serial command
          ≡ ok (record { object = told; status = pos 0; out = tt }, later))
        × (list_packages events o serial
            ≡ ok (record { object = told; status = pos 0; out = fail text }, later))
        × (get_properties events o serial
            ≡ ok (record { object = told; status = pos 0; out = fail text }, later))
        × (screencap events o serial []
            ≡ ok (
              record {
                object = record o { adb = visit [] o.adb };
                status = negsuc 0;
                out = fail text;
              },
              later,
            ))
        × (reverse_lines events o
            ≡ ok (record o { adb = visit [] o.adb }, get_lines_from_buf [] (sized text), later))
        × (sync events o serial ≡ rejected)
        × (root events o serial ≡ rejected)
        × (reverse events o serial local remote norebind ≡ rejected)
        × (kill_reverse events o serial local ≡ rejected)
        × (kill_reverse_all events o serial ≡ rejected)
    unfolding visit reverse_lines
    refused =
        let (s, p, g, c, l, y, t, u, r, v, k, a) =
          commands-refused size later o serial text h.0 h.1 h.2 command [] local remote 0 norebind
            no_okay in
        (s, p, g, c, rw (l, reverse_lines), y, r, v, k, a)

  local_commands-refused :
      (rest : List Event) (b : AdbCommand)
      → local_commands (refusals size text 14 rest) (object b []) ≡ ok (absent_report text b, rest)
  unfolding local_commands get_shell_data
  local_commands-refused rest b =
      rw
        (
          (refused _ (object b []) (codes "getprop ro.build.version.release") [] [] false).0,
          local_commands,
        )
        (rw (refused _ _ [] [] [] false).1 (
          rw (refused _ _ [] [] [] false).2 (
            rw (refused _ _ [] [] [] false).3 (
              rw (refused _ _ [] [] [] false).6 (
                rw (refused _ _ [] [] [] false).5 (
                  rw (refused _ _ [] (codes "tcp:1247") (codes "tcp:1247") false).7 (
                    rw (refused _ _ [] (codes "tcp:1248") (codes "tcp:1248") false).7 (
                      rw (refused _ _ [] (codes "tcp:1249") (codes "tcp:1249") true).7 (
                        rw (refused _ _ [] [] [] false).4 (
                          rw (refused _ _ [] (codes "tcp:1248") [] false).8 (
                            rw (refused _ _ [] [] [] false).4 (
                              rw (refused _ _ [] [] [] false).9
                                (rw (refused rest _ [] [] [] false).4)))))))))))))

-- Where the server refuses the transport of each of the fourteen commands with a FAIL and its text
-- in one read, the program returns 0 all the same. The refusal is taken for the output of the
-- three shell commands, whose lines are printed, and stored as the image; its length and its text
-- are taken for the list of the reverses, whose lines are printed; and the fourteen requests for
-- the transport are all that is written. The socket has been made, the text has fewer than 65536
-- bytes, none of them NUL, the buffer has room for the refusal, and no OKAY stands in it.
pub execute_local_command-refused :
    (size connfd : ℕ) (text : Bytes) (rest : List Event)
    → IsReply size text
    → contains (fail text) (codes "OKAY") ≡ false
    → let report = absent_report text opened in
      (execute_local_command (pos connfd) (refusals size text 14 rest)
        ≡ ok (pos 0, some (report, rest)))
      × (writes report.object.adb.calls ≡ local_writes nothing)
unfolding execute_local_command
execute_local_command-refused size connfd text rest h no_okay = (
  rw (local_commands-refused size text h no_okay rest opened),
  writes-closed (visit_all nothing opened) ∙ writes-visit_all nothing opened,
)
