-- ===== src/Main/Local.antt =====
-- A whole run of `execute_local_command` against a device that answers every request.
use adb_client.Base.{ℕ, arith, ◌<◌, ◌≡◌, ◌∙◌, true, false, List, [], ◌∷◌, Bytes, codes, pos, some}
use adb_client.Client.{Event}
use adb_client.Command.Splits.{okay}
use adb_client.Command.{AdbCommand}
use adb_client.Fault.{ok}
use adb_client.LocalCommand.Handlers.{LocalCommand}
use adb_client.LocalCommand.Images.{AllImage, joined}
use adb_client.LocalCommand.Outputs.{AllOutput}
use adb_client.LocalCommand.Shell.{latest}
use adb_client.LocalCommand.{get_shell_data, reverse_service}
use adb_client.Main.Session.{served, IsReply, writes, writes-closed}
use adb_client.Main.{opened, closed, LocalReport, local_commands, execute_local_command}
use adb_client.Utils.Split.{terminate, AllFree}
use adb_client.Utils.{get_lines_from_buf}
use adb_client.Main.Visits.{
  visit_all, outputs, image, services, lines, local_writes, writes-visit_all,
}

-- What the device answers: the reads of the three outputs and of the image, and the reverses at the
-- three listings.
pub record LocalAnswers : Type 0 where
  pub shell : List Bytes
  pub packages : List Bytes
  pub properties : List Bytes
  pub image : List Bytes
  pub first : List Bytes
  pub second : List Bytes
  pub third : List Bytes

-- No read is taken for a status, each read of an output leaves a byte of the buffer, the buffer
-- holds every listing in one read, and no reverse holds a newline.
pub record IsServed (size : ℕ) (a : LocalAnswers) : Type 0 where
  pub shell : AllOutput size a.shell
  pub packages : AllOutput size a.packages
  pub properties : AllOutput size a.properties
  pub image : AllImage a.image
  pub first : IsReply size (terminate b'\n' a.first) × AllFree b'\n' a.first
  pub second : IsReply size (terminate b'\n' a.second) × AllFree b'\n' a.second
  pub third : IsReply size (terminate b'\n' a.third) × AllFree b'\n' a.third

-- The fourteen exchanges, in order, each with the OKAY of the transport first.
abbrev pub local_session : ℕ → LocalAnswers → List Event → List Event
local_session size a rest =
    let reads = λ (chunks : List Bytes). served size (codes "OKAY" ∷ chunks) in
    let answer : List Event → List Event = reads (codes "OKAY" ∷ []) in
    let listing = λ (ws : List Bytes). reads (okay (terminate b'\n' ws) ∷ []) in
    reads a.shell (
      reads a.packages (
        reads a.properties (
          reads a.image (
            answer (
              answer (
                answer (
                  answer (
                    answer (
                      listing a.first
                        (answer (listing a.second (answer (listing a.third rest)))))))))))))

-- The services that each command writes: those with a status are written twice.
abbrev pub local_visits : List (List Bytes)
local_visits =
    let twice = λ (service : Bytes). service ∷ service ∷ [] in
    let listing : List Bytes = codes "reverse:list-forward" ∷ [] in
    (codes "shell:getprop ro.build.version.release" ∷ [])
    ∷ (codes "shell:pm list packages" ∷ [])
    ∷ (codes "shell:getprop" ∷ [])
    ∷ (codes "shell:/system/bin/screencap -p" ∷ [])
    ∷ twice (codes "root:")
    ∷ twice (codes "sync:")
    ∷ twice (reverse_service (codes "tcp:1247") (codes "tcp:1247") false)
    ∷ twice (reverse_service (codes "tcp:1248") (codes "tcp:1248") false)
    ∷ twice (reverse_service (codes "tcp:1249") (codes "tcp:1249") true)
    ∷ listing
    ∷ twice (codes "reverse:killforward:tcp:1248")
    ∷ listing
    ∷ twice (codes "reverse:killforward-all")
    ∷ listing
    ∷ []

-- What the program prints of these answers: of an output the lines of its last read, or those
-- of the last output where it has none.
abbrev pub local_report : LocalAnswers → AdbCommand → LocalReport
local_report a b =
    let release = latest [] a.shell in
    let packages = latest release a.packages in
    let properties = latest packages a.properties in
    record {
      object = record {
        adb = closed (visit_all local_visits b);
        serial = [];
        shell_data = properties;
      };
      shell_lines = get_lines_from_buf [] release;
      packages = get_lines_from_buf [] packages;
      properties = get_lines_from_buf [] properties;
      screencap = joined a.image;
      reverses = a.first ∷ a.second ∷ a.third ∷ [];
    }

abbrev object : AdbCommand → Bytes → LocalCommand
object b stored = record { adb = b; serial = []; shell_data = stored }

module _ (size : ℕ) (a : LocalAnswers) (h : IsServed size a) (rest : List Event) where
  local_commands-session :
      (b : AdbCommand)
      → local_commands (local_session size a rest) (object b []) ≡ ok (local_report a b, rest)
  unfolding local_commands get_shell_data
  local_commands-session b =
      let wide : 4 < size = omega (arith, h.first.0.2) in
      rw
        (
          (outputs size _ (object b []) (codes "getprop ro.build.version.release") a.shell wide
              h.shell).0,
          local_commands,
        )
        (rw (outputs size _ _ [] a.packages wide h.packages).1 (
          rw (outputs size _ _ [] a.properties wide h.properties).2 (
            rw (image size _ _ a.image h.image) (
              rw (services size _ _ [] [] false).1 (
                rw (services size _ _ [] [] false).0 (
                  rw (services size _ _ (codes "tcp:1247") (codes "tcp:1247") false).2 (
                    rw (services size _ _ (codes "tcp:1248") (codes "tcp:1248") false).2 (
                      rw (services size _ _ (codes "tcp:1249") (codes "tcp:1249") true).2 (
                        rw (lines size _ _ a.first h.first.0 h.first.1) (
                          rw (services size _ _ (codes "tcp:1248") [] false).3 (
                            rw (lines size _ _ a.second h.second.0 h.second.1) (
                              rw (services size _ _ [] [] false).4
                                (rw (lines size rest _ a.third h.third.0 h.third.1))))))))))))))

-- Against a device that answers every request of the program, the program returns 0. It has printed
-- the lines of the last read of each of the three outputs, or the output before it where it has no
-- read, and the reverses of the three listings, and the image that it stores is that of the device.
-- It has written, for each of its commands, the request for the transport and the service behind
-- their lengths, and the service a second time where the command looks at the status only. The
-- socket has been made; no read of an output is of four bytes or fewer, or begins with OKAY, or has
-- a NUL, and each leaves a byte of the buffer; no read of the image is of four bytes; the buffer
-- holds each listing in one read, of fewer than 65536 bytes with no NUL; and no reverse holds a
-- newline.
pub execute_local_command-session :
    (size connfd : ℕ) (a : LocalAnswers) (rest : List Event)
    → IsServed size a
    → let report = local_report a opened in
      (execute_local_command (pos connfd) (local_session size a rest)
        ≡ ok (pos 0, some (report, rest)))
      × (writes report.object.adb.calls ≡ local_writes local_visits)
unfolding execute_local_command
execute_local_command-session size connfd a rest h = (
  rw (local_commands-session size a h rest opened),
  writes-closed (visit_all local_visits opened) ∙ writes-visit_all local_visits opened,
)
