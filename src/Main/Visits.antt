-- ===== src/Main/Visits.antt =====
-- The commands of `execute_local_command`, by the services that they write.
use adb_client.Base.{
  ℕ, ◌<◌, ◌≡◌, ◌∙◌, Bool, List, [], ◌∷◌, ◌++◌, map, append-nil, append_assoc, arith, Bytes, codes,
  pos,
}
use adb_client.Client.{Event}
use adb_client.Command.Exchange.{ended, sent, started}
use adb_client.Command.Splits.{okay}
use adb_client.Command.{AdbCommand, Frame}
use adb_client.Fault.{Result, ok}
use adb_client.LocalCommand.Handlers.{LocalCommand}
use adb_client.LocalCommand.Outcomes.{services-ServiceOutcomes}
use adb_client.LocalCommand.Reverses.{list_reverse-okay}
use adb_client.LocalCommand.Images.{AllImage, joined, screencap-joined}
use adb_client.LocalCommand.Services.{asked}
use adb_client.LocalCommand.Outputs.{AllOutput, shell-latest}
use adb_client.LocalCommand.Shell.{latest}
use adb_client.LocalCommand.{
  transport_request, shell, list_packages, get_properties, screencap, root, sync, reverse,
  reverse_service, kill_reverse, kill_reverse_all,
}
use adb_client.Main.Session.{served, IsReply, writes, framed, writes-append}
use adb_client.Main.{serial, reverse_lines}
use adb_client.Utils.Split.{terminate, AllFree, split_terminated}
use adb_client.Utils.{get_lines_from_buf}

-- The client writes the services, one after the other.
abbrev pub asked_all : List Bytes → AdbCommand → AdbCommand
asked_all [] b = b
asked_all (service ∷ services) b = asked_all services (asked service b)

-- The object after a command that has written its request for the transport and these services.
unfoldable pub visit : List Bytes → AdbCommand → AdbCommand
visit services b = ended (asked_all services (sent (started (transport_request serial) b)))

module _ (size : ℕ) (rest : List Event) (o : LocalCommand) where
  abbrev visited : List Bytes → Result (Frame LocalCommand (Unit {0}) × List Event)
  visited services =
      ok (
        record { object = record o { adb = visit services o.adb }; status = pos 0; out = tt },
        rest,
      )

  abbrev heard : Bytes → Bytes → LocalCommand
  heard service stored = record o { adb = visit (service ∷ []) o.adb; shell_data = stored }

  pub outputs :
      (command : Bytes) (chunks : List Bytes)
      → 4 < size
      → AllOutput size chunks
      → let events = served size (codes "OKAY" ∷ chunks) rest in
        let stored = latest o.shell_data chunks in
        (shell events o serial command
          ≡ ok (
            record { object = heard (codes "shell:" ++ command) stored; status = pos 0; out = tt },
            rest,
          ))
        × (list_packages events o serial
            ≡ ok (
              record {
                object = heard (codes "shell:pm list packages") stored;
                status = pos 0;
                out = stored;
              },
              rest,
            ))
        × (get_properties events o serial
            ≡ ok (
              record {
                object = heard (codes "shell:getprop") stored;
                status = pos 0;
                out = stored;
              },
              rest,
            ))
  unfolding visit
  outputs command chunks wide h = shell-latest size rest o serial command chunks wide h

  pub image :
      (chunks : List Bytes)
      → AllImage chunks
      → screencap (served size (codes "OKAY" ∷ chunks) rest) o serial []
        ≡ ok (
          record {
            object = record o { adb = visit (codes "shell:/system/bin/screencap -p" ∷ []) o.adb };
            status = pos 0;
            out = joined chunks;
          },
          rest,
        )
  unfolding visit
  image chunks h = screencap-joined size rest o serial [] chunks h

  pub services :
      (local remote : Bytes) (norebind : Bool)
      → let events = served size (codes "OKAY" ∷ codes "OKAY" ∷ []) rest in
        let twice = λ (service : Bytes). visited (service ∷ service ∷ []) in
        (sync events o serial ≡ twice (codes "sync:"))
        × (root events o serial ≡ twice (codes "root:"))
        × (reverse events o serial local remote norebind
            ≡ twice (reverse_service local remote norebind))
        × (kill_reverse events o serial local ≡ twice (codes "reverse:killforward:" ++ local))
        × (kill_reverse_all events o serial ≡ twice (codes "reverse:killforward-all"))
  unfolding visit
  services local remote norebind =
      let (s, t, u, r, v, k, a) =
        services-ServiceOutcomes size rest o serial local remote [] 0 norebind (omega arith) in
      (s.0, r.0, v.0, k.0, a.0)

  pub lines :
      (ws : List Bytes)
      → IsReply size (terminate b'\n' ws)
      → AllFree b'\n' ws
      → reverse_lines (served size (codes "OKAY" ∷ okay (terminate b'\n' ws) ∷ []) rest) o
        ≡ ok (record o { adb = visit (codes "reverse:list-forward" ∷ []) o.adb }, ws, rest)
  unfolding reverse_lines get_lines_from_buf visit
  lines ws h free =
      rw (list_reverse-okay size rest o serial [] (terminate b'\n' ws) h.0 h.1 h.2, reverse_lines)
        (rw (split_terminated ws b'\n' free))

abbrev pub visit_all : List (List Bytes) → AdbCommand → AdbCommand
visit_all [] b = b
visit_all (services ∷ visits) b = visit_all visits (visit services b)

-- What the commands with these services write: each text behind its length.
abbrev pub local_writes : List (List Bytes) → List Bytes
local_writes [] = []
local_writes (services ∷ visits) =
    framed (transport_request serial) ∷ (map framed services ++ local_writes visits)

writes-asked_all :
    (services : List Bytes) (b : AdbCommand)
    → writes (asked_all services b).calls ≡ writes b.calls ++ map framed services
writes-asked_all [] b = rw append-nil
writes-asked_all (service ∷ services) b =
    writes-asked_all services (asked service b) ∙ simp (writes-append, append_assoc)

writes-visit :
    (services : List Bytes) (b : AdbCommand)
    → writes (visit services b).calls
      ≡ writes b.calls ++ (framed (transport_request serial) ∷ map framed services)
unfolding visit
writes-visit services b = simp (writes-append, append_assoc, writes-asked_all)

pub writes-visit_all :
    (visits : List (List Bytes)) (b : AdbCommand)
    → writes (visit_all visits b).calls ≡ writes b.calls ++ local_writes visits
writes-visit_all [] b = rw append-nil
writes-visit_all (services ∷ visits) b =
    writes-visit_all visits (visit services b)
    ∙ rw (writes-visit services b) (
        append_assoc (writes b.calls) (framed (transport_request serial) ∷ map framed services)
          (local_writes visits))
