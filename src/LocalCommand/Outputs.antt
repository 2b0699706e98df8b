-- ===== src/LocalCommand/Outputs.antt =====
-- `shell` where the reply to the transport is OKAY and all that follows is output.
use adb_client.Base.{
  ℕ, ◌<◌, ◌≡◌, refl, ap, ◌∙◌, true, false, List, [], ◌∷◌, ◌++◌, map, Bytes, codes, HasNoNul, pos,
  length, equal,
}
use adb_client.CString.{starts_with}
use adb_client.Client.{Event}
use adb_client.Command.Exchange.{exchange, sent, started, ended}
use adb_client.Command.ReadBuffer.{received_in}
use adb_client.Command.{AdbCommand}
use adb_client.Fault.{ok}
use adb_client.LocalCommand.Handlers.{LocalCommand, local_class, shell_message}
use adb_client.LocalCommand.Services.{
  AllFit, asked, respond_all, respond_okay, respond-long, long-equal_fail,
}
use adb_client.LocalCommand.Shell.{is_output, outputs, latest, told, shell-outputs}
use adb_client.LocalCommand.{transport_request, shell, list_packages, get_properties}

-- A read that carries output: text that is longer than a status, leaves a byte of the buffer and
-- begins with no OKAY.
abbrev pub IsOutput : ℕ → Bytes → Type 0
IsOutput size chunk =
    HasNoNul chunk
    × (4 < length chunk)
    × (length chunk < size)
    × (starts_with chunk (codes "OKAY") ≡ false)

abbrev pub AllOutput : ℕ → List Bytes → Type 0
AllOutput size [] = Unit
AllOutput size (chunk ∷ chunks) = IsOutput size chunk × AllOutput size chunks

long-is_output : (size : ℕ) (chunk : Bytes) → IsOutput size chunk → is_output chunk ≡ true
long-is_output size chunk h = rw (long-equal_fail chunk h.1) (rw h.3)

respond_all-outputs :
    (size : ℕ) (service : Bytes) (chunks : List Bytes) (b : AdbCommand)
    → AllOutput size chunks
    → respond_all service chunks (pos 0, b) ≡ (pos 0, b)
unfolding respond_all
respond_all-outputs size service [] b h = refl
respond_all-outputs size service (chunk ∷ chunks) b h =
    rw (respond-long service chunk b h.0.1) (respond_all-outputs size service chunks b h.1)

-- The OKAY of the transport comes first.
respond_all-okay :
    (size : ℕ) (service : Bytes) (chunks : List Bytes) (b : AdbCommand)
    → AllOutput size chunks
    → respond_all service (codes "OKAY" ∷ chunks) (pos 0, b) ≡ (pos 0, asked service b)
unfolding respond_all
respond_all-okay size service chunks b h =
    rw (respond_okay service b) (respond_all-outputs size service chunks (asked service b) h)

outputs_all : (size : ℕ) (chunks : List Bytes) → AllOutput size chunks → outputs chunks ≡ chunks
outputs_all size [] h = refl
outputs_all size (chunk ∷ chunks) h =
    rw (long-is_output size chunk h.0) (ap (◌∷◌ chunk) (outputs_all size chunks h.1))

AllOutput-AllFit : (size : ℕ) (chunks : List Bytes) → AllOutput size chunks → AllFit size chunks
AllOutput-AllFit size [] h = tt
AllOutput-AllFit size (chunk ∷ chunks) h = (h.0.0, h.0.2, AllOutput-AllFit size chunks h.1)

module _ (size : ℕ) (rest : List Event) (o : LocalCommand) (serial : Bytes) where
  -- The events of a shell command: the transport's OKAY, and the output in chunks.
  abbrev pub shell_reads : Bytes → List Bytes → List Event
  shell_reads command chunks =
      exchange local_class (shell_message (codes "shell:" ++ command))
        (map (received_in size) (codes "OKAY" ∷ chunks)) rest

  -- The object behind a shell command, by what it stores.
  abbrev pub shelled : Bytes → Bytes → LocalCommand
  shelled command stored = record o {
    adb =
        ended (asked (codes "shell:" ++ command) (sent (started (transport_request serial) o.adb)));
    shell_data = stored;
  }

  -- The outcome of `shell-outputs` over these reads.
  told-shelled :
      {V : Type 0} (command : Bytes) (chunks : List Bytes) (out : V)
      → AllOutput size chunks
      → told size rest o serial (codes "OKAY" ∷ chunks) command out
        ≡ ok (
          record {
            object = shelled command (latest o.shell_data chunks);
            status = pos 0;
            out = out;
          },
          rest,
        )
  unfolding starts_with equal
  told-shelled command chunks out h =
      let service = codes "shell:" ++ command in
      let b = sent (started (transport_request serial) o.adb) in
      rw (respond_all-okay size service chunks b h) (rw (outputs_all size chunks h))

  -- `shell` sends its service behind the OKAY of the transport, and returns 0; of the output that
  -- follows it keeps the last read only, each read being text of more than four bytes with no OKAY
  -- at its start, which leaves a byte of the buffer. `list_packages` and `get_properties` return
  -- that read. The buffer has five bytes or more.
  pub shell-latest :
      (command : Bytes) (chunks : List Bytes)
      → 4 < size
      → AllOutput size chunks
      → (shell (shell_reads command chunks) o serial command
          ≡ ok (
            record {
              object = shelled command (latest o.shell_data chunks);
              status = pos 0;
              out = tt;
            },
            rest,
          ))
        × (list_packages (shell_reads (codes "pm list packages") chunks) o serial
            ≡ ok (
              record {
                object = shelled (codes "pm list packages") (latest o.shell_data chunks);
                status = pos 0;
                out = latest o.shell_data chunks;
              },
              rest,
            ))
        × (get_properties (shell_reads (codes "getprop") chunks) o serial
            ≡ ok (
              record {
                object = shelled (codes "getprop") (latest o.shell_data chunks);
                status = pos 0;
                out = latest o.shell_data chunks;
              },
              rest,
            ))
  unfolding starts_with equal
  shell-latest command chunks wide h =
      let all =
        shell-outputs size rest o serial (codes "OKAY" ∷ chunks) command
          ((refl, (refl, (refl, (refl, tt)))), wide, AllOutput-AllFit size chunks h) in
      let found = latest o.shell_data (outputs chunks) in
      let packages = all.1 ∙ told-shelled (codes "pm list packages") chunks found h in
      let properties = all.2 ∙ told-shelled (codes "getprop") chunks found h in
      let same = outputs_all size chunks h in
      (all.0 ∙ told-shelled command chunks tt h, rw same at packages, rw same at properties)
