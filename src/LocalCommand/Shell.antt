-- ===== src/LocalCommand/Shell.antt =====
-- `shell`, and what `get_shell_data` returns behind it.
use adb_client.Base.{
  ℕ, ◌-◌, ◌≡◌, refl, ◌∙◌, true, Bool, not, ◌&&◌, Bool-cases, inl, inr, ℤ, replicate, if◌then◌else◌,
  List, [], ◌∷◌, ◌++◌, map, arith, Bytes, codes, HasNoNul, pos, length, equal,
}
use adb_client.CString.{starts_with, strncmp_eq}
use adb_client.Client.{Event}
use adb_client.Command.Exchange.{
  IsQuiet, flag_of-ok, exchange, execute-exchange, handle_all, sent, started, ended,
}
use adb_client.Command.ReadBuffer.{received_in, zeroed, clear-received}
use adb_client.Command.{AdbCommand, Frame, clear}
use adb_client.Fault.{Result, ok, >>=-eq-ok}
use adb_client.LocalCommand.Handlers.{LocalCommand, local_class, shell_message, shell_data_of}
use adb_client.LocalCommand.Services.{AllFit, respond, respond_all, okay_not_fail}
use adb_client.LocalCommand.{transport_request, shell, list_packages, get_properties}
use adb_client.Protocol.Read.{received, c_string-drop}
use adb_client.Protocol.Respond.{respond_transport_command-received}
use adb_client.Protocol.{respond_transport_command}

shell_message-IsQuiet : (service : Bytes) → IsQuiet local_class (shell_message service)
unfolding shell_message
shell_message-IsQuiet service = record {
  flag = λ buf cleared f g h.
      let (r, responds, h') =
        >>=-eq-ok (respond_transport_command buf service f.object.adb.calls) _ h in
      let (s, stores, h'') = >>=-eq-ok (shell_data_of r.0 buf.memory f.object.shell_data) _ h' in
      let (c, clears, same) = >>=-eq-ok (clear buf) _ h'' in
      flag_of-ok local_class (shell_message service) same;
}

-- The read that a comparison with a literal sees ends in a NUL.
strncmp_eq-text :
    (chunk rest literal : Bytes)
    → HasNoNul literal
    → strncmp_eq (chunk ++ (0 ∷ rest)) literal ≡ ok (starts_with chunk literal)
unfolding strncmp_eq starts_with
strncmp_eq-text [] rest [] h = refl
strncmp_eq-text [] rest (l ∷ ls) h = ground (arith, h.0)
strncmp_eq-text (c ∷ chunk) rest [] h = refl
strncmp_eq-text (c ∷ chunk) rest (l ∷ ls) h = ground (arith, strncmp_eq-text chunk rest ls h.1)

-- A read that `shell` takes for output: it is not just FAIL, and does not begin with OKAY.
abbrev pub is_output : Bytes → Bool
is_output chunk = not (equal chunk (codes "FAIL")) && not (starts_with chunk (codes "OKAY"))

abbrev pub outputs : List Bytes → List Bytes
outputs [] = []
outputs (chunk ∷ chunks) = if is_output chunk then chunk ∷ outputs chunks else outputs chunks

-- The last of the chunks, or else the old text.
unfoldable pub latest : Bytes → List Bytes → Bytes
latest old [] = old
latest old (chunk ∷ chunks) = latest chunk chunks

-- The frame of a status, a base part and the shell data.
abbrev shell_frame : LocalCommand → ℤ × AdbCommand → Bytes → Frame LocalCommand (Unit {0})
shell_frame o r old = record {
  object = record o { adb = r.1; shell_data = old };
  status = r.0;
  out = tt;
}

okay-starts :
    (chunk : Bytes) → equal chunk (codes "OKAY") ≡ true → starts_with chunk (codes "OKAY") ≡ true
unfolding equal starts_with
okay-starts (a ∷ b ∷ c ∷ d ∷ s) h = ground arith
okay-starts _ h = ground arith

shell_data_of-received :
    (chunk old : Bytes) (room : ℕ)
    → HasNoNul chunk
    → shell_data_of (pos 0) (received room chunk).memory old
      ≡ ok (if starts_with chunk (codes "OKAY") then old else chunk)
unfolding shell_data_of
shell_data_of-received chunk old room t =
    rw (strncmp_eq-text chunk (replicate room 0) (codes "OKAY") (refl, (refl, (refl, (refl, tt)))))
      (elim (Bool-cases (starts_with chunk (codes "OKAY"))) [
        | inl okay ↦ rw okay
        | inr none ↦ rw none (c_string-drop 0 room chunk (omega arith) t)
      ])

shell_message-received :
    (service chunk : Bytes) (room : ℕ) (o : LocalCommand) (r : ℤ × AdbCommand) (old : Bytes)
    → HasNoNul chunk
    → shell_message service (received room chunk) (shell_frame o r old)
      ≡ ok (
        shell_frame o (respond service chunk r.1) (if is_output chunk then chunk else old),
        zeroed room chunk,
      )
unfolding shell_message respond shell_data_of
shell_message-received service chunk room o r old t =
    let stored = shell_data_of-received chunk old room t in
    rw (respond_transport_command-received room chunk service r.1.calls, shell_message)
      (elim (Bool-cases (equal chunk (codes "OKAY"))) [
        | inl okay ↦
            rw (okay, okay_not_fail chunk okay)
              (rw stored (rw (okay-starts chunk okay) (rw (clear-received room chunk))))
        | inr other ↦ rw other (elim (Bool-cases (equal chunk (codes "FAIL"))) [
          | inl fail ↦ rw fail (rw (clear-received room chunk))
          | inr neither ↦ rw neither (
              rw stored (
                rw (clear-received room chunk)
                  (elim (Bool-cases (starts_with chunk (codes "OKAY"))) [
                    | inl starts ↦ rw starts
                    | inr text ↦ rw text
                  ])))
        ])
      ])

handle_all-shell :
    (service : Bytes) (size : ℕ) (chunks : List Bytes) (o : LocalCommand) (r : ℤ × AdbCommand)
    (old : Bytes)
    → AllFit size chunks
    → handle_all (shell_message service) (map (received_in size) chunks) (shell_frame o r old)
      ≡ ok (shell_frame o (respond_all service chunks r) (latest old (outputs chunks)))
unfolding handle_all latest respond_all
handle_all-shell service size [] o r old h = refl
handle_all-shell service size (chunk ∷ chunks) o r old h =
    rw (shell_message-received service chunk (size - length chunk - 1) o r old h.0)
      (elim (Bool-cases (is_output chunk)) [
        | inl is ↦
            rw is (handle_all-shell service size chunks o (respond service chunk r.1) chunk h.2)
        | inr isnt ↦
            rw isnt (handle_all-shell service size chunks o (respond service chunk r.1) old h.2)
      ])

module _ (size : ℕ) (rest : List Event) (o : LocalCommand) (serial : Bytes)
    (chunks : List Bytes) where
  -- The events of a command whose service is a shell command.
  abbrev pub outputs_in : Bytes → List Event
  outputs_in command =
      exchange local_class (shell_message (codes "shell:" ++ command))
        (map (received_in size) chunks) rest

  -- What the reads do to the status and the base part of the object.
  abbrev pub answered : Bytes → ℤ × AdbCommand
  answered command =
      respond_all (codes "shell:" ++ command) chunks
        (pos 0, sent (started (transport_request serial) o.adb))

  -- The outcome, by what the command returns to its caller.
  abbrev pub told : {V : Type 0} → Bytes → V → Result (Frame LocalCommand V × List Event)
  told command out = ok (
    record {
      object = record o {
        adb = ended (answered command).1;
        shell_data = latest o.shell_data (outputs chunks);
      };
      status = (answered command).0;
      out = out;
    },
    rest,
  )

  shell_lem :
      (command : Bytes)
      → AllFit size chunks
      → shell (outputs_in command) o serial command ≡ told command tt
  unfolding shell
  shell_lem command h =
      let service = codes "shell:" ++ command in
      execute-exchange local_class (shell_message service) (shell_message-IsQuiet service)
        (transport_request serial) (pos 0) (map (received_in size) chunks) rest o tt
      ∙ rw (
          handle_all-shell service size chunks o
            (pos 0, sent (started (transport_request serial) o.adb)) o.shell_data h)

  -- Over any reads with no NUL that each leave a byte of the buffer, `shell` writes its service for
  -- every read that is OKAY and nothing else, and keeps as its output the last read that neither
  -- begins with OKAY nor is FAIL and nothing else; with no such read, the output that the object
  -- had before. The status is -1 if the last read is FAIL and nothing else, and else 0.
  -- `list_packages` and `get_properties` do the same, and return that output.
  pub shell-outputs :
      (command : Bytes)
      → AllFit size chunks
      → (shell (outputs_in command) o serial command ≡ told command tt)
        × (list_packages (outputs_in (codes "pm list packages")) o serial
            ≡ told (codes "pm list packages") (latest o.shell_data (outputs chunks)))
        × (get_properties (outputs_in (codes "getprop")) o serial
            ≡ told (codes "getprop") (latest o.shell_data (outputs chunks)))
  unfolding list_packages get_properties
  shell-outputs command h =
      let stored = λ (c : Bytes). shell_lem c h in
      (stored command, rw (stored (codes "pm list packages")), rw (stored (codes "getprop")))
