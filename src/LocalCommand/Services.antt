-- ===== src/LocalCommand/Services.antt =====
-- The services of a device whose status alone is looked at, over a whole exchange.
use adb_client.Base.{
  ℕ, ◌-◌, ◌<◌, ◌≡◌, refl, ◌∙◌, Bool-cases, inl, inr, List, [], ◌∷◌, ◌++◌, map, true, false, arith,
  Bytes, HasNoNul, codes, ℤ, pos, negsuc, length, equal, if◌then◌else◌,
}
use adb_client.Client.{Event, write}
use adb_client.Command.Exchange.{
  IsQuiet, flag_of-ok, exchange, execute-exchange, handle_all, sent, started, ended,
}
use adb_client.Command.ReadBuffer.{received_in, zeroed, clear-received}
use adb_client.Command.{AdbCommand, Frame, call, clear, execute}
use adb_client.Fault.{ok, >>=-eq-ok}
use adb_client.LocalCommand.Handlers.{LocalCommand, local_class, respond_message}
use adb_client.LocalCommand.{transport_request}
use adb_client.Printf.Hex.{format_04x}
use adb_client.Protocol.Read.{received}
use adb_client.Protocol.Respond.{respond_transport_command-received}
use adb_client.Protocol.{respond_transport_command}

respond_message-IsQuiet : (service : Bytes) → IsQuiet local_class (respond_message service)
unfolding respond_message
respond_message-IsQuiet service = record {
  flag = λ buf cleared f g h.
      let (r, responds, h') =
        >>=-eq-ok (respond_transport_command buf service f.object.adb.calls) _ h in
      let (c, clears, same) = >>=-eq-ok (clear buf) _ h' in
      flag_of-ok local_class (respond_message service) same;
}

-- No byte of a read is NUL, and each read leaves a byte of the buffer.
abbrev pub AllFit : ℕ → List Bytes → Type 0
AllFit size [] = Unit
AllFit size (chunk ∷ chunks) = HasNoNul chunk × (length chunk < size) × AllFit size chunks

-- The service is written once more.
abbrev pub asked : Bytes → AdbCommand → AdbCommand
asked service b = call (write (format_04x (length service) ++ service)) b

-- What one read does: the status, and the base part.
unfoldable pub respond : Bytes → Bytes → AdbCommand → ℤ × AdbCommand
respond service chunk b =
    if equal chunk (codes "OKAY")
    then (pos 0, asked service b)
    else if equal chunk (codes "FAIL")
    then (negsuc 0, b)
    else (pos 0, b)

long-equal : (chunk : Bytes) → 4 < length chunk → equal chunk (codes "OKAY") ≡ false
unfolding equal
long-equal (a ∷ b ∷ c ∷ d ∷ e ∷ s) h = ground arith
long-equal _ h = ground arith

pub long-equal_fail : (chunk : Bytes) → 4 < length chunk → equal chunk (codes "FAIL") ≡ false
unfolding equal
long-equal_fail (a ∷ b ∷ c ∷ d ∷ e ∷ s) h = ground arith
long-equal_fail _ h = ground arith

pub respond_okay :
    (service : Bytes) (b : AdbCommand) → respond service (codes "OKAY") b ≡ (pos 0, asked service b)
unfolding respond equal
respond_okay service b = refl

pub respond-long :
    (service chunk : Bytes) (b : AdbCommand)
    → 4 < length chunk
    → respond service chunk b ≡ (pos 0, b)
unfolding respond
respond-long service chunk b long = rw (long-equal chunk long, long-equal_fail chunk long)

-- What the reads do one after the other.
unfoldable pub respond_all : Bytes → List Bytes → ℤ × AdbCommand → ℤ × AdbCommand
respond_all service [] r = r
respond_all service (chunk ∷ chunks) r = respond_all service chunks (respond service chunk r.1)

pub okay_not_fail :
    (chunk : Bytes) → equal chunk (codes "OKAY") ≡ true → equal chunk (codes "FAIL") ≡ false
unfolding equal
okay_not_fail [] h = refl
okay_not_fail (c ∷ chunk) h = ground arith

-- The frame of a status and a base part.
abbrev pub local_frame : LocalCommand → ℤ × AdbCommand → Frame LocalCommand (Unit {0})
local_frame o r = record { object = record o { adb = r.1 }; status = r.0; out = tt }

respond_message-received :
    (service chunk : Bytes) (room : ℕ) (o : LocalCommand) (r : ℤ × AdbCommand)
    → respond_message service (received room chunk) (local_frame o r)
      ≡ ok (local_frame o (respond service chunk r.1), zeroed room chunk)
unfolding respond_message respond
respond_message-received service chunk room o r =
    rw (respond_transport_command-received room chunk service r.1.calls, respond_message)
      (elim (Bool-cases (equal chunk (codes "OKAY"))) [
        | inl okay ↦ rw okay (rw (clear-received room chunk))
        | inr other ↦ rw other (elim (Bool-cases (equal chunk (codes "FAIL"))) [
          | inl fail ↦ rw fail (rw (clear-received room chunk))
          | inr neither ↦ rw neither (rw (clear-received room chunk))
        ])
      ])

handle_all-respond :
    (service : Bytes) (size : ℕ) (chunks : List Bytes) (o : LocalCommand) (r : ℤ × AdbCommand)
    → handle_all (respond_message service) (map (received_in size) chunks) (local_frame o r)
      ≡ ok (local_frame o (respond_all service chunks r))
unfolding handle_all respond_all
handle_all-respond service size [] o r = refl
handle_all-respond service size (chunk ∷ chunks) o r =
    rw (respond_message-received service chunk (size - length chunk - 1) o r)
      (handle_all-respond service size chunks o (respond service chunk r.1))

module _ (size : ℕ) (rest : List Event) (o : LocalCommand) (serial service : Bytes) where
  -- The events of one exchange whose reads are `chunks`, into a buffer of `size` bytes.
  abbrev pub service_reads : List Bytes → List Event
  service_reads chunks =
      exchange local_class (respond_message service) (map (received_in size) chunks) rest

  -- Over one exchange a service is written once for every read that is OKAY and nothing else, and
  -- the status is -1 if the last read is FAIL and nothing else, and 0 for any other last read.
  pub execute-respond_all :
      (initial : ℤ) (chunks : List Bytes)
      → execute local_class
          (respond_message service)
          (transport_request serial)
          initial
          (service_reads chunks)
          o
          tt
        ≡ (let r =
              respond_all service chunks
                (initial, sent (started (transport_request serial) o.adb)) in
            ok (local_frame o (r.0, ended r.1), rest))
  execute-respond_all initial chunks =
      execute-exchange local_class (respond_message service) (respond_message-IsQuiet service)
        (transport_request serial) initial (map (received_in size) chunks) rest o tt
      ∙ rw (
          handle_all-respond service size chunks o
            (initial, sent (started (transport_request serial) o.adb)))
