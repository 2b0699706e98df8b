-- ===== src/Command/Replies.antt =====
-- The commands that read a reply of the server, over a whole exchange.
use adb_client.Base.{
  ℕ, ◌+◌, ◌-◌, ◌≤◌, ◌≡◌, refl, sym, ap, ◌∙◌, List, [], ◌∷◌, map, arith, Bytes, HasNoNul, ℤ, length,
}
use adb_client.Client.{Buffer, Event}
use adb_client.Command.Exchange.{
  IsQuiet, sent, ended, started, base_step, handle_all, update, exchange, execute-exchange,
}
use adb_client.Command.Handlers.{read_into}
use adb_client.Command.ReadBuffer.{IsClearing, clear-received, received_in, zeroed}
use adb_client.Command.{AdbCommand, Derived, Frame, clear, execute}
use adb_client.Fault.{Result, ok, >>=-eq-ok, value_or}
use adb_client.Protocol.Read.{received, interpret, read_protocol_string-received}
use adb_client.Protocol.{Reading, read_protocol_string}

-- The readings of the reads of one exchange, in order.
unfoldable pub interpret_all : List Bytes → Reading → Reading
interpret_all [] r = r
interpret_all (chunk ∷ chunks) r = interpret_all chunks (interpret chunk r.result r.error)

-- No byte of a read is NUL, and the buffer of `size` bytes has room for four more.
abbrev pub AllText : ℕ → List Bytes → Type 0
AllText size [] = Unit
AllText size (chunk ∷ chunks) = HasNoNul chunk × (length chunk + 4 ≤ size) × AllText size chunks

abbrev pub with_error : Bytes → AdbCommand → AdbCommand
with_error e b = record b { error = e }

module _ {O : Type 0} (d : Derived O) where
  pub read_into-IsQuiet : IsQuiet d (read_into d)
  unfolding read_into
  read_into-IsQuiet = record {
    flag = λ buf cleared f g h.
        let (r, reads, h') =
          >>=-eq-ok (read_protocol_string buf f.out (d.base f.object).error) _ h in
        let (c, clears, same) = >>=-eq-ok (clear buf) _ h' in
        cc (same, d.base-set_base f.object (with_error r.error (d.base f.object)));
  }

  pub read_into-IsClearing : IsClearing (read_into d)
  unfolding read_into
  read_into-IsClearing = record {
    cleared_is = λ buf cleared f g h.
        let (r, reads, h') =
          >>=-eq-ok (read_protocol_string buf f.out (d.base f.object).error) _ h in
        let (c, clears, same) = >>=-eq-ok (clear buf) _ h' in
        clears ∙ ap (λ (x : Result (Frame O Bytes × Buffer)). ok (value_or (f, buf) x).1) same;
  }

  -- The frame after a reading.
  abbrev pub frame_of : O → Reading → Frame O Bytes
  frame_of o r = record {
    object = d.set_base o (with_error r.error (d.base o));
    status = r.status;
    out = r.result;
  }

  read_into-received :
      (room : ℕ) (chunk : Bytes) (f : Frame O Bytes)
      → HasNoNul chunk
      → 3 ≤ room
      → read_into d (received room chunk) f
        ≡ ok (frame_of f.object (interpret chunk f.out (d.base f.object).error), zeroed room chunk)
  unfolding read_into
  read_into-received room chunk f t h =
      rw (read_protocol_string-received room chunk f.out (d.base f.object).error h t, read_into)
        (rw (clear-received room chunk))

  -- a frame after a reading, after another one
  frame_again : (o : O) (r s : Reading) → frame_of (frame_of o r).object s ≡ frame_of o s
  frame_again o r s =
      ap (λ (x : O). record { object = x; status = s.status; out = s.result })
        (base_step d (read_into d) o (with_error r.error (d.base o)) (with_error s.error))

  error_of-frame : (o : O) (r : Reading) → (d.base (frame_of o r).object).error ≡ r.error
  error_of-frame o r =
      ap (λ (b : AdbCommand). b.error) (d.base-set_base o (with_error r.error (d.base o)))

  handle_all-read_into :
      (size : ℕ) (chunks : List Bytes) (o : O) (r : Reading)
      → AllText size chunks
      → handle_all (read_into d) (map (received_in size) chunks) (frame_of o r)
        ≡ ok (frame_of o (interpret_all chunks r))
  unfolding handle_all interpret_all
  handle_all-read_into size [] o r h = refl
  handle_all-read_into size (chunk ∷ chunks) o r h =
      rw (read_into-received (size - length chunk - 1) chunk (frame_of o r) h.0 (omega arith)) (
        rw (error_of-frame o r) (
          rw (frame_again o r (interpret chunk r.result r.error))
            (handle_all-read_into size chunks o (interpret chunk r.result r.error) h.2)))

  -- The object after a command: its request, its error text, the flag set, the calls that it made.
  abbrev pub finished : O → Bytes → Bytes → O
  finished o command e = d.set_base o (ended (with_error e (sent (started command (d.base o)))))

  finished_lem :
      (o : O) (command : Bytes) (r : Reading)
      → update d (read_into d) ended (frame_of (d.set_base o (sent (started command (d.base o)))) r)
        ≡ record { object = finished o command r.error; status = r.status; out = r.result }
  finished_lem o command r =
      let base = sent (started command (d.base o)) in
      let step = base_step d (read_into d) in
      ap
        (λ (x : O). record {
          object = d.set_base x (ended (d.base x));
          status = r.status;
          out = r.result;
        })
        (step o base (with_error r.error))
      ∙ ap (λ (x : O). record { object = x; status = r.status; out = r.result })
          (step o (with_error r.error base) ended)

  -- Over one exchange a command that stores the reply writes its framed request once, and returns
  -- the status and the text of the readings of the reads, taken one after the other. No read has a
  -- NUL, and each leaves four bytes of the buffer.
  pub execute-read_into :
      (size : ℕ) (chunks : List Bytes) (command : Bytes) (status : ℤ) (rest : List Event) (o : O)
      (out : Bytes)
      → AllText size chunks
      → execute d
          (read_into d)
          command
          status
          (exchange d (read_into d) (map (received_in size) chunks) rest)
          o
          out
        ≡ (let r =
              interpret_all chunks
                (record { status = status; result = out; error = (d.base o).error }) in
            ok (
              record { object = finished o command r.error; status = r.status; out = r.result },
              rest,
            ))
  execute-read_into size chunks command status rest o out h =
      let base = sent (started command (d.base o)) in
      let r₀ : Reading = record { status = status; result = out; error = (d.base o).error } in
      let start : d.set_base o base ≡ (frame_of (d.set_base o base) r₀).object =
        sym (base_step d (read_into d) o base (with_error (d.base o).error)) in
      execute-exchange d (read_into d) read_into-IsQuiet command status
        (map (received_in size) chunks) rest o out
      ∙ rw start (
          rw (handle_all-read_into size chunks (d.set_base o base) r₀ h) (
            ap (λ (f : Frame O Bytes). ok (f, rest))
              (finished_lem o command (interpret_all chunks r₀))))
