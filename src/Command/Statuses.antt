-- ===== src/Command/Statuses.antt =====
-- The commands that look at the status of a reply only, over a whole exchange.
use adb_client.Base.{
  ℕ, ◌-◌, ◌≤◌, ◌≡◌, refl, sym, ap, ◌∙◌, List, [], ◌∷◌, map, arith, Bytes, HasNoNul, ℤ, length,
}
use adb_client.Client.{Buffer, Event}
use adb_client.Command.Exchange.{
  IsQuiet, sent, ended, started, base_step, handle_all, exchange, execute-exchange,
}
use adb_client.Command.Handlers.{read_status}
use adb_client.Command.ReadBuffer.{clear-received, received_in, zeroed}
use adb_client.Command.Replies.{AllText, with_error, finished}
use adb_client.Command.{AdbCommand, Derived, Frame, clear, execute}
use adb_client.Fault.{Result, ok, >>=-eq-ok, value_or}
use adb_client.Protocol.Read.{received, interpret, read_protocol_string-received}
use adb_client.Protocol.{Reading, read_protocol_string}

-- The readings of the reads of one exchange, each with an empty result at first.
unfoldable pub interpret_each : List Bytes → Reading → Reading
interpret_each [] r = r
interpret_each (chunk ∷ chunks) r = interpret_each chunks (interpret chunk [] r.error)

module _ {O V : Type 0} (d : Derived O) where
  pub read_status-IsQuiet : IsQuiet d (read_status d {V = V})
  unfolding read_status
  read_status-IsQuiet = record {
    flag = λ buf cleared f g h.
        let (r, reads, h') = >>=-eq-ok (read_protocol_string buf [] (d.base f.object).error) _ h in
        let (c, clears, same) = >>=-eq-ok (clear buf) _ h' in
        ap
          (λ (x : Result (Frame O V × Buffer)).
            (d.base (value_or (f, buf) x).0.object).command_finished)
          (sym same)
        ∙ ap (λ (b : AdbCommand). b.command_finished)
            (d.base-set_base f.object (with_error r.error (d.base f.object)));
  }

  -- The frame after a reading.
  abbrev pub status_frame : O → V → Reading → Frame O V
  status_frame o out r = record {
    object = d.set_base o (with_error r.error (d.base o));
    status = r.status;
    out = out;
  }

  read_status-received :
      (room : ℕ) (chunk : Bytes) (f : Frame O V)
      → HasNoNul chunk
      → 3 ≤ room
      → read_status d (received room chunk) f
        ≡ ok (
          status_frame f.object f.out (interpret chunk [] (d.base f.object).error),
          zeroed room chunk,
        )
  unfolding read_status
  read_status-received room chunk f t h =
      rw (read_protocol_string-received room chunk [] (d.base f.object).error h t, read_status)
        (rw (clear-received room chunk))

  status_frame_again :
      (o : O) (out : V) (r s : Reading)
      → status_frame (status_frame o out r).object out s ≡ status_frame o out s
  status_frame_again o out r s =
      ap (λ (x : O). record { object = x; status = s.status; out = out })
        (base_step d (read_status d {V = V}) o (with_error r.error (d.base o)) (with_error s.error))

  error_of-status_frame :
      (o : O) (out : V) (r : Reading) → (d.base (status_frame o out r).object).error ≡ r.error
  error_of-status_frame o out r =
      ap (λ (b : AdbCommand). b.error) (d.base-set_base o (with_error r.error (d.base o)))

  handle_all-read_status :
      (size : ℕ) (chunks : List Bytes) (o : O) (out : V) (r : Reading)
      → AllText size chunks
      → handle_all (read_status d) (map (received_in size) chunks) (status_frame o out r)
        ≡ ok (status_frame o out (interpret_each chunks r))
  unfolding handle_all interpret_each
  handle_all-read_status size [] o out r h = refl
  handle_all-read_status size (chunk ∷ chunks) o out r h =
      rw
        (read_status-received (size - length chunk - 1) chunk (status_frame o out r) h.0
          (omega arith))
        (rw (error_of-status_frame o out r) (
          rw (status_frame_again o out r (interpret chunk [] r.error))
            (handle_all-read_status size chunks o out (interpret chunk [] r.error) h.2)))

  -- Over one exchange a command that looks at the status only writes its framed request once, and
  -- returns the status of the last read; the error texts of the reads are appended to the error,
  -- and the caller's variable is left alone. No read has a NUL, and each leaves four bytes of the
  -- buffer.
  pub execute-read_status :
      (size : ℕ) (chunks : List Bytes) (command : Bytes) (status : ℤ) (rest : List Event) (o : O)
      (out : V)
      → AllText size chunks
      → execute d
          (read_status d)
          command
          status
          (exchange d (read_status d {V = V}) (map (received_in size) chunks) rest)
          o
          out
        ≡ (let r =
              interpret_each chunks
                (record { status = status; result = []; error = (d.base o).error }) in
            ok (
              record { object = finished d o command r.error; status = r.status; out = out },
              rest,
            ))
  execute-read_status size chunks command status rest o out h =
      let base = sent (started command (d.base o)) in
      let r₀ : Reading = record { status = status; result = []; error = (d.base o).error } in
      let r = interpret_each chunks r₀ in
      let step = base_step d (read_status d {V = V}) in
      let start : d.set_base o base ≡ (status_frame (d.set_base o base) out r₀).object =
        sym (step o base (with_error (d.base o).error)) in
      execute-exchange d (read_status d) read_status-IsQuiet command status
        (map (received_in size) chunks) rest o out
      ∙ rw start (
          rw (handle_all-read_status size chunks (d.set_base o base) out r₀ h) (
            ap
              (λ (x : O). ok (
                record { object = d.set_base x (ended (d.base x)); status = r.status; out = out },
                rest,
              ))
              (step o base (with_error r.error))
            ∙ ap (λ (x : O). ok (record { object = x; status = r.status; out = out }, rest))
                (step o (with_error r.error base) ended)))
