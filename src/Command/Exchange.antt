-- ===== src/Command/Exchange.antt =====
-- One exchange with the adb server: what `waits` returns after, and the sequence of calls.
use adb_client.Base.{
  ℕ, inl, inr, ◌≡◌, refl, sym, ap, ◌∙◌, true, false, List, [], ◌∷◌, ◌++◌, map, Bytes, ℤ, length,
}
use adb_client.Client.{
  Buffer, set_on_connection, set_on_message, start_connect, start, write, Event, connection,
  message,
}
use adb_client.Command.{
  AdbCommand, Derived, Frame, Handler, call, weak_up, start_command, on_connection, deliver, waits,
  begin, execute,
}
use adb_client.Fault.{Result, ok, err, blocked, ◌>>=◌, >>=-eq-ok, Result-cases, value_or}
use adb_client.Printf.Hex.{format_04x}
use adb_client.Protocol.Frame.{frame_lem}

-- A message callback that returns leaves the flag of `waits` as it was.
pub record IsQuiet {O V : Type 0} (d : Derived O) (on_message : Handler O V) : Type 0 where
  pub flag :
      (buf cleared : Buffer) (f g : Frame O V)
      → on_message buf f ≡ ok (g, cleared)
      → (d.base g.object).command_finished ≡ (d.base f.object).command_finished

-- The base part after the request has been written, and after the connection has ended.
abbrev pub sent : AdbCommand → AdbCommand
sent b = call (write (format_04x (length b.command) ++ b.command)) b

abbrev pub ended : AdbCommand → AdbCommand
ended b = record b { command_finished = 1 }

-- The base part of a command that has been started.
abbrev pub started : Bytes → AdbCommand → AdbCommand
started command b = record b {
  command = command;
  command_finished = 0;
  calls =
      (((b.calls ++ (set_on_connection ∷ [])) ++ (set_on_message ∷ [])) ++ (start_connect ∷ []))
      ++ (start ∷ []);
}

on_connection_up : (b : AdbCommand) → on_connection true b ≡ ok (sent b)
unfolding on_connection
on_connection_up b = rw (frame_lem b.command)

on_connection_down : (b : AdbCommand) → on_connection false b ≡ ok (ended b)
unfolding on_connection weak_up
on_connection_down b = refl

-- The messages go through the callback in order.
unfoldable pub handle_all :
    {O V : Type 0} → Handler O V → List Buffer → Frame O V → Result (Frame O V)
handle_all on_message [] f = ok f
handle_all on_message (buf ∷ bufs) f = do r ← on_message buf f; handle_all on_message bufs r.0

module _ {O V : Type 0} (d : Derived O) (on_message : Handler O V) where
  abbrev pub flag_of : Frame O V → ℕ
  flag_of f = (d.base f.object).command_finished

  -- the flag of a result that is known twice
  pub flag_of-ok :
      {f g : Frame O V} {buf cleared : Buffer}
      → ◌≡◌ {A = Result (Frame O V × Buffer)} (ok (f, buf)) (ok (g, cleared))
      → flag_of g ≡ flag_of f
  flag_of-ok {f} {g} {buf} h =
      ap (λ (x : Result (Frame O V × Buffer)). flag_of (value_or (f, buf) x).0) (sym h)

  abbrev pub update : (AdbCommand → AdbCommand) → Frame O V → Frame O V
  update g f = record f { object = d.set_base f.object (g (d.base f.object)) }

  -- On connection the framed command is written.
  pub deliver_up : (f : Frame O V) → deliver d on_message (connection true) f ≡ ok (update sent f)
  unfolding deliver
  deliver_up f =
      rw (d.connection_lem true f.object, deliver) (rw (on_connection_up (d.base f.object)))

  pub deliver_down :
      (f : Frame O V) → deliver d on_message (connection false) f ≡ ok (update ended f)
  unfolding deliver
  deliver_down f =
      rw (d.connection_lem false f.object, deliver) (rw (on_connection_down (d.base f.object)))

  -- two writes of the base part are one
  pub base_step :
      (o : O) (b : AdbCommand) (c : AdbCommand → AdbCommand)
      → d.set_base (d.set_base o b) (c (d.base (d.set_base o b))) ≡ d.set_base o (c b)
  base_step o b c =
      d.set_base-set_base o b (c (d.base (d.set_base o b)))
      ∙ ap (λ (x : AdbCommand). d.set_base o (c x)) (d.base-set_base o b)

  -- A command that starts has set its text, installed the callbacks, reset the flag and started
  -- the connection.
  pub begin_lem :
      (command : Bytes) (o : O)
      → begin d on_message command o ≡ d.set_base o (started command (d.base o))
  unfolding begin start_command
  begin_lem command o =
      let named : AdbCommand = record (d.base o) { command = command } in
      let connected : d.set_client_on_connection_callback (d.set_base o named)
          ≡ d.set_base o (call set_on_connection named) =
        d.set_connection_lem (d.set_base o named) ∙ base_step o named (call set_on_connection) in
      let ready : d.set_client_on_message_callback
            (d.set_client_on_connection_callback (d.set_base o named))
          ≡ d.set_base o (call set_on_message (call set_on_connection named)) =
        ap (λ (x : O). d.set_client_on_message_callback x) connected
        ∙ d.set_message_lem (d.set_base o (call set_on_connection named))
        ∙ base_step o (call set_on_connection named) (call set_on_message) in
      ap (λ (x : O). d.set_base x (start_command (d.base x))) ready
      ∙ base_step o (call set_on_message (call set_on_connection named)) start_command

  pub flag-update :
      (g : AdbCommand → AdbCommand) (f : Frame O V)
      → flag_of (update g f) ≡ (g (d.base f.object)).command_finished
  flag-update g f =
      ap (λ (b : AdbCommand). b.command_finished) (d.base-set_base f.object (g (d.base f.object)))

  -- With the flag set `waits` returns at once.
  pub waits_ended :
      (events : List Event) (f : Frame O V)
      → flag_of f ≡ 1
      → waits d on_message events f ≡ ok (f, events)
  unfolding waits
  waits_ended [] f h = rw h
  waits_ended (e ∷ events) f h = rw h

  -- Else it waits for the next callback.
  pub waits_next :
      (e : Event) (events : List Event) (f : Frame O V)
      → flag_of f ≡ 0
      → waits d on_message (e ∷ events) f
        ≡ (do g ← deliver d on_message e f; waits d on_message events g)
  unfolding waits
  waits_next e events f h = rw h

  pub waits_none : (f : Frame O V) → flag_of f ≡ 0 → waits d on_message [] f ≡ err blocked
  unfolding waits
  waits_none f h = rw h

  -- What the event loop does for one exchange: the connection, the reads, and its end.
  abbrev pub exchange : List Buffer → List Event → List Event
  exchange bufs rest = connection true ∷ (map message bufs ++ (connection false ∷ rest))

module _ {O V : Type 0} (d : Derived O) (on_message : Handler O V) (q : IsQuiet d on_message) where
  pub deliver_message :
      (buf : Buffer) (f g : Frame O V)
      → deliver d on_message (message buf) f ≡ ok g
      → (d.base g.object).command_finished ≡ (d.base f.object).command_finished
  unfolding deliver
  deliver_message buf f g h =
      let (r, handled, same) = >>=-eq-ok (on_message buf f) (λ r. ok r.0) h in
      cc (q.flag buf r.1 f r.0 handled, same)

  waits_messages :
      (bufs : List Buffer) (rest : List Event) (f : Frame O V)
      → (d.base f.object).command_finished ≡ 0
      → waits d on_message (map message bufs ++ (connection false ∷ rest)) f
        ≡ (do g ← handle_all on_message bufs f; ok (update d on_message ended g, rest))
  unfolding handle_all deliver
  waits_messages [] rest f z =
      waits_next d on_message (connection false) rest f z
      ∙ rw (deliver_down d on_message f) (
          waits_ended d on_message rest (update d on_message ended f)
            (flag-update d on_message ended f))
  waits_messages (buf ∷ bufs) rest f z =
      waits_next d on_message (message buf) _ f z ∙ elim (Result-cases (on_message buf f)) [
        | inl (r, e) ↦
            let on = deliver_message buf f r.0 (rw (e, deliver)) ∙ z in
            rw (e, deliver) (waits_messages bufs rest r.0 on)
        | inr (x, e) ↦ rw (e, deliver)
      ]

  -- A command with a message callback that leaves the flag alone, over one whole exchange: the
  -- framed text is written once, the reads go through the message callback in order, and the
  -- command returns what it left in `status` and `out`; the events behind the exchange are left for
  -- the next command. A fault of the callback is the command's.
  pub execute-exchange :
      (command : Bytes) (status : ℤ) (bufs : List Buffer) (rest : List Event) (o : O) (out : V)
      → execute d on_message command status (exchange d on_message bufs rest) o out ≡ (do
        g ← handle_all on_message bufs (record {
          object = d.set_base o (sent (started command (d.base o)));
          status = status;
          out = out;
        })
        ok (update d on_message ended g, rest))
  unfolding execute
  execute-exchange command status bufs rest o out =
      let at : O → Frame O V = λ x. record { object = x; status = status; out = out } in
      let base = started command (d.base o) in
      let events = map message bufs ++ (connection false ∷ rest) in
      let f : Frame O V = at (d.set_base o base) in
      let zero_flag : (d.base (d.set_base o base)).command_finished ≡ 0 =
        ap (λ (b : AdbCommand). b.command_finished) (d.base-set_base o base) in
      ap (λ (x : O). waits d on_message (connection true ∷ events) (at x))
        (begin_lem d on_message command o)
      ∙ waits_next d on_message (connection true) events f zero_flag
      ∙ rw (deliver_up d on_message f) (
          waits_messages bufs rest (update d on_message sent f)
            (flag-update d on_message sent f ∙ zero_flag))
      ∙ ap
          (λ (x : O). (do
            g ← handle_all on_message bufs (at x)
            ok (update d on_message ended g, rest)))
          (base_step d on_message o base sent)
