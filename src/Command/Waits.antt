-- ===== src/Command/Waits.antt =====
-- What `waits` returns over any events, connections, reads and ends in any order.
use adb_client.Base.{ℕ, ◌≡◌, ◌↔◌, refl, sym, ap, ◌∙◌, true, false, List, [], ◌∷◌, ◌++◌}
use adb_client.Client.{Event, connection, message}
use adb_client.Command.Exchange.{
  IsQuiet, ended, update, deliver_down, flag-update, waits_ended, waits_next, waits_none,
}
use adb_client.Command.Threads.History.{play}
use adb_client.Command.Threads.Invariant.{deliver-flag}
use adb_client.Command.Threads.Outcome.{OneEnd}
use adb_client.Command.Threads.{is_end}
use adb_client.Command.{Derived, Frame, Handler, deliver, waits}
use adb_client.Fault.{Result, ok, >>=-eq-ok, value_or}

module _ {O V : Type 0} (d : Derived O) (on_message : Handler O V) where
  -- `rest` are the events behind the first end of a connection, the callbacks for those before it
  -- return, and `g` is the frame behind them with the flag set.
  pub record Passes (events rest : List Event) (f g : Frame O V) : Type 0 where
    pub before : List Event
    pub at_end : Frame O V
    pub splits : events ≡ before ++ (connection false ∷ rest)
    pub open_before : OneEnd d on_message before
    pub delivered : play d on_message before f ≡ ok at_end
    pub flagged : g ≡ update d on_message ended at_end

  -- The events up to the end of the connection, and those that `waits` leaves.
  pub record Ends (events rest : List Event) : Type 0 where
    pub before : List Event
    pub splits : events ≡ before ++ (connection false ∷ rest)

  Passes-cons :
      (e : Event) {events rest : List Event} {f h g : Frame O V}
      → is_end e ≡ false
      → deliver d on_message e f ≡ ok h
      → Passes events rest h g
      → Passes (e ∷ events) rest f g
  unfolding play
  Passes-cons e o s p = record {
    before = e ∷ p.before;
    at_end = p.at_end;
    splits = ap (◌∷◌ e) p.splits;
    open_before = (o, p.open_before);
    delivered = rw s p.delivered;
    flagged = p.flagged;
  }

module _ {O V : Type 0} (d : Derived O) (on_message : Handler O V) (q : IsQuiet d on_message) where
  abbrev flag : Frame O V → ℕ
  flag f = (d.base f.object).command_finished

  waits-Passes :
      (events rest : List Event) (f g : Frame O V)
      → flag f ≡ 0
      → waits d on_message events f ≡ ok (g, rest)
      → Passes d on_message events rest f g
  unfolding play
  waits-Passes [] rest f g z h = absurd (cc (waits_none d on_message f z))
  waits-Passes (connection false ∷ events) rest f g z h =
      let next = sym (waits_next d on_message (connection false) events f z) ∙ h in
      let last = rw (deliver_down d on_message f) at next in
      let done =
        waits_ended d on_message events (update d on_message ended f)
          (flag-update d on_message ended f) in
      record {
        before = [];
        at_end = f;
        splits = ap (◌∷◌ (connection false)) (cc (done, last));
        open_before = tt;
        delivered = refl;
        flagged = cc (done, last);
      }
  waits-Passes (connection true ∷ events) rest f g z h =
      let next = sym (waits_next d on_message (connection true) events f z) ∙ h in
      let (f', one, later) =
        >>=-eq-ok (deliver d on_message (connection true) f) (λ x. waits d on_message events x)
          next in
      Passes-cons d on_message (connection true) refl one (
        waits-Passes events rest f' g
          (deliver-flag d on_message q (connection true) f f' refl one ∙ z) later)
  waits-Passes (message buf ∷ events) rest f g z h =
      let next = sym (waits_next d on_message (message buf) events f z) ∙ h in
      let (f', one, later) =
        >>=-eq-ok (deliver d on_message (message buf) f) (λ x. waits d on_message events x) next in
      Passes-cons d on_message (message buf) refl one (
        waits-Passes events rest f' g (deliver-flag d on_message q (message buf) f f' refl one ∙ z)
          later)

  Passes-waits :
      (before rest : List Event) (f g : Frame O V)
      → flag f ≡ 0
      → OneEnd d on_message before
      → play d on_message before f ≡ ok g
      → waits d on_message (before ++ (connection false ∷ rest)) f
        ≡ ok (update d on_message ended g, rest)
  unfolding play
  Passes-waits [] rest f g z o h =
      waits_next d on_message (connection false) rest f z
      ∙ rw (deliver_down d on_message f) (
          waits_ended d on_message rest (update d on_message ended f)
            (flag-update d on_message ended f))
      ∙ ap (λ (x : Result (Frame O V)). ok (update d on_message ended (value_or f x), rest)) h
  Passes-waits (e ∷ before) rest f g z o h =
      let (f', one, later) =
        >>=-eq-ok (deliver d on_message e f) (λ x. play d on_message before x) h in
      waits_next d on_message e (before ++ (connection false ∷ rest)) f z
      ∙ rw one
          (Passes-waits before rest f' g (deliver-flag d on_message q e f f' o.0 one ∙ z) o.1 later)

  -- With a message callback that leaves the flag alone, and the flag 0 at first, over any events:
  -- `waits` returns a frame and the events that are left exactly if the events have an end of a
  -- connection, the callbacks for the events before the first such end return one after the other,
  -- the frame is the one they leave with the flag set, and the events left are those behind that
  -- end.
  pub waits_iff :
      (events rest : List Event) (f g : Frame O V)
      → (d.base f.object).command_finished ≡ 0
      → (waits d on_message events f ≡ ok (g, rest)) ↔ Passes d on_message events rest f g
  waits_iff events rest f g z = (
    waits-Passes events rest f g z,
    λ p.
        rw p.splits
          (rw p.flagged (Passes-waits p.before rest f p.at_end z p.open_before p.delivered)),
  )

  -- With a message callback that leaves the flag alone, and the flag 0 at first, `waits` returns
  -- only behind the end of a connection: the events that it leaves are those behind such an end.
  waits-Ends :
      (events rest : List Event) (f g : Frame O V)
      → (d.base f.object).command_finished ≡ 0
      → waits d on_message events f ≡ ok (g, rest)
      → Ends d on_message events rest
  waits-Ends events rest f g z h =
      let p = waits-Passes events rest f g z h in record { before = p.before; splits = p.splits }
