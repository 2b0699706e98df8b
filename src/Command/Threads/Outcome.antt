-- ===== src/Command/Threads/Outcome.antt =====
-- What the two threads return, against `waits` on the list of events.
use adb_client.Base.{ℕ, ◌≡◌, ap, ◌∙◌, false, List, [], ◌∷◌, ◌++◌, arith}
use adb_client.Client.{Event, connection}
use adb_client.Command.Exchange.{IsQuiet, waits_next, waits_ended}
use adb_client.Command.Threads.Invariant.{deliver-flag}
use adb_client.Command.Threads.{returned, System, is_end, Run, waiting}
use adb_client.Command.{Derived, Frame, Handler, deliver, waits}
use adb_client.Fault.{ok, >>=-eq-ok}
use adb_client.Command.Threads.History.{play, returned-IsPlayed}

module _ {O V : Type 0} (d : Derived O) (on_message : Handler O V) where
  -- No event of the list is the end of a connection, as before the one end of an exchange.
  abbrev pub OneEnd : List Event → Type 0
  OneEnd [] = Unit
  OneEnd (e ∷ events) = (is_end e ≡ false) × OneEnd events

  pub played-waits :
      (q : IsQuiet d on_message) (before done left : List Event) (f g : Frame O V)
      → OneEnd before
      → before ++ (connection false ∷ []) ≡ done ++ left
      → play d on_message done f ≡ ok g
      → (d.base f.object).command_finished ≡ 0
      → (d.base g.object).command_finished ≡ 1
      → waits d on_message (before ++ (connection false ∷ [])) f ≡ ok (g, [])
  unfolding play
  played-waits q before [] left f g n split played z o =
      let same : f ≡ g = cc in
      absurd (omega (arith, z, o, ap (λ (x : Frame O V). (d.base x.object).command_finished) same))
  played-waits q [] (e ∷ []) left f g n split played z o =
      let same : connection false ≡ e = cc in
      let (f', delivered, ends) =
        >>=-eq-ok (deliver d on_message e f) (λ x. play d on_message [] x) played in
      waits_next d on_message (connection false) [] f z
      ∙ rw (same, delivered) (let last : f' ≡ g = cc in rw last (waits_ended d on_message [] g o))
  played-waits q [] (e ∷ a ∷ done) left f g n split played z o =
      let none : ◌≡◌ {A = List Event} [] (a ∷ (done ++ left)) = cc in absurd (cc)
  played-waits q (b ∷ before) (e ∷ done) left f g n split played z o =
      let same : b ≡ e = cc in
      let others : before ++ (connection false ∷ []) ≡ done ++ left = cc in
      let (f', delivered, later) =
        >>=-eq-ok (deliver d on_message e f) (λ x. play d on_message done x) played in
      let first : deliver d on_message b f ≡ ok f' = rw same delivered in
      waits_next d on_message b (before ++ (connection false ∷ [])) f z
      ∙ rw first (
          played-waits q before done left f' g n.1 others later
            (deliver-flag d on_message q b f f' n.0 first ∙ z) o)

  -- Where the end of a connection is the last callback that the event loop makes, the frame of
  -- every run of the two threads that returns is the one that `waits` returns on the list of
  -- callbacks. The message callback leaves the flag alone, and the flag is 0 at first.
  pub returned-waits :
      (q : IsQuiet d on_message) (before : List Event) (f g : Frame O V) (s : System O V) {n k : ℕ}
      → OneEnd before
      → (d.base f.object).command_finished ≡ 0
      → Run d on_message (waiting (before ++ (connection false ∷ [])) f) s n k
      → s.waiter ≡ returned g
      → waits d on_message (before ++ (connection false ∷ [])) f ≡ ok (g, [])
  returned-waits q before f g s n z r e =
      let (p, o) =
        returned-IsPlayed d on_message q (before ++ (connection false ∷ [])) f s g z r e in
      played-waits q before p.done p.left f g n p.split p.played z o
