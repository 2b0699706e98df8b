-- ===== src/Command/Threads/Locals.antt =====
-- The local variables of a command, which its callbacks hold by reference, once it has returned.
use adb_client.Base.{
  ℕ, ◌≡◌, refl, sym, ap, ◌∙◌, true, false, List, [], ◌∷◌, ◌++◌, map, Bytes, ℤ, arith,
}
use adb_client.Client.{Buffer, Event, connection, message}
use adb_client.Command.Exchange.{IsQuiet, exchange}
use adb_client.Command.Threads.Commands.{map-OneEnd, begin-flag}
use adb_client.Command.Threads.History.{play, Run-History}
use adb_client.Command.Threads.Invariant.{Run-Inv, deliver-flag}
use adb_client.Command.Threads.Outcome.{OneEnd, played-waits, returned-waits}
use adb_client.Command.Threads.{System, Run, waiting, returned}
use adb_client.Command.{Derived, Frame, Handler, deliver, begin}
use adb_client.Fault.{Result, ok, >>=-eq-ok}

module _ {O V : Type 0} (d : Derived O) (on_message : Handler O V) where
  played-all :
      (q : IsQuiet d on_message) (before done left : List Event) (f g : Frame O V)
      → OneEnd d on_message before
      → before ++ (connection false ∷ []) ≡ done ++ left
      → play d on_message done f ≡ ok g
      → (d.base f.object).command_finished ≡ 0
      → (d.base g.object).command_finished ≡ 1
      → left ≡ []
  unfolding play
  played-all q before [] left f g n split played z o =
      let same : f ≡ g = cc in
      absurd (omega (arith, z, o, ap (λ (x : Frame O V). (d.base x.object).command_finished) same))
  played-all q [] (e ∷ []) left f g n split played z o = cc
  played-all q [] (e ∷ a ∷ done) left f g n split played z o =
      let none : ◌≡◌ {A = List Event} [] (a ∷ (done ++ left)) = cc in absurd (cc)
  played-all q (b ∷ before) (e ∷ done) left f g n split played z o =
      let same : b ≡ e = cc in
      let others : before ++ (connection false ∷ []) ≡ done ++ left = cc in
      let (f', delivered, later) =
        >>=-eq-ok (deliver d on_message e f) (λ x. play d on_message done x) played in
      let first : deliver d on_message b f ≡ ok f' = rw same delivered in
      played-all q before done left f' g n.1 others later
        (deliver-flag d on_message q b f f' n.0 first ∙ z) o

  value-ok :
      (f g : Frame O V) (xs : List Event)
      → ◌≡◌ {A = Result (Frame O V × List Event)} (ok (f, xs)) (ok (g, xs))
      → f ≡ g
  value-ok f g xs e = cc

  -- However the two threads interleave, once the wait of a command over one exchange has returned,
  -- no callback is left for the event loop, and the frame is as the wait returned it: no callback
  -- writes to the local variables of the command, which it holds by reference, when the command has
  -- returned. The message callback leaves the flag alone.
  pub returned-frame :
      (q : IsQuiet d on_message) (command : Bytes) (status : ℤ) (bufs : List Buffer) (o : O)
      (out : V) (s : System O V) (g : Frame O V) {n k : ℕ}
      → Run d on_message
          (waiting
            (exchange d on_message bufs [])
            (record { object = begin d on_message command o; status = status; out = out }))
          s
          n
          k
      → s.waiter ≡ returned g
      → (s.events ≡ []) × (s.frame ≡ g)
  returned-frame q command status bufs o out s g r e =
      let f : Frame O V = record {
        object = begin d on_message command o;
        status = status;
        out = out;
      } in
      let before = connection true ∷ map message bufs in
      let one : OneEnd d on_message before = (refl, map-OneEnd d on_message bufs) in
      let z = begin-flag d on_message command o in
      let events = exchange d on_message bufs [] in
      let h = Run-History d on_message q events f z r in
      let set = (Run-Inv d on_message q events f z r).passed (rw e refl) in
      let none = played-all q before h.done s.events f s.frame one h.split h.played z set in
      let last =
        played-waits d on_message q before h.done s.events f s.frame one h.split h.played z set in
      (
        none,
        value-ok s.frame g [] (sym last ∙ returned-waits d on_message q before f g s one z r e),
      )
