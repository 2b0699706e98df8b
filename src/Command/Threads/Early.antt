-- ===== src/Command/Threads/Early.antt =====
-- A command that returns while the event loop is still in `weak_up`.
use adb_client.Base.{ℕ, ◌≡◌, refl, sym, ◌∙◌, true, false, List, [], ◌∷◌, ◌++◌, map, Bytes, ℤ}
use adb_client.Client.{Buffer, Event, connection, message}
use adb_client.Command.Exchange.{IsQuiet, waits_next, waits_ended}
use adb_client.Command.Threads.Commands.{map-OneEnd, begin-flag}
use adb_client.Command.Threads.Ends.{start, outcome}
use adb_client.Command.Threads.History.{play}
use adb_client.Command.Threads.Invariant.{deliver-flag, deliver_end-flag}
use adb_client.Command.Threads.Outcome.{OneEnd}
use adb_client.Command.Threads.{
  System, Run, here, step, waiting, returned, notifying, free, lock_waits, pass, leave, callback,
  raise, lock_weak_up, set, unlock_weak_up,
}
use adb_client.Command.{Derived, Frame, Handler, deliver, waits, execute}
use adb_client.Fault.{Result, ok, >>=-eq-ok}

module _ {O V : Type 0} (d : Derived O) (on_message : Handler O V) where
  callbacks :
      (a : System O V) (before rest : List Event) (f g : Frame O V) {n : ℕ}
      → Run d on_message a (waiting (before ++ rest) f) n 0
      → OneEnd d on_message before
      → play d on_message before f ≡ ok g
      → (m : ℕ) × Run d on_message a (waiting rest g) m 0
  unfolding play
  callbacks a [] rest f g {n} r one played = let same : f ≡ g = cc in (n, rw (← same) r)
  callbacks a (e ∷ before) rest f g r one played =
      let (f', delivered, later) =
        >>=-eq-ok (deliver d on_message e f) (λ x. play d on_message before x) played in
      callbacks a before rest f' g
        (step r (callback e (before ++ rest) f' refl refl one.0 delivered)) one.1 later

  -- What a wait that returns behind the end of a connection has made of the callbacks before it.
  record Played (before : List Event) (f g : Frame O V) : Type 0 where
    middle : Frame O V
    played : play d on_message before f ≡ ok middle
    last : deliver d on_message (connection false) middle ≡ ok g

  waits-Played :
      (q : IsQuiet d on_message) (before : List Event) (f g : Frame O V)
      → OneEnd d on_message before
      → (d.base f.object).command_finished ≡ 0
      → waits d on_message (before ++ (connection false ∷ [])) f ≡ ok (g, [])
      → Played before f g
  unfolding play
  waits-Played q [] f g one z e =
      let (f', delivered, later) =
        >>=-eq-ok (deliver d on_message (connection false) f) (λ x. waits d on_message [] x)
          (sym (waits_next d on_message (connection false) [] f z) ∙ e) in
      let same : ◌≡◌ {A = Result (Frame O V × List Event)} (ok (f', [])) (ok (g, [])) =
        sym (waits_ended d on_message [] f' (deliver_end-flag d on_message q f f' delivered))
        ∙ later in
      let last : f' ≡ g = cc in record { middle = f; played = refl; last = rw last at delivered }
  waits-Played q (b ∷ before) f g one z e =
      let (f', delivered, later) =
        >>=-eq-ok (deliver d on_message b f)
          (λ x. waits d on_message (before ++ (connection false ∷ [])) x)
          (sym (waits_next d on_message b (before ++ (connection false ∷ [])) f z) ∙ e) in
      let p =
        waits-Played q before f' g one.1 (deliver-flag d on_message q b f f' one.0 delivered ∙ z)
          later in
      record { middle = p.middle; played = rw (delivered) p.played; last = p.last }

  -- Whatever the exchange: where a command returns, the threads can go so that it has returned
  -- before the event loop calls `notify_all` on the condition variable of its object. The message
  -- callback leaves the flag alone.
  pub returned_before_notify :
      (q : IsQuiet d on_message) (command : Bytes) (status : ℤ) (bufs : List Buffer) (o : O)
      (out : V) (g : Frame O V)
      → outcome d on_message q command status bufs o out ≡ ok (g, [])
      → (m : ℕ) × Run d on_message
          (start d on_message q command status bufs o out)
          (record { frame = g; events = []; waiter = returned g; loop = notifying; owner = free })
          m
          0
  unfolding execute
  returned_before_notify q command status bufs o out g e =
      let before = connection true ∷ map message bufs in
      let one : OneEnd d on_message before = (refl, map-OneEnd d on_message bufs) in
      let p = waits-Played q before _ g one (begin-flag d on_message command o) e in
      let isset = deliver_end-flag d on_message q p.middle g p.last in
      let (m, r) = callbacks _ before (connection false ∷ []) _ p.middle here one p.played in
      (
        _,
        step
            (step
              (step
                (step
                  (step (step (step r (raise [] refl refl)) (lock_weak_up refl refl))
                    (set [] g refl refl p.last))
                  (unlock_weak_up refl))
                (lock_waits refl refl))
              (pass refl (rw isset)))
            (leave refl),
      )
