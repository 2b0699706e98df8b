-- ===== src/Command/Threads/History.antt =====
-- The callbacks that have been made in a state that the two threads reach.
use adb_client.Base.{ℕ, ◌≡◌, refl, sym, inl, inr, false, List, [], ◌∷◌, ◌++◌, append_assoc, arith}
use adb_client.Client.{Event, connection}
use adb_client.Command.Exchange.{IsQuiet}
use adb_client.Command.Threads.Invariant.{Inv, Run-Inv}
use adb_client.Command.Threads.{
  Waiter, returned, System, Step, lock_waits, pass, sleep, leave, callback, fault, raise,
  lock_weak_up, set, unlock_weak_up, notify, wake, Run, here, step, spurious, notified, waiting,
}
use adb_client.Command.{Derived, Frame, Handler, deliver}
use adb_client.Fault.{Result, ok, ◌>>=◌, Result-cases}

notified-returned :
    {O V : Type 0} (w : Waiter O V) (g : Frame O V) → notified w ≡ returned g → w ≡ returned g
notified-returned w g h = ground arith

module _ {O V : Type 0} (d : Derived O) (on_message : Handler O V) where
  -- The callbacks one after the other, whatever the flag.
  unfoldable pub play : List Event → Frame O V → Result (Frame O V)
  play [] f = ok f
  play (e ∷ events) f = do g ← deliver d on_message e f; play events g

  play-append :
      (events : List Event) (e : Event) (f : Frame O V)
      → play (events ++ (e ∷ [])) f ≡ (do g ← play events f; deliver d on_message e g)
  unfolding play
  play-append [] e f = elim (Result-cases (deliver d on_message e f)) [
    | inl (g, h) ↦ rw h
    | inr (x, h) ↦ rw h
  ]
  play-append (a ∷ events) e f = elim (Result-cases (deliver d on_message a f)) [
    | inl (g, h) ↦ rw h (play-append events e g)
    | inr (x, h) ↦ rw h
  ]

  -- The frame is that of some of the events, in order.
  pub record IsPlayed (events : List Event) (f g : Frame O V) : Type 0 where
    pub done : List Event
    pub left : List Event
    pub split : events ≡ done ++ left
    pub played : play done f ≡ ok g

  pub record History (events : List Event) (f : Frame O V) (s : System O V) : Type 0 where
    pub done : List Event
    pub split : events ≡ done ++ s.events
    pub played : play done f ≡ ok s.frame
    pub past :
        (g : Frame O V)
        → s.waiter ≡ returned g
        → IsPlayed events f g × ((d.base g.object).command_finished ≡ 1)

  module _ (q : IsQuiet d on_message) (events : List Event) (f : Frame O V) where
    next :
        (s : System O V) (h : History events f s) (e : Event) (rest : List Event) (g : Frame O V)
        → s.events ≡ e ∷ rest
        → deliver d on_message e s.frame ≡ ok g
        → (events ≡ (h.done ++ (e ∷ [])) ++ rest) × (play (h.done ++ (e ∷ [])) f ≡ ok g)
    next s h e rest g es delivered = (
      rw (append_assoc h.done (e ∷ []) rest) (rw (← es) h.split),
      rw (play-append h.done e f) (rw h.played delivered),
    )

    -- a step that makes no callback, and after which the wait has returned only if it had before
    same_events :
        {s t : System O V}
        → t.frame ≡ s.frame
        → t.events ≡ s.events
        → ((g : Frame O V) → t.waiter ≡ returned g → s.waiter ≡ returned g)
        → History events f s
        → History events f t
    same_events frame rest back h = record {
      done = h.done;
      split = rw rest h.split;
      played = rw frame h.played;
      past = λ g e. h.past g (back g e);
    }

    Step-History :
        {s t : System O V}
        → Step d on_message s t
        → Inv d on_message s
        → History events f s
        → History events f t
    Step-History {s} (lock_waits w o) i h = same_events refl refl (λ g e. absurd (cc)) h
    Step-History {s} (pass w o) i h = same_events refl refl (λ g e. absurd (cc)) h
    Step-History {s} (sleep w o) i h = same_events refl refl (λ g e. absurd (cc)) h
    Step-History {s} (leave w) i h = record {
      done = h.done;
      split = h.split;
      played = h.played;
      past = λ g e.
          let same : s.frame ≡ g = cc in
          rw (sym same) (
            record { done = h.done; left = s.events; split = h.split; played = h.played },
            i.passed (rw w refl),
          );
    }
    Step-History {s} (callback e rest g l es n delivered) i h =
        let (split, played) = next s h e rest g es delivered in
        record { done = h.done ++ (e ∷ []); split = split; played = played; past = h.past }
    Step-History {s} (fault e rest x l es o) i h = same_events refl refl (λ g e. e) h
    Step-History {s} (raise rest l es) i h = same_events refl refl (λ g e. e) h
    Step-History {s} (lock_weak_up l o) i h = same_events refl refl (λ g e. e) h
    Step-History {s} (set rest g l es delivered) i h =
        let (split, played) = next s h (connection false) rest g es delivered in
        record {
          done = h.done ++ (connection false ∷ []);
          split = split;
          played = played;
          past = h.past;
        }
    Step-History {s} (unlock_weak_up l) i h = same_events refl refl (λ g e. e) h
    Step-History {s} (notify l) i h = same_events refl refl (notified-returned s.waiter) h

    pub Run-History :
        {s : System O V} {n k : ℕ}
        → (d.base f.object).command_finished ≡ 0
        → Run d on_message (waiting events f) s n k
        → History events f s
    unfolding play
    Run-History z here = record {
      done = [];
      split = refl;
      played = refl;
      past = λ g e. absurd (cc);
    }
    Run-History z (step r st) =
        Step-History st (Run-Inv d on_message q events f z r) (Run-History z r)
    Run-History z (spurious r (wake w)) =
        let h = Run-History z r in
        record { done = h.done; split = h.split; played = h.played; past = λ g e. absurd (cc) }

    -- However the threads interleave, `waits` returns only with the flag set, to the frame that
    -- some of the callbacks, from the first one on and in order, have left. The message callback
    -- leaves the flag alone, and the flag is 0 at first.
    pub returned-IsPlayed :
        (s : System O V) (g : Frame O V) {n k : ℕ}
        → (d.base f.object).command_finished ≡ 0
        → Run d on_message (waiting events f) s n k
        → s.waiter ≡ returned g
        → IsPlayed events f g × ((d.base g.object).command_finished ≡ 1)
    returned-IsPlayed s g z r e = (Run-History z r).past g e
