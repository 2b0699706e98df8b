-- ===== src/Command/Threads/Liveness.antt =====
-- What follows a state that the two threads reach.
use adb_client.Base.{ℕ, ◌≡◌, refl, sym, ◌⊎◌, inl, inr, true, Bool-cases, List, [], ◌∷◌, ◌==◌, arith}
use adb_client.Client.{Event}
use adb_client.Command.Exchange.{IsQuiet, deliver_down}
use adb_client.Command.Threads.Invariant.{Inv, Run-Inv}
use adb_client.Command.Threads.{
  Owner, free, command_thread, loop_thread, Waiter, locking, testing, asleep, leaving, returned,
  Loop, idle, raising, setting, releasing, notifying, stopped, System, is_end, flag, Step,
  lock_waits, pass, sleep, leave, callback, fault, raise, lock_weak_up, set, unlock_weak_up, notify,
  Run, waiting,
}
use adb_client.Command.{Derived, Frame, Handler, deliver}
use adb_client.Fault.{Result-cases}
use adb_client.Command.Threads.Progress.{
  IsOver, over, faulty, IsDue, Run-IsDue, has_end, end-connection,
}

module _ {O V : Type 0} (d : Derived O) (on_message : Handler O V) where
  -- What may follow a state.
  abbrev pub Follows : System O V → Type 0
  Follows s = IsOver s ⊎ ((t : System O V) × Step d on_message s t)

  set_step : (s : System O V) → Inv d on_message s → s.loop ≡ setting → Follows s
  set_step s i l =
      let (rest, es) = i.raised (rw l refl) in
      inr (_, set rest _ l es (deliver_down d on_message s.frame))

  -- the owner of the mutex can go on
  loop_goes : (s : System O V) → Inv d on_message s → s.owner ≡ loop_thread → Follows s
  loop_goes s i o = go s.loop refl
    where
      go : (l : Loop) → s.loop ≡ l → Follows s
      go setting l = set_step s i l
      go releasing l = inr (_, unlock_weak_up l)
      go idle l = absurd (ground (arith, i.loop_owns))
      go raising l = absurd (ground (arith, i.loop_owns))
      go notifying l = absurd (ground (arith, i.loop_owns))
      go (stopped x) l = inl (faulty x l)

  next_event :
      (s : System O V) (e : Event) (rest : List Event)
      → s.loop ≡ idle
      → s.events ≡ e ∷ rest
      → Follows s
  next_event s e rest l es = elim (Bool-cases (is_end e)) [
    | inl h ↦ inr (_, raise rest l (rw (sym (end-connection e h)) es))
    | inr n ↦ elim (Result-cases (deliver d on_message e s.frame)) [
      | inl (f, o) ↦ inr (_, callback e rest f l es n o)
      | inr (x, o) ↦ inr (_, fault e rest x l es o)
    ]
  ]

  asleep_goes :
      (s : System O V) → Inv d on_message s → IsDue d on_message s → s.waiter ≡ asleep → Follows s
  asleep_goes s i h w = go s.loop refl
    where
      idle_goes : (events : List Event) → s.loop ≡ idle → s.events ≡ events → Follows s
      idle_goes [] l es = absurd (ground (arith, i.woken, h))
      idle_goes (e ∷ rest) l es = next_event s e rest l es

      owned : (o : Owner) → s.loop ≡ raising → s.owner ≡ o → Follows s
      owned free l o = inr (_, lock_weak_up l o)
      owned command_thread l o = absurd (ground (arith, i.command_owns))
      owned loop_thread l o = loop_goes s i o

      go : (l : Loop) → s.loop ≡ l → Follows s
      go idle l = idle_goes s.events l refl
      go raising l = owned s.owner l refl
      go setting l = set_step s i l
      go releasing l = inr (_, unlock_weak_up l)
      go notifying l = inr (_, notify l)
      go (stopped x) l = inl (faulty x l)

  Inv-Follows : (s : System O V) → Inv d on_message s → IsDue d on_message s → Follows s
  Inv-Follows s i h = go s.waiter refl
    where
      lock_goes : (o : Owner) → s.waiter ≡ locking → s.owner ≡ o → Follows s
      lock_goes free w o = inr (_, lock_waits w o)
      lock_goes command_thread w o = absurd (ground (arith, i.command_owns))
      lock_goes loop_thread w o = loop_goes s i o

      go : (w : Waiter O V) → s.waiter ≡ w → Follows s
      go locking w = lock_goes s.owner w refl
      go testing w = elim (Bool-cases (flag d on_message s == 1)) [
        | inl isset ↦ inr (_, pass w isset)
        | inr unset ↦ inr (_, sleep w unset)
      ]
      go asleep w = asleep_goes s i h w
      go leaving w = inr (_, leave w)
      go (returned g) w = inl (over g w)

  -- No wakeup is lost and no thread is locked out: in every state that is reached from a wait whose
  -- callbacks hold the end of a connection, the wait has returned, or a fault has stopped the event
  -- loop, or one of the threads has a step to make other than a spurious wakeup. The message
  -- callback leaves the flag alone, and the flag is 0 at first.
  pub Run-Follows :
      (q : IsQuiet d on_message) (events : List Event) (f : Frame O V) (s : System O V) {n k : ℕ}
      → (d.base f.object).command_finished ≡ 0
      → has_end events ≡ true
      → Run d on_message (waiting events f) s n k
      → Follows s
  Run-Follows q events f s z h r =
      Inv-Follows s (Run-Inv d on_message q events f z r) (Run-IsDue d on_message q events f h r)
