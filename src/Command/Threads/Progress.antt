-- ===== src/Command/Threads/Progress.antt =====
-- How many steps the two threads make, and what they still wait for.
use adb_client.Base.{
  ℕ, ◌+◌, ◌*◌, ◌≤◌, ◌<◌, ◌≡◌, refl, ◌⊎◌, inl, inr, Bool, true, false, ◌||◌, List, [], ◌∷◌, length,
  arith,
}
use adb_client.Client.{Event, connection, message}
use adb_client.Command.Exchange.{IsQuiet}
use adb_client.Command.Threads.Invariant.{deliver-flag, deliver_end-flag}
use adb_client.Command.Threads.{
  Waiter, locking, testing, asleep, leaving, returned, Loop, idle, raising, setting, releasing,
  notifying, stopped, System, is_end, flag, Step, lock_waits, pass, sleep, leave, callback, fault,
  raise, lock_weak_up, set, unlock_weak_up, notify, wake, Run, here, step, spurious, notified,
  waiting,
}
use adb_client.Command.{Derived, Frame, Handler}
use adb_client.Fault.{Fault}

-- How far a thread is from its end, where an event stands for ten steps.
abbrev waiter_rank : {O V : Type 0} → Waiter O V → ℕ
waiter_rank locking = 3
waiter_rank testing = 2
waiter_rank leaving = 1
waiter_rank asleep = 0
waiter_rank (returned g) = 0

abbrev loop_rank : Loop → ℕ
loop_rank releasing = 9
loop_rank notifying = 8
loop_rank idle = 3
loop_rank raising = 2
loop_rank setting = 1
loop_rank (stopped x) = 0

abbrev measure : {O V : Type 0} → System O V → ℕ
measure s = 10 * length s.events + loop_rank s.loop + waiter_rank s.waiter

rank-notified : {O V : Type 0} (w : Waiter O V) → waiter_rank (notified w) ≤ waiter_rank w + 3
rank-notified w = ground arith

abbrev pub has_end : List Event → Bool
has_end [] = false
has_end (e ∷ events) = is_end e || has_end events

-- The wait has returned, or a callback has stopped the event loop by a fault.
pub data IsOver {O V : Type 0} (s : System O V) : Type 0 where
  over : (g : Frame O V) → s.waiter ≡ returned g → IsOver s
  faulty : (x : Fault) → s.loop ≡ stopped x → IsOver s

pub end-connection : (e : Event) → is_end e ≡ true → e ≡ connection false
end-connection (connection true) h = cc
end-connection (connection false) h = refl
end-connection (message buf) h = cc

module _ {O V : Type 0} (d : Derived O) (on_message : Handler O V) where
  Step-measure : {s t : System O V} → Step d on_message s t → measure t < measure s
  Step-measure {s} (lock_waits w o) = ground arith
  Step-measure {s} (pass w o) = ground arith
  Step-measure {s} (sleep w o) = ground arith
  Step-measure {s} (leave w) = ground arith
  Step-measure {s} (callback e rest f l es n h) = ground arith
  Step-measure {s} (fault e rest x l es h) = ground arith
  Step-measure {s} (raise rest l es) = ground arith
  Step-measure {s} (lock_weak_up l o) = ground arith
  Step-measure {s} (set rest f l es h) = ground arith
  Step-measure {s} (unlock_weak_up l) = ground arith
  Step-measure {s} (notify l) = ground (arith, rank-notified s.waiter)

  Run-measure :
      {s t : System O V} {n k : ℕ} → Run d on_message s t n k → measure t + n ≤ measure s + 3 * k
  Run-measure here = omega arith
  Run-measure (step r st) = omega (arith, Run-measure r, Step-measure st)
  Run-measure (spurious r (wake w)) = ground (arith, Run-measure r)

  -- The two threads of a wait on a number of callbacks make ten steps for each of them, six more,
  -- and three for every spurious wakeup, at most.
  pub Run-bounded :
      (events : List Event) (f : Frame O V) {s : System O V} {n k : ℕ}
      → Run d on_message (waiting events f) s n k
      → n ≤ 10 * length events + 6 + 3 * k
  Run-bounded events f r = omega (arith, Run-measure r)

  -- Something will set the flag, or has.
  abbrev pub IsDue : System O V → Type 0
  IsDue s = (flag d on_message s ≡ 1) ⊎ (has_end s.events ≡ true)

  module _ (q : IsQuiet d on_message) where
    Step-IsDue : {s t : System O V} → Step d on_message s t → IsDue s → IsDue t
    Step-IsDue {s} (lock_waits w o) h = h
    Step-IsDue {s} (pass w o) h = h
    Step-IsDue {s} (sleep w o) h = h
    Step-IsDue {s} (leave w) h = h
    Step-IsDue {s} (callback e rest f l es n o) h =
        ground (arith, deliver-flag d on_message q e s.frame f n o)
    Step-IsDue {s} (fault e rest x l es o) h = h
    Step-IsDue {s} (raise rest l es) h = h
    Step-IsDue {s} (lock_weak_up l o) h = h
    Step-IsDue {s} (set rest f l es o) h = inl (deliver_end-flag d on_message q s.frame f o)
    Step-IsDue {s} (unlock_weak_up l) h = h
    Step-IsDue {s} (notify l) h = h

    pub Run-IsDue :
        (events : List Event) (f : Frame O V) {s : System O V} {n k : ℕ}
        → has_end events ≡ true
        → Run d on_message (waiting events f) s n k
        → IsDue s
    Run-IsDue events f h here = inr h
    Run-IsDue events f h (step r st) = Step-IsDue st (Run-IsDue events f h r)
    Run-IsDue events f h (spurious r (wake w)) = Run-IsDue events f h r
