-- ===== src/Command/Threads/Invariant.antt =====
-- The mutex, and the wakeups: what holds in every state that the two threads reach.
use adb_client.Base.{ℕ, ◌≡◌, ◌⊎◌, Bool, true, false, List, ◌∷◌, arith}
use adb_client.Client.{Event, connection, message}
use adb_client.Command.Exchange.{
  IsQuiet, deliver_up, deliver_down, deliver_message, flag-update, sent, ended,
}
use adb_client.Command.Threads.{
  Owner, command_thread, loop_thread, Waiter, testing, asleep, leaving, returned, Loop, raising,
  setting, releasing, notifying, System, is_end, flag, Step, lock_waits, pass, sleep, leave,
  callback, fault, raise, lock_weak_up, set, unlock_weak_up, notify, Spurious, wake, Run, here,
  step, spurious, waiting,
}
use adb_client.Command.{Derived, Frame, Handler, deliver}
use adb_client.Fault.{ok}

-- Between the lock and the unlock.
abbrev pub waiter_holds : {O V : Type 0} → Waiter O V → Bool
waiter_holds testing = true
waiter_holds leaving = true
waiter_holds _ = false

abbrev pub loop_holds : Loop → Bool
loop_holds setting = true
loop_holds releasing = true
loop_holds _ = false

-- In `weak_up` with the flag not yet set.
abbrev pub will_set : Loop → Bool
will_set raising = true
will_set setting = true
will_set _ = false

-- In `weak_up` with the flag set and no `notify_all` yet.
abbrev pub will_notify : Loop → Bool
will_notify releasing = true
will_notify notifying = true
will_notify _ = false

abbrev pub owner_is_command : Owner → Bool
owner_is_command command_thread = true
owner_is_command _ = false

abbrev pub owner_is_loop : Owner → Bool
owner_is_loop loop_thread = true
owner_is_loop _ = false

abbrev pub is_asleep : {O V : Type 0} → Waiter O V → Bool
is_asleep asleep = true
is_asleep _ = false

-- Behind the test of the flag.
abbrev pub is_past : {O V : Type 0} → Waiter O V → Bool
is_past leaving = true
is_past (returned f) = true
is_past _ = false

module _ {O V : Type 0} (d : Derived O) (on_message : Handler O V) where
  pub record Inv (s : System O V) : Type 0 where
    pub command_owns : owner_is_command s.owner ≡ waiter_holds s.waiter
    pub loop_owns : owner_is_loop s.owner ≡ loop_holds s.loop
    pub binary : (flag d on_message s ≡ 0) ⊎ (flag d on_message s ≡ 1)
    pub woken : is_asleep s.waiter ≡ true → (flag d on_message s ≡ 0) ⊎ (will_notify s.loop ≡ true)
    pub passed : is_past s.waiter ≡ true → flag d on_message s ≡ 1
    pub raised : will_set s.loop ≡ true → (rest : List Event) × (s.events ≡ connection false ∷ rest)

  module _ (q : IsQuiet d on_message) where
    -- A callback that is not for the end of a connection leaves the flag as it was.
    pub deliver-flag :
        (e : Event) (f g : Frame O V)
        → is_end e ≡ false
        → deliver d on_message e f ≡ ok g
        → (d.base g.object).command_finished ≡ (d.base f.object).command_finished
    deliver-flag (connection true) f g h e =
        cc (e, deliver_up d on_message f, flag-update d on_message sent f)
    deliver-flag (connection false) f g h e = absurd (cc)
    deliver-flag (message buf) f g h e = deliver_message d on_message q buf f g e

    pub deliver_end-flag :
        (f g : Frame O V)
        → deliver d on_message (connection false) f ≡ ok g
        → (d.base g.object).command_finished ≡ 1
    deliver_end-flag f g e = cc (e, deliver_down d on_message f, flag-update d on_message ended f)

    Step-Inv : {s t : System O V} → Step d on_message s t → Inv s → Inv t
    Step-Inv {s} (lock_waits w o) i = ground arith
    Step-Inv {s} (pass w o) i = ground arith
    Step-Inv {s} (sleep w o) i = ground arith
    Step-Inv {s} (leave w) i = ground arith
    Step-Inv {s} (callback e rest f l es n h) i = ground (arith, deliver-flag e s.frame f n h)
    Step-Inv {s} (fault e rest x l es h) i = ground arith
    Step-Inv {s} (raise rest l es) i =
        let last : (r : List Event) × (s.events ≡ connection false ∷ r) = (rest, es) in
        ground (arith, last)
    Step-Inv {s} (lock_weak_up l o) i = ground arith
    Step-Inv {s} (set rest f l es h) i = ground (arith, deliver_end-flag s.frame f h)
    Step-Inv {s} (unlock_weak_up l) i = ground arith
    Step-Inv {s} (notify l) i = ground arith

    Spurious-Inv : {s t : System O V} → Spurious d on_message s t → Inv s → Inv t
    Spurious-Inv {s} (wake w) i = ground arith

    -- In every state that the threads reach from a wait with the flag 0, the mutex is held by the
    -- thread that stands between its lock and its unlock and by no other, the flag is 0 or 1, a
    -- thread that sleeps while the flag is 1 is about to be notified, a thread that is past its
    -- wait has the flag 1, and a loop that is about to set the flag does so for the end of a
    -- connection. The message callback leaves the flag alone.
    pub Run-Inv :
        (events : List Event) (f : Frame O V) {s : System O V} {n k : ℕ}
        → (d.base f.object).command_finished ≡ 0
        → Run d on_message (waiting events f) s n k
        → Inv s
    Run-Inv events f z here = ground arith
    Run-Inv events f z (step r st) = Step-Inv st (Run-Inv events f z r)
    Run-Inv events f z (spurious r st) = Spurious-Inv st (Run-Inv events f z r)
