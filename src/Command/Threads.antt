-- ===== src/Command/Threads.antt =====
-- src/adb_command.cpp: `waits` and `weak_up` as the two threads that run them. The command's thread
-- waits; the event loop's thread makes the callbacks, and calls `weak_up` in the callback for the
-- end of a connection. The threads share the mutex, the condition variable and the flag, and their
-- steps interleave in any order. What is taken of the standard library: a mutex has one owner at
-- most, a wait gives the mutex back and falls asleep in one step, `notify_all` wakes a sleeping
-- thread, a sleeping thread may also wake for no reason, and a woken thread takes the mutex again.
pub mod Invariant
pub mod History
pub mod Outcome
pub mod Locals
pub mod Faults
pub mod Ends
pub mod Early
pub mod Commands
pub mod Progress
pub mod Liveness
use adb_client.Base.{ℕ, suc, ◌≡◌, Bool, true, false, List, ◌∷◌, ◌==◌}
use adb_client.Client.{Event, connection}
use adb_client.Command.{Derived, Frame, Handler, deliver}
use adb_client.Fault.{Fault, ok, err}

pub data Owner : Type 0 where
  free command_thread loop_thread : Owner

-- `waits`: before the lock, at the test of the flag, in the wait, behind it, and back in the
-- command, which reads the frame.
pub data Waiter (O V : Type 0) : Type 0 where
  locking testing asleep leaving : Waiter O V
  returned : Frame O V → Waiter O V

-- The event loop: between two callbacks, and in `weak_up` before the lock, with it, behind the
-- assignment, and behind the unlocking. A fault in a callback stops it.
pub data Loop : Type 0 where
  idle raising setting releasing notifying : Loop
  stopped : Fault → Loop

pub record System (O V : Type 0) : Type 0 where
  pub frame : Frame O V
  pub events : List Event
  pub waiter : Waiter O V
  pub loop : Loop
  pub owner : Owner

-- `notify_all`.
abbrev pub notified : {O V : Type 0} → Waiter O V → Waiter O V
notified asleep = locking
notified w = w

-- The callback in which the end of a connection is seen.
abbrev pub is_end : Event → Bool
is_end (connection false) = true
is_end _ = false

module _ {O V : Type 0} (d : Derived O) (on_message : Handler O V) where
  abbrev pub flag : System O V → ℕ
  flag s = (d.base s.frame.object).command_finished

  -- One step of one of the threads.
  pub data Step (s : System O V) : System O V → Type 0 where
    lock_waits :
        s.waiter ≡ locking
        → s.owner ≡ free
        → Step s (record s { waiter = testing; owner = command_thread })
    pass : s.waiter ≡ testing → (flag s == 1) ≡ true → Step s (record s { waiter = leaving })
    sleep :
        s.waiter ≡ testing
        → (flag s == 1) ≡ false
        → Step s (record s { waiter = asleep; owner = free })
    leave : s.waiter ≡ leaving → Step s (record s { waiter = returned s.frame; owner = free })
    callback :
        (e : Event) (rest : List Event) (f : Frame O V)
        → s.loop ≡ idle
        → s.events ≡ e ∷ rest
        → is_end e ≡ false
        → deliver d on_message e s.frame ≡ ok f
        → Step s (record s { frame = f; events = rest })
    fault :
        (e : Event) (rest : List Event) (x : Fault)
        → s.loop ≡ idle
        → s.events ≡ e ∷ rest
        → deliver d on_message e s.frame ≡ err x
        → Step s (record s { loop = stopped x })
    raise :
        (rest : List Event)
        → s.loop ≡ idle
        → s.events ≡ connection false ∷ rest
        → Step s (record s { loop = raising })
    lock_weak_up :
        s.loop ≡ raising
        → s.owner ≡ free
        → Step s (record s { loop = setting; owner = loop_thread })
    set :
        (rest : List Event) (f : Frame O V)
        → s.loop ≡ setting
        → s.events ≡ connection false ∷ rest
        → deliver d on_message (connection false) s.frame ≡ ok f
        → Step s (record s { frame = f; events = rest; loop = releasing })
    unlock_weak_up : s.loop ≡ releasing → Step s (record s { loop = notifying; owner = free })
    notify : s.loop ≡ notifying → Step s (record s { loop = idle; waiter = notified s.waiter })

  -- A wakeup for no reason.
  pub data Spurious (s : System O V) : System O V → Type 0 where
    wake : s.waiter ≡ asleep → Spurious s (record s { waiter = locking })

  -- A run, by the number of its steps and of its spurious wakeups.
  pub data Run (s : System O V) : System O V → ℕ → ℕ → Type 0 where
    here : Run s s 0 0
    step : {t u : System O V} {n k : ℕ} → Run s t n k → Step t u → Run s u (suc n) k
    spurious : {t u : System O V} {n k : ℕ} → Run s t n k → Spurious t u → Run s u n (suc k)

-- A command that is about to wait, with the callbacks that the event loop will make.
abbrev pub waiting : {O V : Type 0} → List Event → Frame O V → System O V
waiting events f = record {
  frame = f;
  events = events;
  waiter = locking;
  loop = idle;
  owner = free;
}
