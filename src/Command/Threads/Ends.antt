-- ===== src/Command/Threads/Ends.antt =====
-- How a command ends whose wait and whose callbacks are on two threads.
use adb_client.Base.{
  ℕ, zero, suc, ◌+◌, ◌*◌, ◌≤◌, ◌≡◌, refl, ◌⊎◌, inl, inr, true, false, List, [], ◌∷◌, ◌++◌, map,
  length, Bytes, ℤ, arith,
}
use adb_client.Client.{Buffer, Event, connection, message}
use adb_client.Command.Exchange.{IsQuiet, exchange}
use adb_client.Command.Threads.Commands.{map-OneEnd, begin-flag, returned-execute}
use adb_client.Command.Threads.Faults.{stopped-waits}
use adb_client.Command.Threads.Liveness.{Run-Follows}
use adb_client.Command.Threads.Progress.{IsOver, over, faulty, Run-bounded, has_end}
use adb_client.Command.Threads.{System, Run, Step, step, waiting, returned, stopped}
use adb_client.Command.{Derived, Frame, Handler, begin, execute}
use adb_client.Fault.{Fault, Result, ok, err}

has_end-messages :
    (bufs : List Buffer) → has_end (map message bufs ++ (connection false ∷ [])) ≡ true
has_end-messages [] = refl
has_end-messages (buf ∷ bufs) = has_end-messages bufs

length-exchange :
    (bufs : List Buffer)
    → length (connection true ∷ (map message bufs ++ (connection false ∷ []))) ≡ length bufs + 2
length-exchange [] = refl
length-exchange (buf ∷ bufs) = omega (arith, length-exchange bufs)

module _ {O V : Type 0} (d : Derived O) (on_message : Handler O V) (q : IsQuiet d on_message) where
  -- A state in which the run is over, and which a state comes to with no spurious wakeup.
  pub record Continues (events : List Event) (f : Frame O V) (s : System O V) (k : ℕ) : Type 0 where
    pub last : System O V
    pub steps : ℕ
    pub all : ℕ
    pub onward : Run d on_message s last steps 0
    pub whole : Run d on_message (waiting events f) last all k
    pub is_over : IsOver last

  module _ (command : Bytes) (status : ℤ) (bufs : List Buffer) (o : O) (out : V) where
    abbrev pub start : System O V
    start =
        waiting (exchange d on_message bufs [])
          (record { object = begin d on_message command o; status = status; out = out })

    abbrev pub outcome : Result (Frame O V × List Event)
    outcome = execute d on_message command status (exchange d on_message bufs []) o out

    -- The wait has returned with the outcome of `execute`, or its fault has stopped the event loop.
    abbrev pub Ends : System O V → Type 0
    Ends t =
        ((g : Frame O V) × (t.waiter ≡ returned g) × (outcome ≡ ok (g, [])))
        ⊎ ((x : Fault) × (t.loop ≡ stopped x) × (outcome ≡ err x))

    stopped-execute :
        (s : System O V) (x : Fault) {n k : ℕ}
        → Run d on_message start s n k
        → s.loop ≡ stopped x
        → outcome ≡ err x
    unfolding execute
    stopped-execute s x r l =
        stopped-waits d on_message q (connection true ∷ map message bufs) _ s x
          (refl, map-OneEnd d on_message bufs) (begin-flag d on_message command o) r l

    -- However the thread of a command, which waits, and the thread of the event loop, which makes
    -- the callbacks of one exchange, interleave, and however often the wait wakes up for no reason:
    -- once the wait has returned or a fault has stopped the event loop, the wait has returned what
    -- `execute` returns, or the fault is the one that `execute` comes to. The message callback
    -- leaves the flag alone.
    pub over-Ends : (t : System O V) {n k : ℕ} → Run d on_message start t n k → IsOver t → Ends t
    over-Ends t r (over g w) =
        inl (g, w, returned-execute d on_message q command status bufs o out t g r w)
    over-Ends t r (faulty x l) = inr (x, l, stopped-execute t x r l)

    -- Every way on by steps that are no spurious wakeup comes to the end of the command.
    pub data Inevitable : System O V → Type 0 where
      ended : {s : System O V} → Ends s → Inevitable s
      goes :
          {s : System O V}
          → (t : System O V) × Step d on_message s t
          → ((u : System O V) → Step d on_message s u → Inevitable u)
          → Inevitable s

    inevitable :
        (s : System O V) (fuel : ℕ) {n k : ℕ}
        → Run d on_message start s n k
        → 10 * length (exchange d on_message bufs []) + 6 + 3 * k + 1 ≤ n + fuel
        → Inevitable s
    inevitable s zero r enough =
        absurd (omega (arith, Run-bounded d on_message (exchange d on_message bufs []) _ r))
    inevitable s (suc fuel) r enough =
        elim (Run-Follows d on_message q (exchange d on_message bufs []) _ s
          (begin-flag d on_message command o) (has_end-messages bufs) r) [
            | inl is_over ↦ ended (over-Ends s r is_over)
            | inr more ↦ goes more (λ u st. inevitable u fuel (step r st) (omega arith))
          ]

    -- A command whose callbacks are those of one exchange terminates, in whatever order its thread
    -- and that of the event loop go: up to any state the threads have made ten steps for each read,
    -- 26 more, and three for every spurious wakeup, at most; and from there every way on by steps
    -- that are no spurious wakeup, of which there is one as long as the command has not ended,
    -- comes to a state where the wait has returned what `execute` returns, or the event loop has
    -- stopped at the fault that `execute` comes to. The message callback leaves the flag alone.
    pub Run-Inevitable :
        (s : System O V) {n k : ℕ}
        → Run d on_message start s n k
        → (n ≤ 10 * length bufs + 26 + 3 * k) × Inevitable s
    Run-Inevitable s {n} {k} r = (
      (let most = Run-bounded d on_message (exchange d on_message bufs []) _ r in
          omega (arith, most, length-exchange bufs)),
      inevitable s (10 * length (exchange d on_message bufs []) + 6 + 3 * k + 1) r (omega arith),
    )
