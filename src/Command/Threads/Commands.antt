-- ===== src/Command/Threads/Commands.antt =====
-- A command whose wait and whose callbacks are on two threads.
use adb_client.Base.{ℕ, ◌≡◌, refl, ap, ◌∙◌, true, List, [], ◌∷◌, map, Bytes, ℤ}
use adb_client.Client.{Buffer, connection, message}
use adb_client.Command.Exchange.{IsQuiet, exchange, begin_lem, started}
use adb_client.Command.Threads.Outcome.{OneEnd, returned-waits}
use adb_client.Command.Threads.{System, Run, waiting, returned}
use adb_client.Command.{AdbCommand, Derived, Frame, Handler, begin, execute}
use adb_client.Fault.{ok}

module _ {O V : Type 0} (d : Derived O) (on_message : Handler O V) where
  pub map-OneEnd : (bufs : List Buffer) → OneEnd d on_message (map message bufs)
  map-OneEnd [] = tt
  map-OneEnd (buf ∷ bufs) = (refl, map-OneEnd bufs)

  pub begin-flag :
      (command : Bytes) (o : O) → (d.base (begin d on_message command o)).command_finished ≡ 0
  begin-flag command o =
      ap (λ (x : O). (d.base x).command_finished) (begin_lem d on_message command o)
      ∙ ap (λ (b : AdbCommand). b.command_finished) (d.base-set_base o (started command (d.base o)))

  -- However the thread of a command, which waits, and the thread of the event loop, which makes the
  -- callbacks of one exchange, interleave, and however often the wait wakes up for no reason: where
  -- the wait returns, it returns what `execute` returns. The message callback leaves the flag
  -- alone.
  pub returned-execute :
      (q : IsQuiet d on_message) (command : Bytes) (status : ℤ) (bufs : List Buffer) (o : O)
      (out : V) (s : System O V) (g : Frame O V) {n k : ℕ}
      → Run d on_message
          (waiting
            (exchange d on_message bufs [])
            (record { object = begin d on_message command o; status = status; out = out }))
          s
          n
          k
      → s.waiter ≡ returned g
      → execute d on_message command status (exchange d on_message bufs []) o out ≡ ok (g, [])
  unfolding execute
  returned-execute q command status bufs o out s g r e =
      returned-waits d on_message q (connection true ∷ map message bufs) _ g s
        (refl, map-OneEnd bufs) (begin-flag command o) r e
