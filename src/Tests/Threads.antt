-- ===== src/Tests/Threads.antt =====
-- One interleaving of the two threads of a wait.
use adb_client.Base.{ℕ, codes, ◌+◌, ◌*◌, ◌≤◌, ◌≡◌, refl, true, false, List, [], ◌∷◌, Bytes, pos}
use adb_client.Client.{Event, connection}
use adb_client.Command.Exchange.{deliver_up, deliver_down, sent, ended, update}
use adb_client.Command.Handlers.{read_into}
use adb_client.Command.Replies.{read_into-IsQuiet}
use adb_client.Command.Threads.Invariant.{Inv, Run-Inv}
use adb_client.Command.Threads.Ends.{Ends, Inevitable, over-Ends, Run-Inevitable}
use adb_client.Command.Threads.Early.{returned_before_notify}
use adb_client.Command.Threads.Progress.{over}
use adb_client.Command.Threads.Locals.{returned-frame}
use adb_client.Command.Threads.Commands.{returned-execute}
use adb_client.Command.Threads.{
  System, Run, here, step, waiting, lock_waits, sleep, callback, raise, lock_weak_up, set,
  unlock_weak_up, notify, pass, leave, returned, asleep, notifying, idle, free,
}
use adb_client.Command.{start_command, Frame, Handler, begin, execute}
use adb_client.Fault.{ok}
use adb_client.HostCommand.{
  HostCommand, host_class, set_client_on_connection_callback, set_client_on_message_callback,
}
use adb_client.Tests.{new_host}

abbrev handler : Handler HostCommand Bytes
handler = read_into host_class

abbrev first : Frame HostCommand Bytes
first = record {
  object = begin host_class handler (codes "host:kill") new_host;
  status = pos 0;
  out = [];
}

abbrev second : Frame HostCommand Bytes
second = update host_class handler sent first

abbrev third : Frame HostCommand Bytes
third = update host_class handler ended second

abbrev events : List Event
events = connection true ∷ connection false ∷ []

abbrev last : System HostCommand Bytes
last = record { frame = third; events = []; waiter = returned third; loop = idle; owner = free }

first-flag : (host_class.base first.object).command_finished ≡ 0
unfolding begin start_command set_client_on_connection_callback set_client_on_message_callback
first-flag = refl

-- The command's thread falls asleep first, and is woken.
slept : Run host_class handler (waiting events first) last 11 0
unfolding begin start_command set_client_on_connection_callback set_client_on_message_callback
slept =
    step
      (step
        (step
          (step
            (step
              (step
                (step
                  (step
                    (step (step (step here (lock_waits refl refl)) (sleep refl refl)) (
                      callback (connection true) (connection false ∷ []) second refl refl refl
                        (deliver_up host_class handler first)))
                    (raise [] refl refl))
                  (lock_weak_up refl refl))
                (set [] third refl refl (deliver_down host_class handler second)))
              (unlock_weak_up refl))
            (notify refl))
          (lock_waits refl refl))
        (pass refl refl))
      (leave refl)

abbrev asleep_first : System HostCommand Bytes
asleep_first = record { frame = first; events = events; waiter = asleep; loop = idle; owner = free }

fallen_asleep : Run host_class handler (waiting events first) asleep_first 2 0
unfolding begin start_command set_client_on_connection_callback set_client_on_message_callback
fallen_asleep = step (step here (lock_waits refl refl)) (sleep refl refl)

Run-Inv_example : Inv host_class handler last
Run-Inv_example =
    Run-Inv host_class handler (read_into-IsQuiet host_class) events first first-flag slept

over-Ends_example :
    Ends host_class handler
      (read_into-IsQuiet host_class)
      (codes "host:kill")
      (pos 0)
      []
      new_host
      []
      last
over-Ends_example =
    over-Ends host_class handler (read_into-IsQuiet host_class) (codes "host:kill") (pos 0) []
      new_host [] last slept (over third refl)

Run-Inevitable_example :
    (2 ≤ 10 * 0 + 26 + 3 * 0)
    × Inevitable host_class handler
        (read_into-IsQuiet host_class)
        (codes "host:kill")
        (pos 0)
        []
        new_host
        []
        asleep_first
Run-Inevitable_example =
    Run-Inevitable host_class handler (read_into-IsQuiet host_class) (codes "host:kill") (pos 0) []
      new_host [] asleep_first fallen_asleep

executed :
    execute host_class handler (codes "host:kill") (pos 0) events new_host [] ≡ ok (third, [])
executed =
    returned-execute host_class handler (read_into-IsQuiet host_class) (codes "host:kill") (pos 0)
      [] new_host [] last third slept refl

returned_before_notify_example :
    (m : ℕ) × Run host_class handler
      (waiting events first)
      (record {
        frame = third;
        events = [];
        waiter = returned third;
        loop = notifying;
        owner = free;
      })
      m
      0
returned_before_notify_example =
    returned_before_notify host_class handler (read_into-IsQuiet host_class) (codes "host:kill")
      (pos 0) [] new_host [] third executed

returned-frame_example : (last.events ≡ []) × (last.frame ≡ third)
returned-frame_example =
    returned-frame host_class handler (read_into-IsQuiet host_class) (codes "host:kill") (pos 0) []
      new_host [] last third slept refl
