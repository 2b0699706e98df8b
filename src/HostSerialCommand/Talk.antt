-- ===== src/HostSerialCommand/Talk.antt =====
-- What the commands of `HostSerialCommand` write, whatever the callbacks are.
use adb_client.Base.{Bool, List, [], ◌++◌, Bytes, codes, negsuc}
use adb_client.Client.{Event}
use adb_client.Command.Exchange.{started}
use adb_client.Command.Handlers.{read_into, read_status}
use adb_client.Command.Talk.Replies.{read_into-Keeps, read_status-Keeps}
use adb_client.Command.Talk.{IfOk, Talks, execute-Talks}
use adb_client.Command.{Frame}
use adb_client.Fault.{Result}
use adb_client.HostSerialCommand.{
  HostSerialCommand, serial_class, host_serial, forward_request, forward, list_forward,
  kill_forward, kill_forward_all, get_device_path, get_serial_no, get_state,
}

-- What is known of the outcome of a command on an object, by its request.
abbrev pub Outcome :
    HostSerialCommand
    → {V : Type 0} → Bytes
    → Result (Frame HostSerialCommand V × List Event)
    → Type 0
Outcome o request r = IfOk (λ x. Talks request [] (started request o.adb).calls x.0.object.adb) r

module _ (events : List Event) (o : HostSerialCommand) (serial : Bytes) where
  -- Every command writes nothing but its request.
  abbrev pub AllTalk : Bytes → Bytes → Bytes → Bool → Type 0
  AllTalk out local remote norebind =
      Outcome o (forward_request serial local remote norebind)
        (forward events o serial local remote norebind)
      × Outcome o (host_serial serial (codes "list-forward")) (list_forward events o serial out)
      × Outcome o (host_serial serial (codes "killforward:" ++ local))
          (kill_forward events o serial local)
      × Outcome o (host_serial serial (codes "killforward-all")) (kill_forward_all events o serial)
      × Outcome o (host_serial serial (codes "get-devpath")) (get_device_path events o serial out)
      × Outcome o (host_serial serial (codes "get-serialno")) (get_serial_no events o serial out)
      × Outcome o (host_serial serial (codes "get-state")) (get_state events o serial out)

  pub commands-AllTalk :
      (out local remote : Bytes) (norebind : Bool) → AllTalk out local remote norebind
  unfolding forward list_forward kill_forward kill_forward_all get_device_path get_serial_no
      get_state
  commands-AllTalk out local remote norebind =
      let status = λ (request : Bytes).
        execute-Talks serial_class (read_status serial_class) request []
          (read_status-Keeps serial_class request) (negsuc 0) events o tt in
      let stored = λ (request : Bytes).
        execute-Talks serial_class (read_into serial_class) request []
          (read_into-Keeps serial_class request) (negsuc 0) events o out in
      (
        status (forward_request serial local remote norebind),
        stored (host_serial serial (codes "list-forward")),
        status (host_serial serial (codes "killforward:" ++ local)),
        status (host_serial serial (codes "killforward-all")),
        stored (host_serial serial (codes "get-devpath")),
        stored (host_serial serial (codes "get-serialno")),
        stored (host_serial serial (codes "get-state")),
      )
