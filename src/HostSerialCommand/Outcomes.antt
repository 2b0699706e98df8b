-- ===== src/HostSerialCommand/Outcomes.antt =====
-- The commands about one device that look at the status of a reply only.
use adb_client.Base.{ℕ, ◌+◌, ◌<◌, ◌≤◌, List, ◌++◌, Bytes, codes, Bool, HasNoNul, negsuc, length}
use adb_client.Client.{Event}
use adb_client.Command.Outcomes.{Outcomes, execute-Outcomes}
use adb_client.HostSerialCommand.{
  HostSerialCommand, serial_class, host_serial, forward_request, forward, kill_forward,
  kill_forward_all,
}

-- Each of `forward`, `kill_forward` and `kill_forward_all` sends its request once. It returns 0 and
-- keeps the error for an OKAY, and for a FAIL that arrives before its text; for a FAIL that arrives
-- with its text it returns -1 and appends the text to the error. The text has fewer than 65536
-- bytes, none of them NUL, and the buffer has room for the reply.
pub forward-Outcomes :
    (size : ℕ) (rest : List Event) (o : HostSerialCommand) (serial local remote text : Bytes)
    (norebind : Bool)
    → length text < 65536
    → HasNoNul text
    → length text + 12 ≤ size
    → Outcomes serial_class size rest o
        (λ events. forward events o serial local remote norebind)
        (forward_request serial local remote norebind)
        text
      × Outcomes serial_class size rest o
          (λ events. kill_forward events o serial local)
          (host_serial serial (codes "killforward:" ++ local))
          text
      × Outcomes serial_class size rest o
          (λ events. kill_forward_all events o serial)
          (host_serial serial (codes "killforward-all"))
          text
unfolding forward kill_forward kill_forward_all
forward-Outcomes size rest o serial local remote text norebind short no_nul fits =
    let replied = λ (request : Bytes).
      execute-Outcomes serial_class size rest o request text (negsuc 0) short no_nul fits in
    (
      replied (forward_request serial local remote norebind),
      replied (host_serial serial (codes "killforward:" ++ local)),
      replied (host_serial serial (codes "killforward-all")),
    )
