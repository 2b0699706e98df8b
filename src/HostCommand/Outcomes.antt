-- ===== src/HostCommand/Outcomes.antt =====
-- The commands to the server that look at the status of a reply only.
use adb_client.Base.{ℕ, ◌+◌, ◌<◌, ◌≤◌, List, ◌∷◌, ◌++◌, Bytes, codes, HasNoNul, negsuc, length}
use adb_client.Client.{Event}
use adb_client.Command.Outcomes.{Outcomes, execute-Outcomes}
use adb_client.HostCommand.{HostCommand, host_class, kill, connect, disconnect}

-- Each of `connect`, `disconnect` and `kill` sends its request once. It returns 0 and keeps the
-- error for an OKAY, and for a FAIL that arrives before its text; for a FAIL that arrives with its
-- text it returns -1 and appends the text to the error. The text has fewer than 65536 bytes, none
-- of them NUL, and the buffer has room for the reply.
pub connect-Outcomes :
    (size : ℕ) (rest : List Event) (o : HostCommand) (host port text : Bytes)
    → length text < 65536
    → HasNoNul text
    → length text + 12 ≤ size
    → Outcomes host_class size rest o
        (λ events. connect events o host port)
        (codes "host:connect:" ++ (host ++ (b':' ∷ port)))
        text
      × Outcomes host_class size rest o
          (λ events. disconnect events o host port)
          (codes "host:disconnect:" ++ (host ++ (b':' ∷ port)))
          text
      × Outcomes host_class size rest o (λ events. kill events o) (codes "host:kill") text
unfolding connect disconnect kill
connect-Outcomes size rest o host port text short no_nul fits =
    let replied = λ (request : Bytes).
      execute-Outcomes host_class size rest o request text (negsuc 0) short no_nul fits in
    (
      replied (codes "host:connect:" ++ (host ++ (b':' ∷ port))),
      replied (codes "host:disconnect:" ++ (host ++ (b':' ∷ port))),
      replied (codes "host:kill"),
    )
