-- ===== src/Command/Filled.antt =====
-- The commands that read a reply of the server, where one read fills the buffer.
use adb_client.Base.{◌≡◌, ◌∙◌, false, List, [], ◌∷◌, Bytes, HasNoNul, ℤ, length, ◌==◌}
use adb_client.Client.{Buffer, Event}
use adb_client.Command.Exchange.{exchange, execute-exchange, handle_all, sent, started}
use adb_client.Command.Handlers.{read_into, read_status}
use adb_client.Command.Replies.{read_into-IsQuiet}
use adb_client.Command.Statuses.{read_status-IsQuiet}
use adb_client.Command.{Derived, execute}
use adb_client.Fault.{err, out_of_bounds}
use adb_client.Protocol.Full.{filled, read_protocol_string-filled}

module _ {O : Type 0} (d : Derived O) (chunk : Bytes) (bufs : List Buffer) (command : Bytes)
    (status : ℤ) (rest : List Event) (o : O) where
  -- A first read with no NUL that fills the buffer, and has not just four bytes, makes a command
  -- read out of bounds, both where the command returns the text and where it looks at the status
  -- only.
  pub execute-filled :
      (out : Bytes)
      → HasNoNul chunk
      → (length chunk == 4) ≡ false
      → (execute d
            (read_into d)
            command
            status
            (exchange d (read_into d) (filled chunk ∷ bufs) rest)
            o
            out
          ≡ err out_of_bounds)
        × (execute d
              (read_status d)
              command
              status
              (exchange d (read_status d {V = Unit {0}}) (filled chunk ∷ bufs) rest)
              o
              tt
            ≡ err out_of_bounds)
  unfolding handle_all read_into read_status
  execute-filled out t h =
      let b = sent (started command (d.base o)) in
      let faulty = λ (result : Bytes).
        read_protocol_string-filled chunk result (d.base (d.set_base o b)).error t h in
      (
        execute-exchange d (read_into d) (read_into-IsQuiet d) command status (filled chunk ∷ bufs)
              rest o out
            ∙ rw (faulty out),
        execute-exchange d (read_status d) (read_status-IsQuiet d) command status
              (filled chunk ∷ bufs) rest o tt
            ∙ rw (faulty []),
      )
