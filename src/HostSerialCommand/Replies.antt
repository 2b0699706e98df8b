-- ===== src/HostSerialCommand/Replies.antt =====
-- The commands about one device that return the text of a reply.
use adb_client.Base.{ℕ, ◌≡◌, List, map, Bytes, codes, negsuc}
use adb_client.Client.{Event}
use adb_client.Command.Exchange.{exchange}
use adb_client.Command.Handlers.{read_into}
use adb_client.Command.ReadBuffer.{received_in}
use adb_client.Command.Replies.{AllText, finished, interpret_all, execute-read_into}
use adb_client.Command.{Frame}
use adb_client.Fault.{Result, ok}
use adb_client.HostSerialCommand.{
  HostSerialCommand, serial_class, host_serial, list_forward, get_device_path, get_serial_no,
  get_state,
}

module _ (size : ℕ) (rest : List Event) (o : HostSerialCommand) (out : Bytes)
    (chunks : List Bytes) where
  -- What a command with a given request returns over one exchange with these reads.
  abbrev pub read_out : Bytes → Result (Frame HostSerialCommand Bytes × List Event)
  read_out request =
      let r =
        interpret_all chunks (record { status = negsuc 0; result = out; error = o.adb.error }) in
      ok (
        record {
          object = finished serial_class o request r.error;
          status = r.status;
          out = r.result;
        },
        rest,
      )

  -- Each of `list_forward`, `get_device_path`, `get_serial_no` and `get_state` sends its request
  -- once, and returns the status, the text and the error that the reads add up to, from status -1,
  -- the caller's string and the old error. No read has a NUL, and each leaves four bytes of the
  -- buffer.
  pub queries-interpret_all :
      (serial : Bytes)
      → AllText size chunks
      → (let events =
            exchange serial_class (read_into serial_class) (map (received_in size) chunks) rest in
          (list_forward events o serial out ≡ read_out (host_serial serial (codes "list-forward")))
          × (get_device_path events o serial out
              ≡ read_out (host_serial serial (codes "get-devpath")))
          × (get_serial_no events o serial out
              ≡ read_out (host_serial serial (codes "get-serialno")))
          × (get_state events o serial out ≡ read_out (host_serial serial (codes "get-state"))))
  unfolding list_forward get_device_path get_serial_no get_state
  queries-interpret_all serial h =
      let replied = λ (request : Bytes).
        execute-read_into serial_class size chunks request (negsuc 0) rest o out h in
      (
        replied (host_serial serial (codes "list-forward")),
        replied (host_serial serial (codes "get-devpath")),
        replied (host_serial serial (codes "get-serialno")),
        replied (host_serial serial (codes "get-state")),
      )
