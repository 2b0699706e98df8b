-- ===== src/Main/Session.antt =====
-- What the runs of the example programs share: the exchanges with a server, and what is written.
use adb_client.Base.{
  ℕ, ◌+◌, ◌<◌, ◌≤◌, ◌≡◌, refl, ap, true, false, List, [], ◌∷◌, ◌++◌, map, append-nil, Bytes,
  HasNoNul, length,
}
use adb_client.Client.{
  Call, write, set_on_connection, set_on_message, set_on_write_complete, start_connect, start, stop,
  closesocket, createsocket, Event, connection, message,
}
use adb_client.Command.ReadBuffer.{received_in}
use adb_client.Command.{AdbCommand}
use adb_client.Main.{closed}
use adb_client.Printf.Hex.{format_04x}

-- The events of one exchange, whose reads are `chunks`.
abbrev pub served : ℕ → List Bytes → List Event → List Event
served size chunks rest =
    connection true ∷ (map message (map (received_in size) chunks) ++ (connection false ∷ rest))

-- A text that the buffer holds in one read.
abbrev pub IsReply : ℕ → Bytes → Type 0
IsReply size text = (length text < 65536) × HasNoNul text × (length text + 12 ≤ size)

-- What is written to the server.
abbrev pub writes : List Call → List Bytes
writes [] = []
writes (write s ∷ calls) = s ∷ writes calls
writes (_ ∷ calls) = writes calls

-- A request behind its length.
abbrev pub framed : Bytes → Bytes
framed request = format_04x (length request) ++ request

pub writes-append : (a b : List Call) → writes (a ++ b) ≡ writes a ++ writes b
writes-append [] b = refl
writes-append (write s ∷ a) b = ap (◌∷◌ s) (writes-append a b)
writes-append (set_on_connection ∷ a) b = writes-append a b
writes-append (set_on_message ∷ a) b = writes-append a b
writes-append (set_on_write_complete ∷ a) b = writes-append a b
writes-append (start_connect ∷ a) b = writes-append a b
writes-append (start ∷ a) b = writes-append a b
writes-append (stop ∷ a) b = writes-append a b
writes-append (closesocket ∷ a) b = writes-append a b
writes-append (createsocket port host ∷ a) b = writes-append a b

pub writes-closed : (b : AdbCommand) → writes (closed b).calls ≡ writes b.calls
writes-closed b = simp (writes-append, append-nil)
