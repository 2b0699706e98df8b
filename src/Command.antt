-- ===== src/Command.antt =====
-- src/adb_command.cpp: the base class of the three command classes, and what they share: the
-- request that is sent on connection, the wait for the end of the exchange, and one exchange.
pub mod Handlers
pub mod Exchange
pub mod Threads
pub mod ReadBuffer
pub mod Replies
pub mod Talk
pub mod Waits
pub mod Statuses
pub mod Filled
pub mod Splits
pub mod Outcomes
use adb_client.Base.{ℕ, ◌≡◌, Bool, true, false, List, [], ◌∷◌, ◌++◌, Bytes, ℤ, ◌==◌, if◌then◌else◌}
use adb_client.CString.{memset_zero}
use adb_client.Client.{
  Buffer, Call, set_on_connection, set_on_message, start_connect, start, write, Event, connection,
  message,
}
use adb_client.Fault.{Result, ok, err, ◌>>=◌, blocked}
use adb_client.Protocol.{frame}

-- `calls` are the calls made so far on `m_tcp_client` and its channel.
pub record AdbCommand : Type 0 where
  pub command : Bytes
  pub error : Bytes
  pub command_finished : ℕ
  pub calls : List Call

abbrev pub call : Call → AdbCommand → AdbCommand
call c b = record b { calls = b.calls ++ (c ∷ []) }

unfoldable pub weak_up : AdbCommand → AdbCommand
weak_up b = record b { command_finished = 1 }

unfoldable pub start_command : AdbCommand → AdbCommand
start_command b = call start (call start_connect (record b { command_finished = 0 }))

unfoldable pub resume : AdbCommand → AdbCommand
resume b = record b { command_finished = 0 }

-- `defualt_on_connection_callback`, which is the same text in the three classes. The argument is
-- `channel->isConnected()`. The lines on `isReconnect` only log.
unfoldable pub on_connection : Bool → AdbCommand → Result AdbCommand
on_connection true b = do str ← frame b.command; ok (call (write str) b)
on_connection false b = ok (weak_up b)

-- A class derived from `AdbCommand`, by its virtual methods, which each class overrides with the
-- same text.
pub record Derived (O : Type 0) : Type 0 where
  pub base : O → AdbCommand
  pub set_base : O → AdbCommand → O
  pub defualt_on_connection_callback : Bool → O → Result O
  pub set_client_on_connection_callback : O → O
  pub set_client_on_message_callback : O → O
  pub base-set_base : (o : O) (b : AdbCommand) → base (set_base o b) ≡ b
  pub set_base-set_base : (o : O) (b c : AdbCommand) → set_base (set_base o b) c ≡ set_base o c
  pub set_base_self : (o : O) → set_base o (base o) ≡ o
  pub connection_lem :
      (up : Bool) (o : O)
      → defualt_on_connection_callback up o ≡ (do b ← on_connection up (base o); ok (set_base o b))
  pub set_connection_lem :
      (o : O) → set_client_on_connection_callback o ≡ set_base o (call set_on_connection (base o))
  pub set_message_lem :
      (o : O) → set_client_on_message_callback o ≡ set_base o (call set_on_message (base o))

-- The object, and the two local variables of a command that its message callback captures by
-- reference: `status`, and the variable that the caller passed by reference.
pub record Frame (O V : Type 0) : Type 0 where
  pub object : O
  pub status : ℤ
  pub out : V

-- A message callback; it may change the buffer.
abbrev pub Handler : Type 0 → Type 0 → Type 0
Handler O V = Buffer → Frame O V → Result (Frame O V × Buffer)

-- `memset(buf->data(), 0, buf->size())`, the last statement of every message callback.
unfoldable pub clear : Buffer → Result Buffer
clear buf = do m ← memset_zero buf.size buf.memory; ok (record buf { memory = m })

module _ {O V : Type 0} (d : Derived O) (on_message : Handler O V) where
  open d use {
    base, set_base, defualt_on_connection_callback, set_client_on_connection_callback,
    set_client_on_message_callback,
  }

  -- The loop thread makes one callback.
  unfoldable pub deliver : Event → Frame O V → Result (Frame O V)
  deliver (connection up) f = do
    o ← defualt_on_connection_callback up f.object
    ok (record f { object = o })
  deliver (message buf) f = do r ← on_message buf f; ok r.0

  -- `waits`: the condition is tested, and again after each callback. With no event left the
  -- thread stays blocked. The events that are left are for what the caller does next.
  unfoldable pub waits : List Event → Frame O V → Result (Frame O V × List Event)
  waits [] f = if (base f.object).command_finished == 1 then ok (f, []) else err blocked
  waits (e ∷ events) f =
      let rest = (do g ← deliver e f; waits events g) in
      if (base f.object).command_finished == 1 then ok (f, e ∷ events) else rest

  -- A command up to its wait: `m_command` is set, the two callbacks are installed, the flag is
  -- reset, and the connection is started, from this thread and again by `start`.
  unfoldable pub begin : Bytes → O → O
  begin command o =
      let named = set_base o (record (base o) { command = command }) in
      let ready = set_client_on_message_callback (set_client_on_connection_callback named) in
      set_base ready (start_command (base ready))

  -- A whole command: `status` has its initial value, and its last value is returned.
  unfoldable pub execute : Bytes → ℤ → List Event → O → V → Result (Frame O V × List Event)
  execute command status events o out =
      waits events (record { object = begin command o; status = status; out = out })
