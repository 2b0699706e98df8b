-- ===== src/Client.antt =====
-- The boundary to libhv, whose `hv::TcpClient`, `hv::SocketChannel` and `hv::Buffer` the commands
-- use: the calls that the commands make, and the callbacks that the event loop makes. What libhv
-- does with the calls, and when it makes the callbacks, is a parameter: a list of events.
use adb_client.Base.{ℕ, Bool, Bytes}

-- `hv::Buffer`: the bytes from `data()` to the end of the read buffer, and `size()`, the number of
-- bytes that were received.
pub record Buffer : Type 0 where
  pub memory : Bytes
  pub size : ℕ

-- The calls on `m_tcp_client` and on its channel, in order.
pub data Call : Type 0 where
  set_on_connection set_on_message set_on_write_complete : Call
  start_connect start stop closesocket : Call
  createsocket : ℕ → Bytes → Call
  write : Bytes → Call

-- The callbacks of the event loop: `onConnection`, with what `channel->isConnected()` returns in
-- it, and `onMessage`.
pub data Event : Type 0 where
  connection : Bool → Event
  message : Buffer → Event
