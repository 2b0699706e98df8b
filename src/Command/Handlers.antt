-- ===== src/Command/Handlers.antt =====
-- The two message callbacks that most commands of `HostCommand` and `HostSerialCommand` install.
use adb_client.Base.{[], Bytes}
use adb_client.Command.{Derived, Handler, clear}
use adb_client.Fault.{ok, ◌>>=◌}
use adb_client.Protocol.{read_protocol_string}

module _ {O : Type 0} (d : Derived O) where
  open d use {base, set_base}

  -- `status = read_protocol_string(buf, out, m_error)`, and the `memset`.
  unfoldable pub read_into : Handler O Bytes
  read_into buf f = do
    r ← read_protocol_string buf f.out (base f.object).error
    cleared ← clear buf
    ok (
      record {
        object = set_base f.object (record (base f.object) { error = r.error });
        status = r.status;
        out = r.result;
      },
      cleared,
    )

  -- The same into a local string `data`, which is dropped.
  unfoldable pub read_status : {V : Type 0} → Handler O V
  read_status buf f = do
    r ← read_protocol_string buf [] (base f.object).error
    cleared ← clear buf
    ok (
      record f {
        object = set_base f.object (record (base f.object) { error = r.error });
        status = r.status;
      },
      cleared,
    )
