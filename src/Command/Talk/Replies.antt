-- ===== src/Command/Talk/Replies.antt =====
-- The message callbacks that store a reply or its status write nothing.
use adb_client.Base.{[], Bytes}
use adb_client.Command.Handlers.{read_into, read_status}
use adb_client.Command.Talk.{returned, IfOk-bind, IfOk-any, Talks-error, KeepsTalk, set_base-Talks}
use adb_client.Command.{AdbCommand, Derived, clear}
use adb_client.Protocol.{read_protocol_string}

module _ {O : Type 0} (d : Derived O) (request : Bytes) where
  abbrev with_error : Bytes → AdbCommand → AdbCommand
  with_error error b = record b { error = error }

  pub read_into-Keeps : KeepsTalk d (read_into d) request []
  unfolding read_into
  read_into-Keeps before buf f t =
      let b = d.base f.object in
      IfOk-bind _ (IfOk-any (read_protocol_string buf f.out b.error)) (λ r u.
        IfOk-bind _ (IfOk-any (clear buf)) (λ c u'. returned _ (
          set_base-Talks d (read_into d) request [] before f.object (with_error r.error b)
            (Talks-error r.error t))))

  pub read_status-Keeps : {V : Type 0} → KeepsTalk d (read_status d {V = V}) request []
  unfolding read_status
  read_status-Keeps {V} before buf f t =
      let b = d.base f.object in
      IfOk-bind _ (IfOk-any (read_protocol_string buf [] b.error)) (λ r u.
        IfOk-bind _ (IfOk-any (clear buf)) (λ c u'. returned _ (
          set_base-Talks d (read_status d {V = V}) request [] before f.object (with_error r.error b)
            (Talks-error r.error t))))
