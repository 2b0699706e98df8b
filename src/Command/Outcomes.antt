-- ===== src/Command/Outcomes.antt =====
-- What a command that looks at the status only makes of each reply.
use adb_client.Base.{
  ℕ, ◌+◌, ◌<◌, ◌≤◌, ◌≡◌, refl, ◌∙◌, ap, List, [], ◌∷◌, ◌++◌, map, arith, Bytes, codes, HasNoNul, ℤ,
  pos, negsuc, length,
}
use adb_client.Client.{Event}
use adb_client.Command.Exchange.{exchange}
use adb_client.Command.Handlers.{read_status}
use adb_client.Command.ReadBuffer.{received_in}
use adb_client.Command.Replies.{AllText, finished}
use adb_client.Command.Splits.{fail, sized, interpret_each-status, whole-AllText, split-AllText}
use adb_client.Command.Statuses.{interpret_each, execute-read_status}
use adb_client.Command.{Derived, Frame, execute}
use adb_client.Fault.{Result, ok}
use adb_client.Protocol.{Reading}

module _ {O : Type 0} (d : Derived O) (size : ℕ) (rest : List Event) (o : O) where
  -- The events of one exchange whose reads are `chunks`, into a buffer of `size` bytes.
  abbrev pub status_reads : List Bytes → List Event
  status_reads chunks =
      exchange d (read_status d {V = Unit {0}}) (map (received_in size) chunks) rest

  -- The outcome of a command, by its request, its status and the error text of the object.
  abbrev pub outcome : Bytes → ℤ → Bytes → Result (Frame O (Unit {0}) × List Event)
  outcome request status error =
      ok (record { object = finished d o request error; status = status; out = tt }, rest)

  answered :
      (chunks : List Bytes) (request : Bytes) (status initial : ℤ) (result error : Bytes)
      → AllText size chunks
      → interpret_each chunks (record { status = initial; result = []; error = (d.base o).error })
        ≡ record { status = status; result = result; error = error }
      → execute d (read_status d) request initial (status_reads chunks) o tt
        ≡ outcome request status error
  answered chunks request status initial result error h e =
      execute-read_status d size chunks request initial rest o tt h
      ∙ ap (λ (r : Reading). outcome request r.status r.error) e

  -- What a command with a given request makes of the replies: OKAY alone, FAIL and a text in one
  -- read, and FAIL followed by the text.
  abbrev pub Outcomes :
      (List Event → Result (Frame O (Unit {0}) × List Event)) → Bytes → Bytes → Type 0
  Outcomes command request text =
      (command (status_reads (codes "OKAY" ∷ [])) ≡ outcome request (pos 0) (d.base o).error)
      × (command (status_reads (fail text ∷ []))
          ≡ outcome request (negsuc 0) ((d.base o).error ++ text))
      × (command (status_reads (codes "FAIL" ∷ sized text ∷ []))
          ≡ outcome request (pos 0) (d.base o).error)

  no_nul_in_fail : HasNoNul (codes "FAIL")
  no_nul_in_fail = (refl, (refl, (refl, (refl, tt))))

  pub execute-Outcomes :
      (request text : Bytes) (initial : ℤ)
      → length text < 65536
      → HasNoNul text
      → length text + 12 ≤ size
      → Outcomes (λ events. execute d (read_status d) request initial events o tt) request text
  execute-Outcomes request text initial short no_nul fits =
      let r : Reading = record { status = initial; result = []; error = (d.base o).error } in
      let (alone, whole, split) = interpret_each-status text short r in
      (
        answered (codes "OKAY" ∷ []) request (pos 0) initial [] (d.base o).error
            ((refl, (refl, (refl, (refl, tt)))), omega arith, tt) alone,
        answered (fail text ∷ []) request (negsuc 0) initial [] ((d.base o).error ++ text)
            (whole-AllText size text short no_nul fits (codes "FAIL") refl no_nul_in_fail) whole,
        answered (codes "FAIL" ∷ sized text ∷ []) request (pos 0) initial text (d.base o).error
            (split-AllText size text short no_nul fits (codes "FAIL") refl no_nul_in_fail) split,
      )
