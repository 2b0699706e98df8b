-- ===== src/Protocol/Respond.antt =====
-- `respond_transport_command` on a buffer as it is received.
use adb_client.Base.{
  ℕ, ◌≡◌, List, [], ◌∷◌, ◌++◌, arith, Bytes, codes, pos, negsuc, length, if◌then◌else◌, equal,
}
use adb_client.CString.{strncmp_eq}
use adb_client.Client.{Call, write}
use adb_client.Fault.{ok}
use adb_client.Printf.Hex.{format_04x}
use adb_client.Protocol.{respond_transport_command}
use adb_client.Protocol.Frame.{frame_lem}
use adb_client.Protocol.Read.{received}

abbrev okay : Bytes
okay = codes "OKAY"

abbrev fail : Bytes
fail = codes "FAIL"

-- On the four bytes OKAY the framed command is written, and the status is 0.
-- On the four bytes FAIL nothing is written, and the status is -1.
-- On anything else nothing is written, and the status is 0.
pub respond_transport_command-received :
    (room : ℕ) (chunk transport_cmd : Bytes) (calls : List Call)
    → respond_transport_command (received room chunk) transport_cmd calls ≡ (
        if equal chunk (codes "OKAY")
        then ok (pos 0, calls ++ (write (format_04x (length transport_cmd) ++ transport_cmd) ∷ []))
        else if equal chunk (codes "FAIL")
        then ok (negsuc 0, calls)
        else ok (pos 0, calls))
unfolding respond_transport_command equal strncmp_eq
respond_transport_command-received room (a ∷ b ∷ c ∷ d ∷ []) transport_cmd calls =
    ground (arith, frame_lem transport_cmd)
respond_transport_command-received room _ transport_cmd calls = ground arith
