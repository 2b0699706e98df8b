-- ===== src/Protocol.antt =====
-- src/adb_protocol.cpp: the replies of the adb server, and the framing of the requests.
pub mod Read
pub mod Full
pub mod Respond
pub mod Frame
pub mod Ids
use adb_client.Base.{
  ℕ, List, [], ◌∷◌, ◌++◌, some, Bytes, codes, ℤ, pos, negsuc, length, ltb, ◌==◌, if◌then◌else◌,
}
use adb_client.CString.{c_string, c_string_from, strncmp_eq}
use adb_client.Client.{Buffer, Call, write}
use adb_client.Fault.{Result, ok, ◌>>=◌}
use adb_client.Printf.Hex.{format_04x}
use adb_client.Printf.{string_printf}

-- The return value of `read_protocol_string` and its two output strings.
pub record Reading : Type 0 where
  pub status : ℤ
  pub result : Bytes
  pub error : Bytes

-- the branch for more than four bytes: status, length and text, or length and text
read_long : Bytes → Bytes → Bytes → Result Reading
read_long memory result error = do
  okay ← strncmp_eq memory (codes "OKAY")
  if okay
      then (do
        s ← c_string_from 8 memory
        ok (record { status = pos 0; result = result ++ s; error = error }))
      else do
        fail ← strncmp_eq memory (codes "FAIL")
        if fail
            then (do
              s ← c_string_from 8 memory
              ok (record { status = negsuc 0; result = result; error = error ++ s }))
            else do
              s ← c_string_from 4 memory
              ok (record { status = pos 0; result = result ++ s; error = error })

-- the branch for four bytes
tag_status : Bytes → Result ℤ
tag_status memory = do
  okay ← strncmp_eq memory (codes "OKAY")
  if okay
      then ok (pos 0)
      else do fail ← strncmp_eq memory (codes "FAIL"); ok (if fail then negsuc 0 else pos 0)

read_tag : Bytes → Bytes → Bytes → Result Reading
unfolding tag_status
read_tag memory result error = do
  status ← tag_status memory
  ok (record { status = status; result = result; error = error })

unfoldable pub read_protocol_string : Buffer → Bytes → Bytes → Result Reading
unfolding read_long read_tag
read_protocol_string buf result error =
    if ltb 4 buf.size
    then read_long buf.memory result error
    else if buf.size == 4
    then read_tag buf.memory result error
    else do
      s ← c_string buf.memory
      ok (record { status = pos 0; result = result ++ s; error = error })

-- `StringPrintf("%04x", text.size()).append(text)`.
unfoldable pub frame : Bytes → Result Bytes
frame text = do header ← string_printf (some (format_04x (length text))); ok (header ++ text)

-- the branches of `respond_transport_command` on a buffer of four bytes
respond_tag : Bytes → Bytes → List Call → Result (ℤ × List Call)
respond_tag memory transport_cmd calls = do
  okay ← strncmp_eq memory (codes "OKAY")
  if okay then (do str ← frame transport_cmd; ok (pos 0, calls ++ (write str ∷ []))) else do
    fail ← strncmp_eq memory (codes "FAIL")
    ok (if fail then (negsuc 0, calls) else (pos 0, calls))

-- The channel's calls are appended to `calls`.
unfoldable pub respond_transport_command : Buffer → Bytes → List Call → Result (ℤ × List Call)
unfolding respond_tag
respond_transport_command buf transport_cmd calls =
    if buf.size == 4 then respond_tag buf.memory transport_cmd calls else ok (pos 0, calls)
