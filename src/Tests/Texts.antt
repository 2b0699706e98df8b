-- ===== src/Tests/Texts.antt =====
-- One run of the theorems on texts, numbers and names.
use adb_client.Requests.{Rule, read_forward, read_reverse, read_port, requests_read_back}
use adb_client.Client.{Event}
use adb_client.Command.Handlers.{read_status}
use adb_client.Command.{execute}
use adb_client.LocalCommand.Handlers.{LocalCommand}
use adb_client.HostSerialCommand.{HostSerialCommand, serial_class, forward}
use adb_client.LocalCommand.{request, reverse, tcpip}
use adb_client.CString.{starts_with}
use adb_client.Base.{
  true, ◌<◌, ◌^◌, false, ◌≡◌, ◌≢◌, refl, List, [], ◌∷◌, ◌++◌, arith, Bytes, codes, length,
  if◌then◌else◌, ltb, none, some, negsuc,
}
use adb_client.Protocol.Ids.{bytes_of, id_of, id_okay, bytes_of-id_of}
use adb_client.Fault.{ok}
use adb_client.Printf.Append.{string_append_v_lem}
use adb_client.Printf.{int_max, string_append_v}
use adb_client.Utils.Spaces.{IsSingleSpaced, non_empty, unique_spaces_lem}
use adb_client.Utils.Split.{terminate, get_lines_from_buf-terminate}
use adb_client.Utils.Stream.{split_loop, split_loop-string_split}
use adb_client.Utils.{string_split, unique_spaces, get_lines_from_buf}

abbrev words : List Bytes
words = codes "ab" ∷ [] ∷ codes "c" ∷ []

split_loop-string_split_example :
    split_loop 7 (record { rest = codes "a b c"; eof = false }) b' ' []
    ≡ some (string_split (codes "a b c") b' ')
split_loop-string_split_example = split_loop-string_split (codes "a b c") b' ' 7 (omega arith)

get_lines_from_buf-terminate_example :
    get_lines_from_buf (codes "old" ∷ []) (terminate b'\n' words ++ codes "rest")
    ≡ (codes "old" ∷ []) ++ words
get_lines_from_buf-terminate_example =
    get_lines_from_buf-terminate (codes "old" ∷ []) words (codes "rest") (refl, (refl, (refl, tt)))
      refl

unique_spaces_lem_example :
    IsSingleSpaced (unique_spaces (codes "a   b "))
    × (non_empty (string_split (unique_spaces (codes "a   b ")) b' ')
        ≡ non_empty (string_split (codes "a   b ") b' '))
unique_spaces_lem_example = unique_spaces_lem (codes "a   b ")

short_text : length (codes "0001") ≢ int_max
short_text e = absurd (omega (arith, e))

string_append_v_lem_example :
    (string_append_v (codes "x") (some (codes "0001"))
      ≡ ok (if ltb (length (codes "0001")) int_max then codes "x0001" else codes "x"))
    × (string_append_v (codes "x") none ≡ ok (codes "x"))
string_append_v_lem_example = string_append_v_lem (codes "x") (codes "0001") short_text

bytes_of-id_of_example : (bytes_of (id_of id_okay) ≡ codes "OKAY") × (id_of id_okay < 2 ^ 31)
bytes_of-id_of_example = bytes_of-id_of id_okay

no_flag : starts_with (codes "tcp:1") (codes "norebind:") ≡ false
unfolding starts_with
no_flag = refl

abbrev rule : Rule
rule = record { norebind = true; local = codes "tcp:1"; remote = codes "tcp:2" }

requests_read_back_example :
    ((text : Bytes) × ((events : List Event) (o : HostSerialCommand)
        → forward events o (codes "s") (codes "tcp:1") (codes "tcp:2") true
          ≡ execute serial_class (read_status serial_class) text (negsuc 0) events o tt)
      × (read_forward text ≡ some (codes "s", rule)))
    × ((service : Bytes) × ((events : List Event) (o : LocalCommand)
          → reverse events o (codes "s") (codes "tcp:1") (codes "tcp:2") true
            ≡ request events o (codes "s") service)
        × (read_reverse service ≡ some rule))
    × ((service : Bytes) × ((events : List Event) (o : LocalCommand)
          → tcpip events o (codes "s") 5555 ≡ request events o (codes "s") service)
        × (read_port service ≡ some (some 5555)))
requests_read_back_example =
    requests_read_back (codes "s") (codes "tcp:1") (codes "tcp:2") true 5555 refl refl no_flag
      (omega arith)
