-- ===== src/Tests/Hosts.antt =====
-- One run of the theorems on the commands to the server.
use adb_client.Base.{Bytes, ◌++◌, ◌≡◌, refl, List, [], ◌∷◌, map, arith, codes, pos, negsuc, false}
use adb_client.Command.Exchange.{exchange}
use adb_client.Command.Outcomes.{Outcomes}
use adb_client.Command.ReadBuffer.{received_in}
use adb_client.Command.Splits.{AllUntagged, okay, fail, sized}
use adb_client.Fault.{ok, ◌>>=◌}
use adb_client.HostCommand.Devices.{list_devices, listing, list_devices-okay}
use adb_client.HostCommand.Outcomes.{connect-Outcomes}
use adb_client.HostCommand.PathReads.{get_devices_with_path-interpret_all}
use adb_client.Utils.{unique_spaces, unique_from}
use adb_client.Utils.Split.{terminate}
use adb_client.Utils.Devices.Long.{long_line}
use adb_client.Tests.Devices.{long_entry}
use adb_client.HostCommand.Replies.{reads, answer, get_devices-fail, get_devices-fragments}
use adb_client.HostCommand.Version.{version_answer, get_version-okay}
use adb_client.HostCommand.VersionReads.{
  version_reads, numbers, last_number, last_status, failures, get_version-last_number,
}
use adb_client.HostCommand.{
  devices_with_path_message, get_devices_with_path, host_class, get_version, get_devices, kill,
  connect, disconnect,
}
use adb_client.HostSerialCommand.Outcomes.{forward-Outcomes}
use adb_client.HostSerialCommand.{
  serial_class, host_serial, forward_request, forward, kill_forward, kill_forward_all,
}
use adb_client.Printf.Hex.{format_04x, hex_digits, hex_digit}
use adb_client.CString.{starts_with}
use adb_client.Command.Replies.{AllText, interpret_all, finished}
use adb_client.Tests.{new_host, new_serial, has_no_nul-HasNoNul}
use adb_client.Utils.Devices.Short.{ShortEntry, AllWords, entry_info}

abbrev entries : List ShortEntry
entries = record { serial = codes "abc"; state = codes "device" } ∷ []

entries-AllWords : AllWords entries
entries-AllWords = (
  record { no_newline = refl; no_space = refl; no_tab = refl },
  record { no_newline = refl; no_space = refl; no_tab = refl },
  tt,
)

list_devices-okay_example :
    (list_devices (reads 64 (okay (listing entries) ∷ []) []) new_host
      ≡ ok (map entry_info entries))
    × (list_devices (reads 64 (codes "OKAY" ∷ sized (listing entries) ∷ []) []) new_host
        ≡ ok (map entry_info entries))
list_devices-okay_example =
    list_devices-okay 64 [] new_host entries entries-AllWords (omega arith)
      (has_no_nul-HasNoNul (listing entries) refl) (omega arith)

get_devices-fail_example :
    (get_devices (reads 64 (fail (codes "abc") ∷ []) []) new_host (codes "x")
      ≡ ok (answer 64 [] new_host (codes "x") (negsuc 0) (codes "x") (codes "abc")))
    × (get_devices (reads 64 (codes "FAIL" ∷ sized (codes "abc") ∷ []) []) new_host (codes "x")
        ≡ ok (answer 64 [] new_host (codes "x") (pos 0) (codes "xabc") []))
get_devices-fail_example =
    get_devices-fail 64 [] new_host (codes "x") (codes "abc") (omega arith)
      (has_no_nul-HasNoNul (codes "abc") refl) (omega arith)

get_version-okay_example :
    get_version (version_reads 64 (okay (format_04x 41) ∷ []) []) new_host (pos 7)
    ≡ version_answer [] new_host (pos 0) [] (pos 41)
get_version-okay_example = get_version-okay 64 [] new_host (pos 7) (omega arith) 41 (omega arith)

-- A version, and behind it a failure.
abbrev version_replies : List Bytes
version_replies = codes "OKAY00040029" ∷ codes "FAIL0002no" ∷ []

get_version-last_number_example :
    get_version (version_reads 64 version_replies []) new_host (pos 7) ≡ (do
      version ← last_number (numbers version_replies) (pos 7)
      ok (
        record {
          object =
              finished host_class new_host (codes "host:version") ([] ++ failures version_replies);
          status = last_status version_replies (negsuc 0);
          out = version;
        },
        [],
      ))
get_version-last_number_example = get_version-last_number 64 [] new_host (pos 7) version_replies (
  has_no_nul-HasNoNul (codes "OKAY00040029") refl,
  omega arith,
  (has_no_nul-HasNoNul (codes "FAIL0002no") refl, omega arith, tt),
)

connect-Outcomes_example :
    Outcomes host_class 64 [] new_host
      (λ events. connect events new_host (codes "h") (codes "1"))
      (codes "host:connect:h:1")
      (codes "no")
    × Outcomes host_class 64 [] new_host
        (λ events. disconnect events new_host (codes "h") (codes "1"))
        (codes "host:disconnect:h:1")
        (codes "no")
    × Outcomes host_class 64 [] new_host
        (λ events. kill events new_host)
        (codes "host:kill")
        (codes "no")
connect-Outcomes_example =
    connect-Outcomes 64 [] new_host (codes "h") (codes "1") (codes "no") (omega arith)
      (has_no_nul-HasNoNul (codes "no") refl) (omega arith)

forward-Outcomes_example :
    Outcomes serial_class 64 [] new_serial
      (λ events. forward events new_serial (codes "s") (codes "tcp:1") (codes "tcp:2") false)
      (forward_request (codes "s") (codes "tcp:1") (codes "tcp:2") false)
      (codes "no")
    × Outcomes serial_class 64 [] new_serial
        (λ events. kill_forward events new_serial (codes "s") (codes "tcp:1"))
        (host_serial (codes "s") (codes "killforward:tcp:1"))
        (codes "no")
    × Outcomes serial_class 64 [] new_serial
        (λ events. kill_forward_all events new_serial (codes "s"))
        (host_serial (codes "s") (codes "killforward-all"))
        (codes "no")
forward-Outcomes_example =
    forward-Outcomes 64 [] new_serial (codes "s") (codes "tcp:1") (codes "tcp:2") (codes "no") false
      (omega arith) (has_no_nul-HasNoNul (codes "no") refl) (omega arith)

abbrev padded : Bytes
padded = codes "abc     device product:p model:m device:d transport_id:12" ++ (b'\n' ∷ [])

padded_lines : unique_spaces padded ≡ terminate b'\n' (map long_line (long_entry ∷ []))
unfolding unique_spaces unique_from
padded_lines = refl

abbrev fragments : List Bytes
fragments = codes "cdefg" ∷ codes "hi" ∷ codes "jklmn" ∷ []

fragments-AllText : AllText 64 ((codes "OKAY" ++ (format_04x 14 ++ codes "ab")) ∷ fragments)
unfolding format_04x hex_digits hex_digit
fragments-AllText = (
  has_no_nul-HasNoNul (codes "OKAY000eab") refl,
  omega arith,
  (
    has_no_nul-HasNoNul (codes "cdefg") refl,
    omega arith,
    (
      has_no_nul-HasNoNul (codes "hi") refl,
      omega arith,
      (has_no_nul-HasNoNul (codes "jklmn") refl, omega arith, tt),
    ),
  ),
)

untagged : AllUntagged fragments
unfolding starts_with
untagged = ((refl, refl), ((refl, refl), ((refl, refl), tt)))

get_devices-fragments_example :
    get_devices
      (reads 64 ((codes "OKAY" ++ (format_04x 14 ++ codes "ab")) ∷ fragments) [])
      new_host
      (codes "x")
    ≡ ok (answer 64 [] new_host (codes "x") (pos 0) (codes "xabghin") [])
get_devices-fragments_example =
    get_devices-fragments 64 [] new_host (codes "x") 14 (codes "ab") fragments (omega arith)
      untagged fragments-AllText

abbrev path_chunks : List Bytes
path_chunks = codes "OKAY0003a  " ∷ codes "0004 b" ∷ []

path_chunks-AllText : AllText 64 path_chunks
path_chunks-AllText = (
  has_no_nul-HasNoNul (codes "OKAY0003a  ") refl,
  omega arith,
  (has_no_nul-HasNoNul (codes "0004 b") refl, omega arith, tt),
)

no_text_single : unique_spaces [] ≡ []
unfolding unique_spaces
no_text_single = refl

get_devices_with_path-interpret_all_example :
    get_devices_with_path
      (exchange host_class devices_with_path_message (map (received_in 64) path_chunks) [])
      new_host
      []
    ≡ (let r = interpret_all path_chunks (record { status = negsuc 0; result = []; error = [] }) in
        ok (
          record {
            object = finished host_class new_host (codes "host:devices-l") r.error;
            status = r.status;
            out = unique_spaces r.result;
          },
          [],
        ))
get_devices_with_path-interpret_all_example =
    get_devices_with_path-interpret_all 64 [] new_host [] path_chunks no_text_single
      path_chunks-AllText
