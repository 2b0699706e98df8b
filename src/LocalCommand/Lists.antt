-- ===== src/LocalCommand/Lists.antt =====
-- `list_reverse`, whose list may arrive in any number of reads.
use adb_client.Base.{
  ℕ, ◌+◌, ◌-◌, ◌≤◌, ◌≡◌, ◌∙◌, Bool-cases, inl, inr, List, [], ◌∷◌, ◌++◌, append-nil, append_assoc,
  map, arith, Bytes, codes, HasNoNul, ℤ, pos, negsuc, length, equal, drop, if◌then◌else◌,
}
use adb_client.Client.{Event}
use adb_client.Command.Exchange.{
  IsQuiet, flag_of-ok, exchange, execute-exchange, handle_all, sent, started, ended,
}
use adb_client.Command.ReadBuffer.{received_in, zeroed, clear-received}
use adb_client.Command.{AdbCommand, Frame, clear}
use adb_client.CString.{contains, strstr_found}
use adb_client.Fault.{ok, >>=-eq-ok}
use adb_client.LocalCommand.Handlers.{
  LocalCommand, local_class, list_reverse_message, reverse_list_of,
}
use adb_client.LocalCommand.Services.{AllFit, respond, respond_all, okay_not_fail}
use adb_client.LocalCommand.{transport_request, list_reverse}
use adb_client.Protocol.Read.{received, c_string-drop}
use adb_client.Protocol.{respond_transport_command}
use adb_client.Protocol.Respond.{respond_transport_command-received}

abbrev pub service : Bytes
service = codes "reverse:list-forward"

list_reverse_message-IsQuiet : IsQuiet local_class (list_reverse_message service)
unfolding list_reverse_message
list_reverse_message-IsQuiet = record {
  flag = λ buf cleared f g h.
      let (r, responds, h') =
        >>=-eq-ok (respond_transport_command buf service f.object.adb.calls) _ h in
      let (s, appends, h'') = >>=-eq-ok (reverse_list_of r.0 buf.memory f.out) _ h' in
      let (c, clears, same) = >>=-eq-ok (clear buf) _ h'' in
      flag_of-ok local_class (list_reverse_message service) same;
}

-- The frame of a base part, a status and the list so far.
abbrev pub list_frame : LocalCommand → AdbCommand → ℤ → Bytes → Frame LocalCommand Bytes
list_frame o b status out = record { object = record o { adb = b }; status = status; out = out }

-- What a read adds to the list.
unfoldable pub listed : Bytes → Bytes
listed chunk = if contains chunk (codes "OKAY") then drop 8 chunk else drop 4 chunk

reverse_list_of-received :
    (chunk old : Bytes) (room : ℕ)
    → HasNoNul chunk
    → 8 ≤ length chunk + room
    → reverse_list_of (pos 0) (received room chunk).memory old ≡ ok (old ++ listed chunk)
unfolding reverse_list_of listed strstr_found
reverse_list_of-received chunk old room t h =
    rw (c_string-drop 0 room chunk (omega arith) t)
      (elim (Bool-cases (contains chunk (codes "OKAY"))) [
        | inl found ↦ rw found (rw (c_string-drop 8 room chunk h t))
        | inr none ↦ rw none (rw (c_string-drop 4 room chunk (omega arith) t))
      ])

-- What a read adds to the list: nothing if it is FAIL and nothing else.
abbrev pub added : Bytes → Bytes
added chunk = if equal chunk (codes "FAIL") then [] else listed chunk

abbrev pub added_all : List Bytes → Bytes
added_all [] = []
added_all (chunk ∷ chunks) = added chunk ++ added_all chunks

list_reverse_message-received :
    (chunk : Bytes) (room : ℕ) (o : LocalCommand) (b : AdbCommand) (status : ℤ) (out : Bytes)
    → HasNoNul chunk
    → 8 ≤ length chunk + room
    → list_reverse_message service (received room chunk) (list_frame o b status out)
      ≡ ok (
        list_frame o (respond service chunk b).1 (respond service chunk b).0 (out ++ added chunk),
        zeroed room chunk,
      )
unfolding list_reverse_message respond reverse_list_of
list_reverse_message-received chunk room o b status out t h =
    rw (respond_transport_command-received room chunk service b.calls, list_reverse_message)
      (elim (Bool-cases (equal chunk (codes "OKAY"))) [
        | inl okay ↦
            rw (okay, okay_not_fail chunk okay)
              (rw (reverse_list_of-received chunk out room t h) (rw (clear-received room chunk)))
        | inr other ↦ rw other (elim (Bool-cases (equal chunk (codes "FAIL"))) [
          | inl fail ↦ rw fail (rw (clear-received room chunk) (rw (append-nil out)))
          | inr neither ↦
              rw neither
                (rw (reverse_list_of-received chunk out room t h) (rw (clear-received room chunk)))
        ])
      ])

handle_all-added :
    (size : ℕ) (chunks : List Bytes) (o : LocalCommand) (r : ℤ × AdbCommand) (out : Bytes)
    → 9 ≤ size
    → AllFit size chunks
    → handle_all
        (list_reverse_message service)
        (map (received_in size) chunks)
        (list_frame o r.1 r.0 out)
      ≡ (let s = respond_all service chunks r in
          ok (list_frame o s.1 s.0 (out ++ added_all chunks)))
unfolding handle_all respond_all
handle_all-added size [] o r out nine h = rw (append-nil out)
handle_all-added size (chunk ∷ chunks) o r out nine h =
    rw
      (list_reverse_message-received chunk (size - length chunk - 1) o r.1 r.0 out h.0
        (omega (arith, h.1)))
      (rw (handle_all-added size chunks o (respond service chunk r.1) (out ++ added chunk) nine h.2)
        (rw (append_assoc out (added chunk) (added_all chunks))))

module _ (size : ℕ) (rest : List Event) (o : LocalCommand) (serial out : Bytes)
    (chunks : List Bytes) where
  -- Over any reads, `list_reverse` writes its service for every read that is OKAY and nothing else,
  -- and adds to the caller's string, read by read, the bytes behind the first four, or behind the
  -- first eight where OKAY stands anywhere in the read, and nothing for a read that is FAIL and
  -- nothing else: a list that goes on in a further read loses its first four bytes. The status is
  -- -1 if the last read is FAIL and nothing else, or if there is none, and else 0. No read has a
  -- NUL, and each leaves a byte of the buffer, which has nine or more.
  pub list_reverse-added_all :
      9 ≤ size
      → AllFit size chunks
      → list_reverse
          (exchange local_class (list_reverse_message service) (map (received_in size) chunks) rest)
          o
          serial
          out
        ≡ (let r =
              respond_all service chunks
                (negsuc 0, sent (started (transport_request serial) o.adb)) in
            ok (
              record {
                object = record o { adb = ended r.1 };
                status = r.0;
                out = out ++ added_all chunks;
              },
              rest,
            ))
  unfolding list_reverse
  list_reverse-added_all nine h =
      let b = sent (started (transport_request serial) o.adb) in
      execute-exchange local_class (list_reverse_message service) list_reverse_message-IsQuiet
        (transport_request serial) (negsuc 0) (map (received_in size) chunks) rest o out
      ∙ rw (handle_all-added size chunks o (negsuc 0, b) out nine h)
