-- ===== src/HostCommand/VersionReads.antt =====
-- `get_version`, whose reply may arrive in any number of reads.
use adb_client.Base.{
  ℕ, ◌≤◌, HasNoNul, ◌-◌, ◌≡◌, ◌∙◌, Bool, Bool-cases, inl, inr, not, ◌&&◌, List, [], ◌∷◌, ◌++◌, map,
  append-nil, append_assoc, arith, Bytes, codes, ℤ, negsuc, length, equal, is_minus_one,
  if◌then◌else◌,
}
use adb_client.Client.{Event}
use adb_client.Command.Exchange.{
  IsQuiet, flag_of-ok, exchange, execute-exchange, handle_all, sent, started,
}
use adb_client.Command.ReadBuffer.{received_in, zeroed, clear-received}
use adb_client.Command.Replies.{AllText, finished}
use adb_client.Command.{Frame, clear}
use adb_client.Fault.{Result, ok, ◌>>=◌, Result-cases, >>=-eq-ok}
use adb_client.HostCommand.{HostCommand, host_class, version_message, get_version}
use adb_client.Number.{stoi_hex}
use adb_client.Protocol.Read.{received, interpret, read_protocol_string-received}
use adb_client.Protocol.{Reading, read_protocol_string}

version_message-IsQuiet : IsQuiet host_class version_message
unfolding version_message
version_message-IsQuiet = record {
  flag = λ buf cleared f g h.
      let (r, reads, h') = >>=-eq-ok (read_protocol_string buf [] f.object.adb.error) _ h in
      let (v, values, h'') =
        >>=-eq-ok
          (if not (is_minus_one r.status) && not (equal r.result [])
            then stoi_hex r.result
            else ok f.out)
          _ h' in
      let (c, clears, same) = >>=-eq-ok (clear buf) _ h'' in
      flag_of-ok host_class version_message same;
}

-- What the text of a reading does to `version`.
unfoldable pub version_of : Reading → ℤ → Result ℤ
version_of r version =
    if not (is_minus_one r.status) && not (equal r.result []) then stoi_hex r.result else ok version

version_message-received :
    (room : ℕ) (chunk : Bytes) (f : Frame HostCommand ℤ) (r : Reading)
    → HasNoNul chunk
    → 3 ≤ room
    → interpret chunk [] f.object.adb.error ≡ r
    → version_message (received room chunk) f ≡ (do
      version ← version_of r f.out
      ok (
        record {
          object = record (f.object) { adb = record (f.object.adb) { error = r.error } };
          status = r.status;
          out = version;
        },
        zeroed room chunk,
      ))
unfolding version_message version_of
version_message-received room chunk f r t h e =
    rw (read_protocol_string-received room chunk [] f.object.adb.error h t, version_message)
      (rw e (rw (clear-received room chunk)))

-- The events of one exchange whose reads are `chunks`, into a buffer of `size` bytes.
abbrev pub version_reads : ℕ → List Bytes → List Event → List Event
version_reads size chunks rest =
    exchange host_class version_message (map (received_in size) chunks) rest

-- The reading of a read by itself.
abbrev pub reading : Bytes → Reading
reading chunk = interpret chunk [] []

-- A read whose text is taken for a number.
abbrev pub is_number : Bytes → Bool
is_number chunk = not (is_minus_one (reading chunk).status) && not (equal (reading chunk).result [])

-- The texts that are taken for numbers.
abbrev pub numbers : List Bytes → List Bytes
numbers [] = []
numbers (chunk ∷ chunks) =
    if is_number chunk then (reading chunk).result ∷ numbers chunks else numbers chunks

-- The last of the numbers, or else the old version; the first that is none is a fault.
unfoldable pub last_number : List Bytes → ℤ → Result ℤ
last_number [] version = ok version
last_number (text ∷ texts) version = do v ← stoi_hex text; last_number texts v

-- The status of the last read, or else the old one.
unfoldable pub last_status : List Bytes → ℤ → ℤ
last_status [] status = status
last_status (chunk ∷ chunks) status = last_status chunks (reading chunk).status

-- The texts of the failures, one behind the other.
unfoldable pub failures : List Bytes → Bytes
failures [] = []
failures (chunk ∷ chunks) = (reading chunk).error ++ failures chunks

pub interpret-reading :
    (chunk error : Bytes)
    → interpret chunk [] error ≡ record (reading chunk) { error = error ++ (reading chunk).error }
unfolding interpret
interpret-reading chunk error = ground (arith, append-nil error)

abbrev version_frame : HostCommand → Bytes → ℤ → ℤ → Frame HostCommand ℤ
version_frame o error status out = record {
  object = record o { adb = record (o.adb) { error = error } };
  status = status;
  out = out;
}

handle_all-version :
    (size : ℕ) (chunks : List Bytes) (o : HostCommand) (error : Bytes) (status out : ℤ)
    → AllText size chunks
    → handle_all version_message (map (received_in size) chunks) (version_frame o error status out)
      ≡ (do
        version ← last_number (numbers chunks) out
        ok (version_frame o (error ++ failures chunks) (last_status chunks status) version))
unfolding handle_all last_number last_status failures version_of
handle_all-version size [] o error status out h = rw (append-nil error)
handle_all-version size (chunk ∷ chunks) o error status out h =
    let r = reading chunk in
    let later = λ (v : ℤ).
      rw (append_assoc error r.error (failures chunks)) at
        (handle_all-version size chunks o (error ++ r.error) r.status v h.2) in
    rw
      (version_message-received (size - length chunk - 1) chunk (version_frame o error status out)
        (record r { error = error ++ r.error }) h.0 (omega arith) (interpret-reading chunk error))
      (elim (Bool-cases (is_number chunk)) [
        | inl is ↦ rw is (elim (Result-cases (stoi_hex r.result)) [
          | inl (v, e) ↦ rw e (later v)
          | inr (x, e) ↦ rw e
        ])
        | inr isnt ↦ rw isnt (later out)
      ])

module _ (size : ℕ) (rest : List Event) (o : HostCommand) (out : ℤ) (chunks : List Bytes) where
  -- Over any reads, `get_version` stores in the caller's variable the number that `stoi` reads in
  -- the last of the texts, each read being taken by itself: those of the reads that are no FAIL,
  -- which are not empty. With no such text the variable keeps its value. The first of the texts
  -- that `stoi` refuses makes the command end in the fault of `stoi`. The status is that of the
  -- last read, or -1 with no read, and the texts of the failures are appended to the error. No read
  -- has a NUL, and each leaves four bytes of the buffer.
  pub get_version-last_number :
      AllText size chunks
      → get_version (version_reads size chunks rest) o out ≡ (do
        version ← last_number (numbers chunks) out
        ok (
          record {
            object = finished host_class o (codes "host:version") (o.adb.error ++ failures chunks);
            status = last_status chunks (negsuc 0);
            out = version;
          },
          rest,
        ))
  unfolding get_version
  get_version-last_number h =
      let asked = record o { adb = sent (started (codes "host:version") o.adb) } in
      execute-exchange host_class version_message version_message-IsQuiet (codes "host:version")
        (negsuc 0) (map (received_in size) chunks) rest o out
      ∙ rw (handle_all-version size chunks asked o.adb.error (negsuc 0) out h)
          (elim (Result-cases (last_number (numbers chunks) out)) [
            | inl (v, e) ↦ rw e
            | inr (x, e) ↦ rw e
          ])
