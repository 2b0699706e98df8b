-- ===== src/LocalCommand/Screencap.antt =====
-- `screencap`: the image arrives in reads, each of which is appended.
use adb_client.Base.{
  ℕ, ◌-◌, ◌≡◌, refl, sym, ◌∙◌, ap, true, false, Bool, not, ◌||◌, Bool-cases, inl, inr, List, [],
  ◌∷◌, ◌++◌, map, append_assoc, append-nil, arith, Bytes, codes, ℤ, pos, negsuc, length, equal,
  ◌==◌, replicate, if◌then◌else◌,
}
use adb_client.CString.{bytes_at, strcmp_eq}
use adb_client.Client.{Buffer, Event}
use adb_client.Command.Exchange.{
  IsQuiet, flag_of-ok, exchange, execute-exchange, handle_all, sent, started, ended,
}
use adb_client.Command.ReadBuffer.{received_in, zeroed, clear-received}
use adb_client.Command.{AdbCommand, Frame, clear}
use adb_client.Fault.{Result, ok, ◌>>=◌, >>=-eq-ok, value_or}
use adb_client.LocalCommand.Handlers.{LocalCommand, local_class, screencap_message, screencap_tag}
use adb_client.LocalCommand.Services.{asked, okay_not_fail}
use adb_client.LocalCommand.{transport_request, screencap}
use adb_client.Printf.Append.{bytes_at-append}
use adb_client.Protocol.Frame.{frame_lem}
use adb_client.Protocol.Read.{received}

abbrev pub service : Bytes
service = codes "shell:/system/bin/screencap -p"

-- The frame of a status, a base part and the image so far.
abbrev pub image_frame : LocalCommand → ℤ × AdbCommand → Bytes → Frame LocalCommand Bytes
image_frame o r out = record { object = record o { adb = r.1 }; status = r.0; out = out }

-- A comparison with all of a read of four bytes.
strcmp_eq-received :
    (a b c d : ℕ) (rest literal : Bytes)
    → length literal ≡ 4
    → strcmp_eq (a ∷ b ∷ c ∷ d ∷ 0 ∷ rest) literal ≡ ok (equal (a ∷ b ∷ c ∷ d ∷ []) literal)
unfolding strcmp_eq equal
strcmp_eq-received a b c d rest (e ∷ f ∷ g ∷ h ∷ []) four = ground arith
strcmp_eq-received a b c d rest _ four = absurd (omega arith)

abbrev flag : Frame LocalCommand Bytes → ℕ
flag f = f.object.adb.command_finished

screencap_tag-flag :
    (memory : Bytes) (f g : Frame LocalCommand Bytes)
    → screencap_tag service memory f ≡ ok g
    → flag g ≡ flag f
unfolding screencap_tag
screencap_tag-flag memory f g h =
    let (okay, compared, h') = >>=-eq-ok (strcmp_eq memory (codes "OKAY")) _ h in
    elim (Bool-cases okay) [
      | inl is ↦
          let written = rw (frame_lem service) at rw is at h' in
          ap (λ (x : Result (Frame LocalCommand Bytes)). flag (value_or f x)) (sym written)
      | inr isnt ↦
          let (fail, compared', same) =
            >>=-eq-ok (strcmp_eq memory (codes "FAIL")) _ (rw isnt at h') in
          ap (λ (x : Result (Frame LocalCommand Bytes)). flag (value_or f x)) (sym same)
          ∙ elim (Bool-cases fail) [ inl is' ↦ rw is' | inr isnt' ↦ rw isnt' ]
    ]

screencap_message-flag :
    (buf : Buffer) (f g : Frame LocalCommand Bytes)
    → (if buf.size == 4
        then screencap_tag service buf.memory f
        else do payload ← bytes_at buf.size buf.memory; ok (record f { out = f.out ++ payload }))
      ≡ ok g
    → flag g ≡ flag f
screencap_message-flag buf f g h = elim (Bool-cases (buf.size == 4)) [
  | inl four ↦ screencap_tag-flag buf.memory f g (rw four at h)
  | inr other ↦
      let (payload, read, same) = >>=-eq-ok (bytes_at buf.size buf.memory) _ (rw other at h) in
      ap (λ (x : Result (Frame LocalCommand Bytes)). flag (value_or f x)) (sym same)
]

screencap_message-IsQuiet : IsQuiet local_class (screencap_message service)
unfolding screencap_message
screencap_message-IsQuiet = record {
  flag = λ buf cleared f g h.
      let (r, stored, h') =
        >>=-eq-ok
          (if buf.size == 4 then screencap_tag service buf.memory f else do
            payload ← bytes_at buf.size buf.memory
            ok (record f { out = f.out ++ payload }))
          _ h in
      let (c, clears, same) = >>=-eq-ok (clear buf) _ h' in
      flag_of-ok local_class (screencap_message service) same
      ∙ screencap_message-flag buf f r stored;
}

-- A read that is taken for a part of the image: any but one of four bytes.
abbrev pub is_image : Bytes → Bool
is_image chunk = not (length chunk == 4)

-- The parts of the image, one behind the other.
abbrev pub image_of : List Bytes → Bytes
image_of [] = []
image_of (chunk ∷ chunks) = (if is_image chunk then chunk else []) ++ image_of chunks

-- What a read does to the status and the base part. FAIL changes neither.
unfoldable pub capture : Bytes → ℤ × AdbCommand → ℤ × AdbCommand
capture chunk r =
    if is_image chunk || equal chunk (codes "FAIL")
    then r
    else if equal chunk (codes "OKAY")
    then (pos 0, asked service r.1)
    else (negsuc 0, r.1)

unfoldable pub capture_all : List Bytes → ℤ × AdbCommand → ℤ × AdbCommand
capture_all [] r = r
capture_all (chunk ∷ chunks) r = capture_all chunks (capture chunk r)

screencap_tag-received :
    (chunk : Bytes) (room : ℕ) (o : LocalCommand) (r : ℤ × AdbCommand) (out : Bytes)
    → (length chunk == 4) ≡ true
    → screencap_tag service (received room chunk).memory (image_frame o r out)
      ≡ ok (image_frame o (capture chunk r) out)
unfolding screencap_tag capture
screencap_tag-received (c₀ ∷ c₁ ∷ c₂ ∷ c₃ ∷ []) room o r out four =
    let tag = c₀ ∷ c₁ ∷ c₂ ∷ c₃ ∷ [] in
    rw (strcmp_eq-received c₀ c₁ c₂ c₃ (replicate room 0) (codes "OKAY") refl)
      (elim (Bool-cases (equal tag (codes "OKAY"))) [
        | inl okay ↦ rw (okay, okay_not_fail tag okay) (rw (frame_lem service))
        | inr other ↦ rw other (
            rw (strcmp_eq-received c₀ c₁ c₂ c₃ (replicate room 0) (codes "FAIL") refl)
              (elim (Bool-cases (equal tag (codes "FAIL"))) [
                | inl fail ↦ rw fail
                | inr neither ↦ rw neither
              ]))
      ])
screencap_tag-received _ room o r out four = absurd (ground arith)

pub capture-image :
    (chunk : Bytes) (r : ℤ × AdbCommand) → (length chunk == 4) ≡ false → capture chunk r ≡ r
unfolding capture
capture-image chunk r other = rw other

screencap_message-received :
    (chunk : Bytes) (room : ℕ) (o : LocalCommand) (r : ℤ × AdbCommand) (out : Bytes)
    → screencap_message service (received room chunk) (image_frame o r out)
      ≡ ok (
        image_frame o (capture chunk r) (out ++ (if is_image chunk then chunk else [])),
        zeroed room chunk,
      )
unfolding screencap_message
screencap_message-received chunk room o r out = elim (Bool-cases (length chunk == 4)) [
  | inl four ↦
      rw (four, screencap_message)
        (rw (screencap_tag-received chunk room o r out four)
          (rw (clear-received room chunk) (rw (append-nil out))))
  | inr other ↦
      rw (other, screencap_message)
        (rw (bytes_at-append chunk (0 ∷ replicate room 0))
          (rw (clear-received room chunk) (rw (capture-image chunk r other))))
]

handle_all-capture :
    (size : ℕ) (chunks : List Bytes) (o : LocalCommand) (r : ℤ × AdbCommand) (out : Bytes)
    → handle_all (screencap_message service) (map (received_in size) chunks) (image_frame o r out)
      ≡ ok (image_frame o (capture_all chunks r) (out ++ image_of chunks))
unfolding handle_all capture_all
handle_all-capture size [] o r out = rw (append-nil out)
handle_all-capture size (chunk ∷ chunks) o r out =
    let part = if is_image chunk then chunk else [] in
    rw (screencap_message-received chunk (size - length chunk - 1) o r out) (
      rw (handle_all-capture size chunks o (capture chunk r) (out ++ part))
        (rw (append_assoc out part (image_of chunks))))

module _ (size : ℕ) (rest : List Event) (o : LocalCommand) (serial out : Bytes)
    (chunks : List Bytes) where
  -- Over any reads, `screencap` appends to the caller's string every read that is not of four
  -- bytes, whole and in order, and writes its service for every OKAY. Behind the last read of four
  -- bytes that is not FAIL the status is 0 if that read is OKAY, and -1 if it is another; with no
  -- such read it is -1. A FAIL changes nothing, and no read of four bytes becomes a part of the
  -- image.
  pub screencap-image_of :
      screencap
        (exchange local_class (screencap_message service) (map (received_in size) chunks) rest)
        o
        serial
        out
      ≡ (let r = capture_all chunks (negsuc 0, sent (started (transport_request serial) o.adb)) in
          ok (image_frame o (r.0, ended r.1) (out ++ image_of chunks), rest))
  unfolding screencap
  screencap-image_of =
      let r : ℤ × AdbCommand = (negsuc 0, sent (started (transport_request serial) o.adb)) in
      execute-exchange local_class (screencap_message service) screencap_message-IsQuiet
        (transport_request serial) (negsuc 0) (map (received_in size) chunks) rest o out
      ∙ rw (handle_all-capture size chunks o r out)
