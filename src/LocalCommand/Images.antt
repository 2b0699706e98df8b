-- ===== src/LocalCommand/Images.antt =====
-- `screencap` where the reply to the transport is OKAY and the image follows.
use adb_client.Base.{
  ℕ, ◌≡◌, refl, sym, ◌∙◌, ap, false, Bool-cases, inl, inr, List, [], ◌∷◌, ◌++◌, map, append_assoc,
  append-nil, Bytes, codes, ℤ, pos, negsuc, length, equal, ◌==◌, if◌then◌else◌,
}
use adb_client.Client.{Event}
use adb_client.Command.Exchange.{exchange, sent, started, ended}
use adb_client.Command.ReadBuffer.{received_in}
use adb_client.Command.{AdbCommand, Frame}
use adb_client.Fault.{Result, ok}
use adb_client.LocalCommand.Handlers.{LocalCommand, local_class, screencap_message}
use adb_client.LocalCommand.Screencap.{
  service, image_frame, image_of, capture, capture_all, capture-image, screencap-image_of,
}
use adb_client.LocalCommand.Services.{asked}
use adb_client.LocalCommand.{transport_request, screencap}

-- No read is taken for a status.
abbrev pub AllImage : List Bytes → Type 0
AllImage [] = Unit
AllImage (chunk ∷ chunks) = ((length chunk == 4) ≡ false) × AllImage chunks

unfoldable pub joined : List Bytes → Bytes
joined [] = []
joined (chunk ∷ chunks) = chunk ++ joined chunks

image_of-images :
    (chunks more : List Bytes)
    → AllImage chunks
    → image_of (chunks ++ more) ≡ joined chunks ++ image_of more
unfolding joined
image_of-images [] more h = refl
image_of-images (chunk ∷ chunks) more h =
    rw h.0 (
      rw (image_of-images chunks more h.1)
        (rw (append_assoc chunk (joined chunks) (image_of more))))

capture_all-images :
    (chunks more : List Bytes) (r : ℤ × AdbCommand)
    → AllImage chunks
    → capture_all (chunks ++ more) r ≡ capture_all more r
unfolding capture_all
capture_all-images [] more r h = refl
capture_all-images (chunk ∷ chunks) more r h =
    rw (capture-image chunk r h.0, capture_all) (capture_all-images chunks more r h.1)

-- The OKAY of the transport comes first.
capture_all-okay :
    (chunks more : List Bytes) (r : ℤ × AdbCommand)
    → AllImage chunks
    → capture_all (codes "OKAY" ∷ (chunks ++ more)) r ≡ capture_all more (pos 0, asked service r.1)
unfolding capture_all capture equal
capture_all-okay chunks more r h = capture_all-images chunks more (pos 0, asked service r.1) h

capture_tail :
    (a b c d : ℕ) (r : AdbCommand)
    → equal (a ∷ b ∷ c ∷ d ∷ []) (codes "OKAY") ≡ false
    → capture (a ∷ b ∷ c ∷ d ∷ []) (pos 0, r)
      ≡ (if equal (a ∷ b ∷ c ∷ d ∷ []) (codes "FAIL") then pos 0 else negsuc 0, r)
unfolding capture
capture_tail a b c d r other =
    rw other (elim (Bool-cases (equal (a ∷ b ∷ c ∷ d ∷ []) (codes "FAIL"))) [
      | inl fail ↦ rw fail
      | inr neither ↦ rw neither
    ])

module _ (size : ℕ) (rest : List Event) (o : LocalCommand) (serial out : Bytes) where
  -- The events of `screencap`: the transport's OKAY, and further reads.
  abbrev pub image_reads : List Bytes → List Event
  image_reads chunks =
      exchange local_class (screencap_message service)
        (map (received_in size) (codes "OKAY" ∷ chunks)) rest

  -- The outcome, by the status and the caller's string.
  abbrev pub captured : ℤ → Bytes → Result (Frame LocalCommand Bytes × List Event)
  captured status image = ok (
    record {
      object = record o {
        adb = ended (asked service (sent (started (transport_request serial) o.adb)));
      };
      status = status;
      out = image;
    },
    rest,
  )

  screencap_reads :
      (chunks more : List Bytes)
      → AllImage chunks
      → screencap (image_reads (chunks ++ more)) o serial out ≡ (
          let r =
            capture_all more
              (pos 0, asked service (sent (started (transport_request serial) o.adb))) in
          ok (image_frame o (r.0, ended r.1) (out ++ (joined chunks ++ image_of more)), rest))
  screencap_reads chunks more h =
      let r : ℤ × AdbCommand = (negsuc 0, sent (started (transport_request serial) o.adb)) in
      screencap-image_of size rest o serial out (codes "OKAY" ∷ (chunks ++ more))
      ∙ rw (capture_all-okay chunks more r h) (rw (image_of-images chunks more h))

  -- An image whose reads behind the transport's OKAY are none of them of four bytes is appended to
  -- the caller's string whole, NUL bytes included, with status 0.
  pub screencap-joined :
      (chunks : List Bytes)
      → AllImage chunks
      → screencap (image_reads chunks) o serial out ≡ captured (pos 0) (out ++ joined chunks)
  unfolding capture_all
  screencap-joined chunks h =
      ap (λ (cs : List Bytes). screencap (image_reads cs) o serial out) (sym (append-nil chunks))
      ∙ screencap_reads chunks [] h
      ∙ rw (append-nil (joined chunks))

  -- A last read of four bytes that are not OKAY is left out of the image, whose other reads are
  -- none of them of four bytes. The status is -1, but 0 if the four bytes are FAIL.
  screencap-tail :
      (chunks : List Bytes) (a b c d : ℕ)
      → AllImage chunks
      → equal (a ∷ b ∷ c ∷ d ∷ []) (codes "OKAY") ≡ false
      → screencap (image_reads (chunks ++ ((a ∷ b ∷ c ∷ d ∷ []) ∷ []))) o serial out
        ≡ captured
            (if equal (a ∷ b ∷ c ∷ d ∷ []) (codes "FAIL") then pos 0 else negsuc 0)
            (out ++ joined chunks)
  unfolding capture_all
  screencap-tail chunks a b c d h other =
      screencap_reads chunks ((a ∷ b ∷ c ∷ d ∷ []) ∷ []) h
      ∙ rw
          (capture_tail a b c d (asked service (sent (started (transport_request serial) o.adb)))
            other)
          (rw (append-nil (joined chunks)))
