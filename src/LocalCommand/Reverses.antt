-- ===== src/LocalCommand/Reverses.antt =====
-- `list_reverse` where the reply arrives in one read.
use adb_client.Base.{
  ℕ, ◌+◌, ◌<◌, ◌≤◌, ◌≡◌, refl, ◌∙◌, ap, false, List, [], ◌∷◌, ◌++◌, append-nil, map, arith, Bytes,
  codes, HasNoNul, pos, length, equal,
}
use adb_client.CString.{contains, starts_with}
use adb_client.Client.{Event}
use adb_client.Command.Exchange.{exchange, sent, started, ended}
use adb_client.Command.ReadBuffer.{received_in}
use adb_client.Command.Splits.{okay, fail, sized, whole-AllText}
use adb_client.Command.{Frame}
use adb_client.Fault.{Result, ok}
use adb_client.LocalCommand.Handlers.{LocalCommand, local_class, list_reverse_message}
use adb_client.LocalCommand.Lists.{service, listed, added, list_reverse-added_all}
use adb_client.LocalCommand.Services.{
  asked, respond_all, respond_okay, respond-long, long-equal_fail,
}
use adb_client.LocalCommand.{transport_request, list_reverse}
use adb_client.Printf.Hex.{format_04x_digits}

listed_okay : listed (codes "OKAY") ≡ []
unfolding listed contains starts_with
listed_okay = refl

listed-okay : (text : Bytes) → length text < 65536 → listed (okay text) ≡ text
unfolding listed contains starts_with
listed-okay text short = rw (format_04x_digits (length text) short)

long-sized : (text : Bytes) → length text < 65536 → 0 < length (sized text)
long-sized text short = rw (format_04x_digits (length text) short) (omega arith)

added_okay : added (codes "OKAY") ≡ []
unfolding equal
added_okay = listed_okay

pub added-long : (chunk : Bytes) → 4 < length chunk → added chunk ≡ listed chunk
added-long chunk long = rw (long-equal_fail chunk long)

module _ (size : ℕ) (rest : List Event) (o : LocalCommand) (serial out : Bytes) where
  -- The events of `list_reverse`: the transport's OKAY, and a reply in one read.
  abbrev pub reverse_reads : Bytes → List Event
  reverse_reads chunk =
      exchange local_class (list_reverse_message service)
        (map (received_in size) (codes "OKAY" ∷ chunk ∷ [])) rest

  -- The outcome with status 0, by the caller's string.
  abbrev pub listing_of : Bytes → Result (Frame LocalCommand Bytes × List Event)
  listing_of list = ok (
    record {
      object = record o {
        adb = ended (asked service (sent (started (transport_request serial) o.adb)));
      };
      status = pos 0;
      out = list;
    },
    rest,
  )

  list_reverse_lem :
      (chunk : Bytes)
      → HasNoNul chunk
      → 4 < length chunk
      → length chunk + 4 ≤ size
      → list_reverse (reverse_reads chunk) o serial out ≡ listing_of (out ++ listed chunk)
  unfolding respond_all
  list_reverse_lem chunk t long fits =
      list_reverse-added_all size rest o serial out (codes "OKAY" ∷ chunk ∷ []) (omega arith)
        ((refl, (refl, (refl, (refl, tt)))), omega arith, (t, omega arith, tt))
      ∙ rw (respond_okay service (sent (started (transport_request serial) o.adb))) (
          rw
            (respond-long service chunk
              (asked service (sent (started (transport_request serial) o.adb))) long)
            (rw (added_okay, added-long chunk long, append-nil (listed chunk))))

  pub list_reverse-okay :
      (text : Bytes)
      → length text < 65536
      → HasNoNul text
      → length text + 12 ≤ size
      → list_reverse (reverse_reads (okay text)) o serial out ≡ listing_of (out ++ text)
  list_reverse-okay text short no_nul fits =
      let long = long-sized text short in
      let whole =
        whole-AllText size text short no_nul fits (codes "OKAY") refl
          (refl, (refl, (refl, (refl, tt)))) in
      list_reverse_lem (okay text) whole.0 (omega arith) whole.1
      ∙ ap (λ (s : Bytes). listing_of (out ++ s)) (listed-okay text short)

  -- An OKAY reply in one read behind the transport's OKAY adds its text to the caller's string. A
  -- FAIL reply in one read that holds no OKAY adds its length and its text to that string, with
  -- status 0 as well. The text has fewer than 65536 bytes, none of them NUL, and the buffer holds
  -- the reply.
  list_reverse-replies :
      (text : Bytes)
      → length text < 65536
      → HasNoNul text
      → length text + 12 ≤ size
      → contains (fail text) (codes "OKAY") ≡ false
      → (list_reverse (reverse_reads (okay text)) o serial out ≡ listing_of (out ++ text))
        × (list_reverse (reverse_reads (fail text)) o serial out ≡ listing_of (out ++ sized text))
  unfolding listed
  list_reverse-replies text short no_nul fits absent =
      let long = long-sized text short in
      let failed =
        whole-AllText size text short no_nul fits (codes "FAIL") refl
          (refl, (refl, (refl, (refl, tt)))) in
      (
        list_reverse-okay text short no_nul fits,
        list_reverse_lem (fail text) failed.0 (omega arith) failed.1 ∙ rw absent,
      )
