-- ===== src/Protocol/Frame.antt =====
-- The framing of a request: four hexadecimal digits of length, and the text. `decode_frame` is
-- the server's side, as the adb protocol describes it.
use adb_client.Base.{
  ◌≤◌, ◌<◌, ◌≡◌, ◌≢◌, ◌↔◌, [], ◌∷◌, ◌++◌, Option, none, some, arith, Bytes, length, take, drop, leb,
  if◌then◌else◌, take-append, drop-append, length-append, inl, inr, Option-cases, length-take_le,
}
use adb_client.Fault.{ok}
use adb_client.Number.Hex.{digits-format_04x, digits-lt}
use adb_client.Number.{digits}
use adb_client.Printf.Append.{string_printf_lem}
use adb_client.Printf.Hex.{format_04x, format_04x_digits, length-format_04x_le}
use adb_client.Protocol.{frame}

-- The text of the first frame of a stream, and what follows it.
unfoldable pub decode_frame : Bytes → Option (Bytes × Bytes)
decode_frame (a ∷ b ∷ c ∷ d ∷ rest) = elim (digits 16 (a ∷ b ∷ c ∷ d ∷ [])) [
  | none ↦ none
  | some n ↦ if leb n (length rest) then some (take n rest, drop n rest) else none
]
decode_frame _ = none

-- `frame` returns, and writes the digits of the length and the text.
pub frame_lem : (text : Bytes) → frame text ≡ ok (format_04x (length text) ++ text)
unfolding frame
frame_lem text = rw (
    string_printf_lem (format_04x (length text))
      (omega (arith, length-format_04x_le (length text))))

decode_framed :
    (text rest : Bytes)
    → length text < 65536
    → decode_frame ((format_04x (length text) ++ text) ++ rest) ≡ some (text, rest)
unfolding decode_frame
decode_framed text rest h = rw (format_04x_digits (length text) h) (
    rw (digits-format_04x (length text) h, decode_frame)
      (ground (arith, length-append text rest, take-append text rest, drop-append text rest)))

-- The server reads a framed text back, whatever follows it, if its length fits four digits.
decode_frame-frame :
    (text rest : Bytes)
    → length text < 65536
    → (w : Bytes) × (frame text ≡ ok w) × (decode_frame (w ++ rest) ≡ some (text, rest))
decode_frame-frame text rest h =
    (format_04x (length text) ++ text, frame_lem text, decode_framed text rest h)

decode_frame-lt :
    (stream : Bytes) {text rest : Bytes}
    → decode_frame stream ≡ some (text, rest)
    → length text < 65536
unfolding decode_frame
decode_frame-lt (a ∷ b ∷ c ∷ d ∷ stream) {text} h =
    elim (Option-cases (digits 16 (a ∷ b ∷ c ∷ d ∷ []))) [
      | inl stop ↦ absurd (cc (rw (stop, decode_frame) at h))
      | inr (n, more) ↦
          let read = rw (more, decode_frame) at h in
          ground (arith, read, digits-lt a b c d n more, length-take_le n stream)
    ]
decode_frame-lt _ h = cc

-- A text of 65536 bytes or more is framed all the same, and the server reads another text.
decode_frame-frame_long :
    (text rest : Bytes)
    → 65536 ≤ length text
    → (w : Bytes) × (frame text ≡ ok w) × (decode_frame (w ++ rest) ≢ some (text, rest))
decode_frame-frame_long text rest h = (
  format_04x (length text) ++ text,
  frame_lem text,
  λ e. absurd (omega (arith, decode_frame-lt ((format_04x (length text) ++ text) ++ rest) e)),
)

-- Every text is framed, and the server reads it back from the frame, whatever follows, exactly if
-- it has fewer than 65536 bytes.
pub decode_frame-frame_iff :
    (text rest : Bytes)
    → (w : Bytes) × (frame text ≡ ok w)
      × ((decode_frame (w ++ rest) ≡ some (text, rest)) ↔ (length text < 65536))
decode_frame-frame_iff text rest =
    let w = format_04x (length text) ++ text in
    (w, frame_lem text, (decode_frame-lt (w ++ rest), decode_framed text rest))
