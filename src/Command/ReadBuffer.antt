-- ===== src/Command/ReadBuffer.antt =====
-- The read buffer of the event loop, which the reads of one exchange share, and the `memset` over
-- the received bytes in which every message callback ends.
use Prim.Native.Nat.add
use adb_client.Base.{
  ℕ, inl, inr, zero, suc, ◌+◌, ◌-◌, ◌<◌, ◌≡◌, refl, sym, ap, ◌∙◌, List, [], ◌∷◌, ◌++◌, map, arith,
  Bytes, length, replicate, drop,
}
use adb_client.CString.Laws.{memset_zero-append}
use adb_client.Client.{Buffer}
use adb_client.Command.{Frame, Handler, clear}
use adb_client.Command.Exchange.{handle_all}
use adb_client.Fault.{Result, ok, err, ◌>>=◌, Result-cases}
use adb_client.Protocol.Read.{received}

replicate-append : (n m : ℕ) → replicate n 0 ++ replicate m 0 ≡ replicate {A = ℕ} (n + m) 0
replicate-append zero m = ap (λ (n : ℕ). replicate n 0) (sym (add.zero m))
replicate-append (suc n) m = rw add.suc (ap (◌∷◌ 0) (replicate-append n m))

abbrev memory_of : Result Buffer → Bytes
memory_of (ok b) = b.memory
memory_of (err e) = []

drop-replicate :
    (k n : ℕ) → k < n → ◌≡◌ {A = Bytes} (drop k (replicate n 0)) (0 ∷ replicate (n - k - 1) 0)
drop-replicate zero zero h = absurd (omega arith)
drop-replicate zero (suc n) h = let e : suc n - 0 - 1 ≡ n = omega arith in rw e
drop-replicate (suc k) zero h = absurd (omega arith)
drop-replicate (suc k) (suc n) h =
    let e : suc n - suc k - 1 ≡ n - k - 1 = omega arith in rw e (drop-replicate k n (omega arith))

-- The buffer of `received`, after the `memset`.
abbrev pub zeroed : ℕ → Bytes → Buffer
zeroed room chunk = record { memory = replicate (length chunk + suc room) 0; size = length chunk }

-- `memset` over the received bytes makes the whole buffer zero again.
pub clear-received :
    (room : ℕ) (chunk : Bytes) → clear (received room chunk) ≡ ok (zeroed room chunk)
unfolding clear
clear-received room chunk =
    rw (memset_zero-append chunk (0 ∷ replicate room 0))
      (rw (replicate-append (length chunk) (suc room)))

-- A message callback that returns has cleared the buffer.
pub record IsClearing {O V : Type 0} (on_message : Handler O V) : Type 0 where
  pub cleared_is :
      (buf cleared : Buffer) (f g : Frame O V)
      → on_message buf f ≡ ok (g, cleared)
      → clear buf ≡ ok cleared

-- A read puts its bytes at the start of the buffer and leaves the rest as it was.
pub record IsRead (receive : Bytes → Bytes → Bytes) : Type 0 where
  pub receive_lem :
      (memory chunk : Bytes) → receive memory chunk ≡ chunk ++ drop (length chunk) memory

-- The buffer of `size` bytes, zero before the read of `chunk`, which is to be shorter than it: the
-- theorems that look at what stands behind a read have that as a hypothesis.
abbrev pub received_in : ℕ → Bytes → Buffer
received_in size chunk = received (size - length chunk - 1) chunk

-- Every read is shorter than the buffer.
abbrev pub AllFit : ℕ → List Bytes → Type 0
AllFit size [] = Unit
AllFit size (chunk ∷ chunks) = (length chunk < size) × AllFit size chunks

module _ {O V : Type 0} (receive : Bytes → Bytes → Bytes) (on_message : Handler O V) where
  -- The reads of one exchange, with the buffer that they share.
  unfoldable pub read_all : List Bytes → Bytes → Frame O V → Result (Frame O V × Bytes)
  read_all [] memory f = ok (f, memory)
  read_all (chunk ∷ chunks) memory f = do
    r ← on_message (record { memory = receive memory chunk; size = length chunk }) f
    read_all chunks r.1.memory r.0

module _ {O V : Type 0} (receive : Bytes → Bytes → Bytes) (on_message : Handler O V)
    (r : IsRead receive) (c : IsClearing on_message) (size : ℕ) where
  receive_zeros :
      (chunk : Bytes)
      → length chunk < size
      → receive (replicate size 0) chunk ≡ (received_in size chunk).memory
  receive_zeros chunk h =
      r.receive_lem (replicate size 0) chunk
      ∙ ap (◌++◌ chunk) (drop-replicate (length chunk) size h)

  cleared_zeros :
      (chunk : Bytes) (cleared : Buffer) (f g : Frame O V)
      → length chunk < size
      → on_message (received_in size chunk) f ≡ ok (g, cleared)
      → cleared.memory ≡ replicate size 0
  cleared_zeros chunk cleared f g h e =
      let same =
        sym (c.cleared_is (received_in size chunk) cleared f g e)
        ∙ clear-received (size - length chunk - 1) chunk in
      let total : length chunk + suc (size - length chunk - 1) ≡ size = omega arith in
      ap memory_of same ∙ ap (λ (n : ℕ). replicate n 0) total

  -- From a zero buffer every read that is shorter than the buffer is delivered with zeros behind
  -- its bytes, and the buffer is zero again at the end. A read overwrites the start of the buffer
  -- only, and a message callback that returns has cleared what it was given.
  pub read_all-received :
      (chunks : List Bytes) (f : Frame O V)
      → AllFit size chunks
      → read_all receive on_message chunks (replicate size 0) f
        ≡ (do g ← handle_all on_message (map (received_in size) chunks) f; ok (g, replicate size 0))
  unfolding read_all handle_all
  read_all-received [] f h = refl
  read_all-received (chunk ∷ chunks) f h =
      rw (receive_zeros chunk h.0, read_all)
        (elim (Result-cases (on_message (received_in size chunk) f)) [
          | inl ((g, cleared), e) ↦
              rw e (rw (cleared_zeros chunk cleared f g h.0 e) (read_all-received chunks g h.1))
          | inr (x, e) ↦ rw e
        ])
