-- ===== src/Protocol/Ids.antt =====
-- include/adb_protocol.h: the identifiers of the sync protocol. No other code of the repository
-- uses them. The letters are characters below 128, so that the shifts stay within an `int`.
use Prim.Native.Nat.{bit_or}
use adb_client.Base.{ℕ, ◌+◌, ◌*◌, ◌/◌, ◌%◌, ◌^◌, ◌<◌, ◌≡◌, [], ◌∷◌, Bytes, codes, arith}
use adb_client.Number.Bits.{bit_or-shifted}

-- `MKID`.
unfoldable pub mkid : ℕ → ℕ → ℕ → ℕ → ℕ
mkid a b c d = bit_or (bit_or (bit_or a (b * 2 ^ 8)) (c * 2 ^ 16)) (d * 2 ^ 24)

-- The macros of the header.
pub data SyncId : Type 0 where
  id_lstat_v1 id_stat_v2 id_lstat_v2 id_list_v1 id_list_v2 id_dent_v1 id_dent_v2 id_send_v1 : SyncId
  id_send_v2 id_recv_v1 id_recv_v2 id_done id_data id_okay id_fail id_quit : SyncId

unfoldable pub id_of : SyncId → ℕ
id_of id_lstat_v1 = mkid b'S' b'T' b'A' b'T'
id_of id_stat_v2 = mkid b'S' b'T' b'A' b'2'
id_of id_lstat_v2 = mkid b'L' b'S' b'T' b'2'
id_of id_list_v1 = mkid b'L' b'I' b'S' b'T'
id_of id_list_v2 = mkid b'L' b'I' b'S' b'2'
id_of id_dent_v1 = mkid b'D' b'E' b'N' b'T'
id_of id_dent_v2 = mkid b'D' b'N' b'T' b'2'
id_of id_send_v1 = mkid b'S' b'E' b'N' b'D'
id_of id_send_v2 = mkid b'S' b'N' b'D' b'2'
id_of id_recv_v1 = mkid b'R' b'E' b'C' b'V'
id_of id_recv_v2 = mkid b'R' b'C' b'V' b'2'
id_of id_done = mkid b'D' b'O' b'N' b'E'
id_of id_data = mkid b'D' b'A' b'T' b'A'
id_of id_okay = mkid b'O' b'K' b'A' b'Y'
id_of id_fail = mkid b'F' b'A' b'I' b'L'
id_of id_quit = mkid b'Q' b'U' b'I' b'T'

-- The letters of an identifier.
abbrev pub letters : SyncId → Bytes
letters id_lstat_v1 = codes "STAT"
letters id_stat_v2 = codes "STA2"
letters id_lstat_v2 = codes "LST2"
letters id_list_v1 = codes "LIST"
letters id_list_v2 = codes "LIS2"
letters id_dent_v1 = codes "DENT"
letters id_dent_v2 = codes "DNT2"
letters id_send_v1 = codes "SEND"
letters id_send_v2 = codes "SND2"
letters id_recv_v1 = codes "RECV"
letters id_recv_v2 = codes "RCV2"
letters id_done = codes "DONE"
letters id_data = codes "DATA"
letters id_okay = codes "OKAY"
letters id_fail = codes "FAIL"
letters id_quit = codes "QUIT"

-- The four bytes of an `int` that is not negative, the lowest first.
abbrev pub bytes_of : ℕ → Bytes
bytes_of n = n % 2 ^ 8 ∷ n / 2 ^ 8 % 2 ^ 8 ∷ n / 2 ^ 16 % 2 ^ 8 ∷ n / 2 ^ 24 % 2 ^ 8 ∷ []

mkid_lem :
    (a b c d : ℕ)
    → a < 2 ^ 8
    → b < 2 ^ 8
    → c < 2 ^ 8
    → mkid a b c d ≡ a + b * 2 ^ 8 + c * 2 ^ 16 + d * 2 ^ 24
unfolding mkid
mkid_lem a b c d ha hb hc = rw (bit_or-shifted 8 a b ha) (
    rw (bit_or-shifted 16 (a + b * 2 ^ 8) c (omega arith))
      (bit_or-shifted 24 (a + b * 2 ^ 8 + c * 2 ^ 16) d (omega arith)))

bytes_of-mkid :
    (a b c d : ℕ)
    → a < 256
    → b < 256
    → c < 256
    → d < 128
    → (bytes_of (mkid a b c d) ≡ a ∷ b ∷ c ∷ d ∷ []) × (mkid a b c d < 2 ^ 31)
bytes_of-mkid a b c d ha hb hc hd =
    let sum = mkid_lem a b c d (omega arith) (omega arith) (omega arith) in
    (ground (arith, sum), omega (arith, sum))

-- Every identifier of the sync protocol is an `int` that is not negative, and its bytes, the lowest
-- first, are its four letters in order.
pub bytes_of-id_of : (i : SyncId) → (bytes_of (id_of i) ≡ letters i) × (id_of i < 2 ^ 31)
unfolding id_of
bytes_of-id_of id_lstat_v1 =
    bytes_of-mkid b'S' b'T' b'A' b'T' (omega arith) (omega arith) (omega arith) (omega arith)
bytes_of-id_of id_stat_v2 =
    bytes_of-mkid b'S' b'T' b'A' b'2' (omega arith) (omega arith) (omega arith) (omega arith)
bytes_of-id_of id_lstat_v2 =
    bytes_of-mkid b'L' b'S' b'T' b'2' (omega arith) (omega arith) (omega arith) (omega arith)
bytes_of-id_of id_list_v1 =
    bytes_of-mkid b'L' b'I' b'S' b'T' (omega arith) (omega arith) (omega arith) (omega arith)
bytes_of-id_of id_list_v2 =
    bytes_of-mkid b'L' b'I' b'S' b'2' (omega arith) (omega arith) (omega arith) (omega arith)
bytes_of-id_of id_dent_v1 =
    bytes_of-mkid b'D' b'E' b'N' b'T' (omega arith) (omega arith) (omega arith) (omega arith)
bytes_of-id_of id_dent_v2 =
    bytes_of-mkid b'D' b'N' b'T' b'2' (omega arith) (omega arith) (omega arith) (omega arith)
bytes_of-id_of id_send_v1 =
    bytes_of-mkid b'S' b'E' b'N' b'D' (omega arith) (omega arith) (omega arith) (omega arith)
bytes_of-id_of id_send_v2 =
    bytes_of-mkid b'S' b'N' b'D' b'2' (omega arith) (omega arith) (omega arith) (omega arith)
bytes_of-id_of id_recv_v1 =
    bytes_of-mkid b'R' b'E' b'C' b'V' (omega arith) (omega arith) (omega arith) (omega arith)
bytes_of-id_of id_recv_v2 =
    bytes_of-mkid b'R' b'C' b'V' b'2' (omega arith) (omega arith) (omega arith) (omega arith)
bytes_of-id_of id_done =
    bytes_of-mkid b'D' b'O' b'N' b'E' (omega arith) (omega arith) (omega arith) (omega arith)
bytes_of-id_of id_data =
    bytes_of-mkid b'D' b'A' b'T' b'A' (omega arith) (omega arith) (omega arith) (omega arith)
bytes_of-id_of id_okay =
    bytes_of-mkid b'O' b'K' b'A' b'Y' (omega arith) (omega arith) (omega arith) (omega arith)
bytes_of-id_of id_fail =
    bytes_of-mkid b'F' b'A' b'I' b'L' (omega arith) (omega arith) (omega arith) (omega arith)
bytes_of-id_of id_quit =
    bytes_of-mkid b'Q' b'U' b'I' b'T' (omega arith) (omega arith) (omega arith) (omega arith)
