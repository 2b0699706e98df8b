-- ===== src/Utils/Devices/Faults.antt =====
-- `get_device_info_from_buf` on lines with too few fields.
use adb_client.Base.{
  ℕ, zero, suc, ◌≡◌, refl, List, [], ◌∷◌, ◌++◌, arith, Bytes, length, ◌⊎◌, inl, inr,
}
use adb_client.DeviceInfo.{DeviceInfo}
use adb_client.Fault.{ok, err, out_of_bounds}
use adb_client.Utils.Devices.Short.{IsWord, replace_tab-none}
use adb_client.Utils.Devices.{
  index, value_of, info_of_fields, device_info, device_infos, get_device_info_from_buf,
}
use adb_client.Utils.Split.{join, AllFree, count-join, string_split-join, first_line}

abbrev pub AllWords : List Bytes → Type 0
AllWords [] = Unit
AllWords (w ∷ ws) = IsWord w × AllWords ws

AllWords-AllFree :
    (ws : List Bytes) → AllWords ws → AllFree b' ' ws × AllFree b'\n' ws × AllFree b'\t' ws
AllWords-AllFree [] h = (tt, tt, tt)
AllWords-AllFree (w ∷ ws) h =
    let (s, n, t) = AllWords-AllFree ws h.1 in
    ((h.0.no_space, s), (h.0.no_newline, n), (h.0.no_tab, t))

-- An index is in range, or it is a fault.
index-cases :
    (xs : List Bytes) (i : ℕ)
    → ((x : Bytes) × (index xs i ≡ ok x)) ⊎ (index xs i ≡ err out_of_bounds)
unfolding index
index-cases [] i = inr refl
index-cases (x ∷ xs) zero = inl (x, refl)
index-cases (x ∷ xs) (suc i) = index-cases xs i

value_of-cases :
    (field : Bytes) → ((x : Bytes) × (value_of field ≡ ok x)) ⊎ (value_of field ≡ err out_of_bounds)
unfolding value_of
value_of-cases field = index-cases _ 1

-- `length` is one, four or five
abbrev pub IsShortOfFields : List Bytes → Type 0
IsShortOfFields fields = (length fields ≡ 1) ⊎ (length fields ≡ 4) ⊎ (length fields ≡ 5)

info_of_fields-fault :
    (fields : List Bytes) → IsShortOfFields fields → info_of_fields fields ≡ err out_of_bounds
unfolding info_of_fields index
info_of_fields-fault (a ∷ []) h = refl
info_of_fields-fault (a ∷ b ∷ c ∷ d ∷ []) h = ground (arith, value_of-cases c, value_of-cases d)
info_of_fields-fault (a ∷ b ∷ c ∷ d ∷ e ∷ []) h =
    ground (arith, value_of-cases c, value_of-cases d, value_of-cases e)
info_of_fields-fault _ h = absurd (omega arith)

-- A first line of one, four or five words makes the function index a vector past its end, whatever
-- follows the line. A word holds no newline, space or tab.
get_device_info_from_buf-fault :
    (devices_list : List DeviceInfo) (w : Bytes) (ws : List Bytes) (rest : Bytes)
    → AllWords (w ∷ ws)
    → IsShortOfFields (w ∷ ws)
    → get_device_info_from_buf devices_list (join b' ' (w ∷ ws) ++ (b'\n' ∷ rest))
      ≡ err out_of_bounds
unfolding get_device_info_from_buf device_infos device_info
get_device_info_from_buf-fault devices_list w ws rest h short =
    let (spaces, lines, tabs) = AllWords-AllFree (w ∷ ws) h in
    let line = join b' ' (w ∷ ws) in
    rw
      (
        first_line line rest b'\n' (count-join (w ∷ ws) b'\n' b' ' refl lines),
        get_device_info_from_buf,
      )
      (rw (replace_tab-none line (count-join (w ∷ ws) b'\t' b' ' refl tabs))
        (rw (string_split-join w ws b' ' spaces) (rw (info_of_fields-fault (w ∷ ws) short))))
