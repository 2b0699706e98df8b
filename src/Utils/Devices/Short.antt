-- ===== src/Utils/Devices/Short.antt =====
-- `get_device_info_from_buf` on the reply to `host:devices`: a serial, a tab and a state a line.
use adb_client.Base.{◌≡◌, refl, List, [], ◌∷◌, ◌++◌, map, arith, Bytes}
use adb_client.DeviceInfo.{DeviceInfo}
use adb_client.Fault.{ok}
use adb_client.Utils.Devices.{
  index, replace_tab, new_info, info_of_fields, device_info, device_infos, get_device_info_from_buf,
}
use adb_client.Utils.Split.{
  count, terminate, AllFree, count-append, string_split-join, split_terminated,
}

-- No newline, no space, no tab.
pub record IsWord (w : Bytes) : Type 0 where
  pub no_newline : count b'\n' w ≡ 0
  pub no_space : count b' ' w ≡ 0
  pub no_tab : count b'\t' w ≡ 0

pub replace_tab-none : (s : Bytes) → count b'\t' s ≡ 0 → replace_tab s ≡ s
unfolding replace_tab
replace_tab-none [] h = refl
replace_tab-none (c ∷ s) h = ground (arith, replace_tab-none s)

replace_tab-append :
    (s t : Bytes) → count b'\t' s ≡ 0 → replace_tab (s ++ (b'\t' ∷ t)) ≡ s ++ (b' ' ∷ t)
unfolding replace_tab
replace_tab-append [] t h = refl
replace_tab-append (c ∷ s) t h = ground (arith, replace_tab-append s t)

-- One device of the reply.
pub record ShortEntry : Type 0 where
  pub serial : Bytes
  pub state : Bytes

abbrev pub short_line : ShortEntry → Bytes
short_line e = e.serial ++ (b'\t' ∷ e.state)

abbrev pub entry_info : ShortEntry → DeviceInfo
entry_info e = new_info e.serial e.state

abbrev pub AllWords : List ShortEntry → Type 0
AllWords [] = Unit
AllWords (e ∷ es) = IsWord e.serial × IsWord e.state × AllWords es

device_info-short :
    (e : ShortEntry)
    → IsWord e.serial
    → IsWord e.state
    → device_info (short_line e) ≡ ok (entry_info e)
unfolding device_info info_of_fields index
device_info-short e hs ht =
    rw (replace_tab-append e.serial e.state hs.no_tab, device_info)
      (rw (string_split-join e.serial (e.state ∷ []) b' ' (hs.no_space, (ht.no_space, tt))))

device_infos-short :
    (es : List ShortEntry) → AllWords es → device_infos (map short_line es) ≡ ok (map entry_info es)
unfolding device_infos
device_infos-short [] h = refl
device_infos-short (e ∷ es) h = rw (device_info-short e h.0 h.1) (rw (device_infos-short es h.2))

AllFree-short : (es : List ShortEntry) → AllWords es → AllFree b'\n' (map short_line es)
AllFree-short [] h = tt
AllFree-short (e ∷ es) h = (
  omega (arith, count-append b'\n' e.serial (b'\t' ∷ e.state), h.0.no_newline, h.1.no_newline),
  AllFree-short es h.2,
)

-- Of a reply that lists devices by serial, tab and state, each line ended by a newline, every
-- device is appended to the vector, in order, with its serial and its state, if these hold no
-- newline, no space and no tab.
pub get_device_info_from_buf-short :
    (devices_list : List DeviceInfo) (es : List ShortEntry)
    → AllWords es
    → get_device_info_from_buf devices_list (terminate b'\n' (map short_line es))
      ≡ ok (devices_list ++ map entry_info es)
unfolding get_device_info_from_buf
get_device_info_from_buf-short devices_list es h =
    rw (split_terminated (map short_line es) b'\n' (AllFree-short es h), get_device_info_from_buf)
      (rw (device_infos-short es h))
