-- ===== src/Utils/Devices/Long.antt =====
-- `get_device_info_from_buf` on the reply to `host:devices-l`, after `unique_spaces`.
use adb_client.Base.{◌≡◌, refl, List, [], ◌∷◌, ◌++◌, map, arith, Bytes, codes, ℤ}
use adb_client.DeviceInfo.{DeviceInfo}
use adb_client.Fault.{ok}
use adb_client.Number.{atoi}
use adb_client.Utils.Devices.Short.{IsWord, replace_tab-none}
use adb_client.Utils.Devices.{
  index, value_of, new_info, info_of_fields, device_info, device_infos, get_device_info_from_buf,
}
use adb_client.Utils.Split.{
  join, count, terminate, AllFree, count-join, string_split-join, split_terminated,
}

-- A field `name:value`.
abbrev pub tagged : Bytes → Bytes → Bytes
tagged name value = name ++ (b':' ∷ value)

-- One device of the reply; `transport` is the text of its transport id.
pub record LongEntry : Type 0 where
  pub serial : Bytes
  pub state : Bytes
  pub product : Bytes
  pub model : Bytes
  pub device : Bytes
  pub transport : Bytes
  pub transport_id : ℤ

-- The six fields of its line, with one space between any two.
abbrev pub fields_of : LongEntry → List Bytes
fields_of e =
    e.serial
    ∷ e.state
    ∷ tagged (codes "product") e.product
    ∷ tagged (codes "model") e.model
    ∷ tagged (codes "device") e.device
    ∷ tagged (codes "transport_id") e.transport
    ∷ []

abbrev pub long_line : LongEntry → Bytes
long_line e = join b' ' (fields_of e)

abbrev pub entry_info : LongEntry → DeviceInfo
entry_info e = record (new_info e.serial e.state) {
  product = e.product;
  model = e.model;
  device = e.device;
  transport_id = e.transport_id;
}

-- No newline, no space, no tab, no colon.
pub record IsValue (w : Bytes) : Type 0 where
  pub word : IsWord w
  pub no_colon : count b':' w ≡ 0

pub record IsEntry (e : LongEntry) : Type 0 where
  pub serial : IsWord e.serial
  pub state : IsWord e.state
  pub product : IsValue e.product
  pub model : IsValue e.model
  pub device : IsValue e.device
  pub transport : IsValue e.transport
  pub id : atoi e.transport ≡ ok e.transport_id

value_of-tagged :
    (name value : Bytes)
    → count b':' name ≡ 0
    → count b':' value ≡ 0
    → value_of (tagged name value) ≡ ok value
unfolding value_of index
value_of-tagged name value hn hv =
    rw (string_split-join name (value ∷ []) b':' (hn, (hv, tt)), value_of)

fields_of-AllFree :
    (e : LongEntry)
    → IsEntry e
    → AllFree b' ' (fields_of e) × AllFree b'\n' (fields_of e) × AllFree b'\t' (fields_of e)
fields_of-AllFree e h = omega arith

device_info-long : (e : LongEntry) → IsEntry e → device_info (long_line e) ≡ ok (entry_info e)
unfolding device_info info_of_fields index
device_info-long e h =
    let (spaces, _, tabs) = fields_of-AllFree e h in
    rw (replace_tab-none (long_line e) (count-join (fields_of e) b'\t' b' ' refl tabs), device_info)
      (rw (string_split-join e.serial _ b' ' spaces) (
        ground (
          arith,
          value_of-tagged (codes "product") e.product refl h.product.no_colon,
          value_of-tagged (codes "model") e.model refl h.model.no_colon,
          value_of-tagged (codes "device") e.device refl h.device.no_colon,
          value_of-tagged (codes "transport_id") e.transport refl h.transport.no_colon,
          h.id,
        )))

abbrev pub AllEntries : List LongEntry → Type 0
AllEntries [] = Unit
AllEntries (e ∷ es) = IsEntry e × AllEntries es

device_infos-long :
    (es : List LongEntry) → AllEntries es → device_infos (map long_line es) ≡ ok (map entry_info es)
unfolding device_infos
device_infos-long [] h = refl
device_infos-long (e ∷ es) h = rw (device_info-long e h.0) (rw (device_infos-long es h.1))

AllFree-long : (es : List LongEntry) → AllEntries es → AllFree b'\n' (map long_line es)
AllFree-long [] h = tt
AllFree-long (e ∷ es) h =
    (count-join (fields_of e) b'\n' b' ' refl (fields_of-AllFree e h.0).1, AllFree-long es h.1)

-- Of a reply that lists devices by the six fields serial, state, product, model, device and
-- transport_id, each line ended by a newline, every device is appended to the vector, in order,
-- with the values of all six, if these hold no newline, space, tab or colon (serial and state may
-- hold a colon) and `atoi` reads the transport id.
pub get_device_info_from_buf-long :
    (devices_list : List DeviceInfo) (es : List LongEntry)
    → AllEntries es
    → get_device_info_from_buf devices_list (terminate b'\n' (map long_line es))
      ≡ ok (devices_list ++ map entry_info es)
unfolding get_device_info_from_buf
get_device_info_from_buf-long devices_list es h =
    rw (split_terminated (map long_line es) b'\n' (AllFree-long es h), get_device_info_from_buf)
      (rw (device_infos-long es h))
