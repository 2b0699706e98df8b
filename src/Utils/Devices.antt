-- ===== src/Utils/Devices.antt =====
-- src/utils.cpp: `get_device_info_from_buf`, over the text of the `devices` requests.
pub mod Short
pub mod Long
pub mod Faults
pub mod Reference
use adb_client.Base.{
  ℕ, zero, suc, List, [], ◌∷◌, ◌++◌, Bytes, ℤ, negsuc, length, ltb, ◌==◌, if◌then◌else◌,
}
use adb_client.DeviceInfo.{DeviceInfo, unknown}
use adb_client.Fault.{Result, ok, err, ◌>>=◌, out_of_bounds}
use adb_client.Number.{atoi}
use adb_client.Utils.{pop_back, string_split}

-- `v[i]` of a vector: past the end it is undefined behaviour.
unfoldable pub index : List Bytes → ℕ → Result Bytes
index [] i = err out_of_bounds
index (x ∷ xs) zero = ok x
index (x ∷ xs) (suc i) = index xs i

-- The first tab becomes a space; with no tab nothing changes.
unfoldable pub replace_tab : Bytes → Bytes
replace_tab [] = []
replace_tab (c ∷ cs) = if c == b'\t' then b' ' ∷ cs else c ∷ replace_tab cs

-- `string_split(field, ':')[1]`.
unfoldable pub value_of : Bytes → Result Bytes
value_of field = index (string_split field b':') 1

-- A `DeviceInfo` with the default member initialisers.
abbrev pub new_info : Bytes → Bytes → DeviceInfo
new_info serial state = record {
  serial = serial;
  state = state;
  bus_address = [];
  product = [];
  model = [];
  device = [];
  connection_type = unknown;
  transport_id = negsuc 0;
}

-- the branch for more than three fields
long_info : List Bytes → Result DeviceInfo
long_info fields = do
  serial ← index fields 0
  state ← index fields 1
  product ← (do field ← index fields 2; value_of field)
  model ← (do field ← index fields 3; value_of field)
  device ← (do field ← index fields 4; value_of field)
  id ← (do field ← index fields 5; value_of field)
  transport_id ← atoi id
  ok (record (new_info serial state) {
    product = product;
    model = model;
    device = device;
    transport_id = transport_id;
  })

-- the other branch
short_info : List Bytes → Result DeviceInfo
short_info fields = do serial ← index fields 0; state ← index fields 1; ok (new_info serial state)

unfoldable pub info_of_fields : List Bytes → Result DeviceInfo
unfolding long_info short_info
info_of_fields fields = if ltb 3 (length fields) then long_info fields else short_info fields

-- One round of the loop.
unfoldable pub device_info : Bytes → Result DeviceInfo
device_info line = info_of_fields (string_split (replace_tab line) b' ')

unfoldable pub device_infos : List Bytes → Result (List DeviceInfo)
device_infos [] = ok []
device_infos (line ∷ lines) = do
  info ← device_info line
  infos ← device_infos lines
  ok (info ∷ infos)

-- The devices are appended to the vector that is passed in.
unfoldable pub get_device_info_from_buf : List DeviceInfo → Bytes → Result (List DeviceInfo)
get_device_info_from_buf devices_list buf = do
  infos ← device_infos (pop_back (string_split buf b'\n'))
  ok (devices_list ++ infos)
