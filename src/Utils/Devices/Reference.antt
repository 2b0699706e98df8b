-- ===== src/Utils/Devices/Reference.antt =====
-- `get_device_info_from_buf` against what a line means by the number of its words.
use adb_client.Base.{
  ℕ, ◌≡◌, refl, Bool, true, false, ◌&&◌, List, [], ◌∷◌, ◌++◌, append-nil, append_assoc, arith,
  Bytes, if◌then◌else◌,
}
use adb_client.DeviceInfo.{DeviceInfo}
use adb_client.Fault.{Result, ok, err, out_of_bounds, ◌>>=◌}
use adb_client.Number.{atoi}
use adb_client.Utils.Cut.{before, behind, has}
use adb_client.Utils.Devices.{
  index, replace_tab, value_of, new_info, info_of_fields, device_info, device_infos,
  get_device_info_from_buf,
}
use adb_client.Utils.{split_from, string_split, get_lines_from_buf, pop_back}

-- The value of a field `name:value`, up to a second colon.
abbrev pub value : Bytes → Bytes
value field = before b':' (behind b':' field)

-- Two words, three words, or six words and more with a colon in each of the third to the sixth.
abbrev pub is_readable : List Bytes → Bool
is_readable (s ∷ t ∷ []) = true
is_readable (s ∷ t ∷ p ∷ []) = true
is_readable (s ∷ t ∷ p ∷ m ∷ d ∷ i ∷ more) = has b':' p && has b':' m && has b':' d && has b':' i
is_readable _ = false

-- The device of a readable line: of six words or more all six, of fewer the serial and the state.
abbrev pub described : List Bytes → Result DeviceInfo
described (s ∷ t ∷ p ∷ m ∷ d ∷ i ∷ more) = do
  id ← atoi (value i)
  ok (record (new_info s t) {
    product = value p;
    model = value m;
    device = value d;
    transport_id = id;
  })
described (s ∷ t ∷ more) = ok (new_info s t)
described _ = err out_of_bounds

abbrev pub words : Bytes → List Bytes
words line = string_split (replace_tab line) b' '

-- What the lines mean: the devices, or the fault of the first line that is not readable, or whose
-- identifier is no `int`.
abbrev pub reference : List Bytes → Result (List DeviceInfo)
reference [] = ok []
reference (line ∷ lines) = do
  info ← (if is_readable (words line) then described (words line) else err out_of_bounds)
  infos ← reference lines
  ok (info ∷ infos)

index-first : (w s : Bytes) (d : ℕ) → index (split_from w s d) 0 ≡ ok (w ++ before d s)
unfolding index split_from
index-first w [] d = rw (append-nil w)
index-first w (c ∷ cs) d =
    ground
      (arith, append-nil w, index-first (w ++ (c ∷ [])) cs d, append_assoc w (c ∷ []) (before d cs))

index-second :
    (w s : Bytes) (d : ℕ)
    → index (split_from w s d) 1
      ≡ (if has d s then ok (before d (behind d s)) else err out_of_bounds)
unfolding index split_from
index-second w [] d = refl
index-second w (c ∷ cs) d = ground (arith, index-first [] cs d, index-second (w ++ (c ∷ [])) cs d)

value_of_lem :
    (field : Bytes)
    → value_of field ≡ (if has b':' field then ok (value field) else err out_of_bounds)
unfolding value_of string_split
value_of_lem field = index-second [] field b':'

info_of_fields-described :
    (fields : List Bytes)
    → info_of_fields fields ≡ (if is_readable fields then described fields else err out_of_bounds)
unfolding info_of_fields index
info_of_fields-described [] = refl
info_of_fields-described (s ∷ []) = refl
info_of_fields-described (s ∷ t ∷ []) = refl
info_of_fields-described (s ∷ t ∷ p ∷ []) = refl
info_of_fields-described (s ∷ t ∷ p ∷ m ∷ []) = ground (arith, value_of_lem p, value_of_lem m)
info_of_fields-described (s ∷ t ∷ p ∷ m ∷ d ∷ []) =
    ground (arith, value_of_lem p, value_of_lem m, value_of_lem d)
info_of_fields-described (s ∷ t ∷ p ∷ m ∷ d ∷ i ∷ more) =
    ground (arith, value_of_lem p, value_of_lem m, value_of_lem d, value_of_lem i)

device_infos-reference : (lines : List Bytes) → device_infos lines ≡ reference lines
unfolding device_infos device_info
device_infos-reference [] = refl
device_infos-reference (line ∷ lines) =
    rw (info_of_fields-described (words line), device_infos) (rw (device_infos-reference lines))

-- Of every buffer, `get_device_info_from_buf` appends the devices of its lines, up to the last
-- newline, to the vector. A line has two or three words, or six and more with a colon in each of
-- the third to the sixth, whose value is what stands between its first and its second colon. The
-- first line that is none of these is an index past the end of a vector; an identifier that is no
-- `int` is a fault as well.
pub get_device_info_from_buf-reference :
    (devices_list : List DeviceInfo) (buf : Bytes)
    → get_device_info_from_buf devices_list buf
      ≡ (do infos ← reference (get_lines_from_buf [] buf); ok (devices_list ++ infos))
unfolding get_device_info_from_buf get_lines_from_buf
get_device_info_from_buf-reference devices_list buf =
    rw (device_infos-reference (pop_back (string_split buf b'\n')))
