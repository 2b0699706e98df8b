-- ===== src/Tests/Devices.antt =====
-- One run of the theorems on lists of devices.
use adb_client.Utils.Devices.Reference.{reference, get_device_info_from_buf-reference}
use adb_client.Utils.{get_lines_from_buf}
use adb_client.Fault.{◌>>=◌, ok}
use adb_client.Base.{◌≡◌, refl, List, [], ◌∷◌, ◌++◌, Bytes, codes, pos}
use adb_client.Number.{atoi, skip_spaces, is_space, sign, digits, digits_from, digit_value}
use adb_client.Utils.Devices.Long.{LongEntry, IsEntry}
use adb_client.Utils.Devices.Short.{ShortEntry, IsWord, AllWords}
use adb_client.Utils.Devices.{get_device_info_from_buf}
use adb_client.Utils.Split.{count}

abbrev word : (w : Bytes) → count b'\n' w ≡ 0 → count b' ' w ≡ 0 → count b'\t' w ≡ 0 → IsWord w
word w n s t = record { no_newline = n; no_space = s; no_tab = t }

abbrev pub short_entries : List ShortEntry
short_entries = record { serial = codes "abc"; state = codes "device" } ∷ []

pub short_words : AllWords short_entries
short_words = (word (codes "abc") refl refl refl, word (codes "device") refl refl refl, tt)

abbrev pub long_entry : LongEntry
long_entry = record {
  serial = codes "abc";
  state = codes "device";
  product = codes "p";
  model = codes "m";
  device = codes "d";
  transport = codes "12";
  transport_id = pos 12;
}

read_id : atoi (codes "12") ≡ ok (pos 12)
unfolding atoi skip_spaces is_space sign digits digits_from digit_value
read_id = refl

pub long_entry-IsEntry : IsEntry long_entry
long_entry-IsEntry = record {
  serial = word (codes "abc") refl refl refl;
  state = word (codes "device") refl refl refl;
  product = record { word = word (codes "p") refl refl refl; no_colon = refl };
  model = record { word = word (codes "m") refl refl refl; no_colon = refl };
  device = record { word = word (codes "d") refl refl refl; no_colon = refl };
  transport = record { word = word (codes "12") refl refl refl; no_colon = refl };
  id = read_id;
}

get_device_info_from_buf-reference_example :
    get_device_info_from_buf [] (codes "abc\tdevice\nxyz offline a b\n") ≡ (do
      infos ← reference (get_lines_from_buf [] (codes "abc\tdevice\nxyz offline a b\n"))
      ok ([] ++ infos))
get_device_info_from_buf-reference_example =
    get_device_info_from_buf-reference [] (codes "abc\tdevice\nxyz offline a b\n")
