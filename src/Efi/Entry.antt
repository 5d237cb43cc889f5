-- ===== src/Efi/Entry.antt =====
-- `classify_description` and `bythos_parse_efi_boot_entry`.
pub mod Bounds
use Prim.Native.Nat.{bit_and}
use bythos.Base.{
  ℕ, zero, suc, ◌+◌, ◌-◌, ◌≡◌, refl, Bool, true, false, not, ◌&&◌, ◌||◌, Option, none, some, [],
  Bytes, codes, length, take, drop, get_elem?, map, min, to_lower, contains, ltb, ◌==◌,
  if◌then◌else◌, ◌>>=◌,
}
use bythos.Efi.Reads.{read_le16, read_le32}
use bythos.Efi.DevicePath.{
  BootType, type_unknown, type_disk, type_cd, type_usb, type_network, utf16le_to_ascii,
  classify_device_path, dp_extract_filepath,
}

-- `bythos_to_lower_ascii` into a buffer of `dst_size` bytes.
unfoldable pub to_lower_ascii : Bytes → ℕ → Bytes
unfolding to_lower
to_lower_ascii src dst_size = map to_lower (take (dst_size - 1) src)

unfoldable pub classify_description : Bytes → BootType
unfolding to_lower_ascii contains codes
classify_description desc =
    let lower = to_lower_ascii desc 128 in
    if contains lower (codes "usb") || contains lower (codes "removable")
    then type_usb
    else if contains lower (codes "network")
        || contains lower (codes "pxe")
        || contains lower (codes "ipv4")
        || contains lower (codes "ipv6")
        || contains lower (codes "lan")
    then type_network
    else if contains lower (codes "cd") || contains lower (codes "dvd")
    then type_cd
    else type_unknown

pub record BootEntry : Type 0 where
  pub number : ℕ
  pub active : Bool
  pub type : BootType
  pub description : Bytes
  pub filepath : Bytes

abbrev pub empty_entry : ℕ → BootEntry
empty_entry number = record {
  number = number;
  active = false;
  type = type_unknown;
  description = [];
  filepath = [];
}

-- The loop over the description from byte `i` on: `desc_end` and `desc_terminated`.
unfoldable pub desc_scan : ℕ → Bytes → ℕ → ℕ → ℕ → Option (ℕ × Bool)
desc_scan zero desc desc_bytes i desc_end = none
desc_scan (suc fuel) desc desc_bytes i desc_end =
    if ltb (i + 1) desc_bytes
    then (do
      low ← get_elem? desc i
      high ← get_elem? desc (i + 1)
      if low == 0 && high == 0
          then some (i, true)
          else desc_scan fuel desc desc_bytes (i + 2) (i + 2))
    else some (desc_end, false)

-- The device path list: `p` is the load option, and `dp_offset` where the list starts.
unfoldable pub read_paths : Bytes → ℕ → ℕ → ℕ → BootEntry → Option BootEntry
read_paths p remaining fp_list_len dp_offset entry =
    if ltb dp_offset remaining
    then (do
      let dp_avail = min (remaining - dp_offset) fp_list_len
      type ← classify_device_path (drop dp_offset p) dp_avail
      filepath ← dp_extract_filepath (drop dp_offset p) dp_avail 256
      some (record entry { type = type; filepath = filepath }))
    else some entry

-- The last step: an entry that its device path does not classify goes by its description.
unfoldable pub name_type : BootEntry → BootEntry
name_type entry = elim entry.type [
  | type_unknown ↦ record entry { type = classify_description entry.description }
  | _ ↦ entry
]

-- Behind the guard on the length: `p` is the load option, and its 6 first bytes are there.
unfoldable pub parse_load_option : Bytes → ℕ → Option BootEntry
parse_load_option p number = do
  let remaining = length p
  load_attrs ← read_le32 p 0
  fp_list_len ← read_le16 p 4
  let desc = drop 6 p
  (desc_end, terminated) ← desc_scan (suc (remaining - 6)) desc (remaining - 6) 0 0
  description ← utf16le_to_ascii desc desc_end 128
  let entry = record (empty_entry number) {
    active = not (bit_and load_attrs 0x01 == 0);
    description = description;
  }
  entry' ←
      (if terminated && ltb 0 fp_list_len
        then read_paths p remaining fp_list_len (6 + desc_end + 2) entry
        else some entry)
  some (name_type entry')

-- The C function's answer and the entry that it leaves behind.
unfoldable pub parse_efi_boot_entry : Bytes → ℕ → Option (Bool × BootEntry)
parse_efi_boot_entry buf number =
    if ltb (length buf) 12
    then some (false, empty_entry number)
    else do entry ← parse_load_option (drop 4 buf) number; some (true, entry)
