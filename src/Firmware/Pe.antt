-- ===== src/Firmware/Pe.antt =====
-- `bythos_extract_pe_section` of src/firmware_parsers.c: the bytes of a named section of a PE file.
-- The outer `none` is a read outside the file, and the inner one the answer `false`.
pub mod Bounds
use bythos.Base.{
  ℕ, zero, suc, ◌+◌, ◌-◌, ◌*◌, Bool, true, false, not, ◌&&◌, ◌||◌, Option, none, some, Bytes,
  length, take, drop, get_elem?, ltb, leb, ◌==◌, if◌then◌else◌, ◌>>=◌,
}
use bythos.Efi.Reads.{read_le16, read_le32}

abbrev pub pe_max_sections : ℕ
pe_max_sections = 96

-- `memcpy(out_buf, bin + offset, size)`
unfoldable pub read_slice : Bytes → ℕ → ℕ → Option Bytes
read_slice bin offset size =
    if leb (offset + size) (length bin) then some (take size (drop offset bin)) else none

-- Does the file hold these four bytes at `offset`? The later ones are read only if the earlier
-- ones fit.
unfoldable pub holds_four : Bytes → ℕ → ℕ → ℕ → ℕ → ℕ → Option Bool
holds_four bin offset a b c d = do
  p0 ← get_elem? bin offset
  if not (p0 == a) then some false else (do
    p1 ← get_elem? bin (offset + 1)
    if not (p1 == b) then some false else (do
      p2 ← get_elem? bin (offset + 2)
      if not (p2 == c) then some false else (do p3 ← get_elem? bin (offset + 3); some (p3 == d))))

unfoldable pub holds_mz : Bytes → Option Bool
holds_mz bin = do
  p0 ← get_elem? bin 0
  if not (p0 == b'M') then some false else (do p1 ← get_elem? bin 1; some (p1 == b'Z'))

-- Behind the signature: where the section table starts, and how many sections it has.
unfoldable pub section_table : Bytes → ℕ → Option (Option (ℕ × ℕ))
section_table bin pe_offset = do
  num_sections ← read_le16 bin (pe_offset + 4 + 2)
  opt_size ← read_le16 bin (pe_offset + 4 + 16)
  let table = pe_offset + 4 + 20 + opt_size
  some (
      if num_sections == 0 || ltb pe_max_sections num_sections
      then none
      else if ltb (length bin) table
      then none
      else if ltb (length bin - table) (num_sections * 40)
      then none
      else some (table, num_sections))

unfoldable pub pe_headers : Bytes → Option (Option (ℕ × ℕ))
pe_headers bin = if ltb (length bin) 64 then some none else (do
  mz ← holds_mz bin
  if not mz then some none else (do
    pe_offset ← read_le32 bin 0x3C
    if ltb (length bin) pe_offset
        then some none
        else if ltb (length bin) (pe_offset + 4 + 20)
        then some none
        else (do
          pe ← holds_four bin pe_offset b'P' b'E' 0 0
          if not pe then some none else section_table bin pe_offset)))

-- `j < name_len ? section_name[j] : '\0'`
unfoldable pub wanted : Bytes → ℕ → ℕ
wanted name j = elim (get_elem? name j) [ none ↦ 0 | some c ↦ c ]

-- The comparison of a section's name, from its byte `j` on, with `left` bytes to compare.
unfoldable pub name_matches : ℕ → Bytes → ℕ → Bytes → ℕ → Option Bool
unfolding wanted
name_matches zero bin hdr name j = some true
name_matches (suc left) bin hdr name j = do
  c ← get_elem? bin (hdr + j)
  if not (c == wanted name j) then some false else name_matches left bin hdr name (j + 1)

-- The section whose header is at `hdr`, for a buffer of `out_size` bytes.
unfoldable pub section_bytes : Bytes → ℕ → ℕ → Option (Option Bytes)
unfolding read_slice
section_bytes bin hdr out_size = do
  virtual_size ← read_le32 bin (hdr + 8)
  size_of_raw_data ← read_le32 bin (hdr + 16)
  ptr_to_raw_data ← read_le32 bin (hdr + 20)
  let within_raw = ltb 0 virtual_size && leb virtual_size size_of_raw_data
  let effective = if within_raw then virtual_size else size_of_raw_data
  if effective == 0
      then some none
      else if ltb (length bin) ptr_to_raw_data
      then some none
      else if ltb (length bin - ptr_to_raw_data) effective
      then some none
      else if ltb out_size effective
      then some none
      else (do copied ← read_slice bin ptr_to_raw_data effective; some (some copied))

-- The loop over the section headers, with `left` of them to go from the one at `hdr` on.
unfoldable pub scan_sections : ℕ → Bytes → ℕ → Bytes → ℕ → Option (Option Bytes)
scan_sections zero bin hdr name out_size = some none
scan_sections (suc left) bin hdr name out_size = do
  match ← name_matches 8 bin hdr name 0
  if match then section_bytes bin hdr out_size else scan_sections left bin (hdr + 40) name out_size

unfoldable pub extract_pe_section : Bytes → Bytes → ℕ → Option (Option Bytes)
extract_pe_section bin name out_size = if out_size == 0 then some none else (do
  headers ← pe_headers bin
  elim headers [
    | none ↦ some none
    | some (table, num_sections) ↦
        if length name == 0 || ltb 8 (length name)
        then some none
        else scan_sections num_sections bin table name out_size
  ])
