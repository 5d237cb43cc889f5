-- ===== src/Efi/Entry/Bounds.antt =====
-- The parser of a boot entry stays inside the variable, and its texts fit their buffers.
use Prim.Native.Nat.{bit_and}
use bythos.Base.{
  ℕ, zero, suc, ◌+◌, ◌-◌, ◌≤◌, ◌<◌, ◌≡◌, refl, ◌∙◌, Bool, true, false, not, ◌&&◌, Option, some,
  arith, Bytes, All, length, length-drop, min, drop, get_elem?-lt, ltb, leb, ltb→lt, ◌==◌,
  if◌then◌else◌, Bool-cases, inl, inr,
}
use bythos.Efi.Reads.{read_le16-some, read_le32-some}
use bythos.Efi.DevicePath.Bounds.{
  IsAscii, utf16le_to_ascii-GivesText, classify_device_path-some, dp_extract_filepath-GivesText,
}
use bythos.Efi.Entry.{
  BootEntry, empty_entry, desc_scan, read_paths, name_type, parse_load_option, parse_efi_boot_entry,
}

-- The texts of an entry are ASCII, and leave room for the NUL of `description[128]` and
-- `filepath[256]`.
pub record TextsFit (entry : BootEntry) : Type 0 where
  pub description_fits : length entry.description ≤ 127
  pub description_ascii : All IsAscii entry.description
  pub filepath_fits : length entry.filepath ≤ 255
  pub filepath_ascii : All IsAscii entry.filepath

desc_scan-some :
    (fuel : ℕ) (desc : Bytes) (desc_bytes i desc_end : ℕ)
    → desc_bytes ≤ length desc
    → 0 < fuel
    → desc_bytes < fuel + i
    → desc_end ≤ desc_bytes
    → (found : ℕ × Bool) × (desc_scan fuel desc desc_bytes i desc_end ≡ some found)
      × (found.0 ≤ desc_bytes)
unfolding desc_scan
desc_scan-some zero desc desc_bytes i desc_end h pos enough e = absurd (omega arith)
desc_scan-some (suc fuel) desc desc_bytes i desc_end h pos enough e =
    elim (Bool-cases (ltb (i + 1) desc_bytes)) [
      | inr over ↦ rw over ((desc_end, false), refl, e)
      | inl more ↦
          let inside : i + 1 < desc_bytes = ltb→lt _ _ more in
          let (low, e0) = get_elem?-lt desc i (omega arith) in
          let (high, e1) = get_elem?-lt desc (i + 1) (omega arith) in
          elim (Bool-cases (low == 0 && high == 0)) [
            | inl nul ↦ rw (more, e0, e1, nul) ((i, true), refl, omega arith)
            | inr text ↦
                rw (more, e0, e1, text)
                  (desc_scan-some fuel desc desc_bytes (i + 2) (i + 2) h (omega arith) (omega arith)
                    (omega arith))
          ]
    ]

-- The computation ends with an entry of that number whose texts fit.
record GivesEntry (number : ℕ) (m : Option BootEntry) : Type 0 where
  entry : BootEntry
  given : m ≡ some entry
  numbered : entry.number ≡ number
  texts : TextsFit entry

read_paths-GivesEntry :
    (p : Bytes) (fp_list_len dp_offset : ℕ) (entry : BootEntry)
    → TextsFit entry
    → GivesEntry entry.number (read_paths p (length p) fp_list_len dp_offset entry)
unfolding read_paths
read_paths-GivesEntry p fp_list_len dp_offset entry f =
    elim (Bool-cases (ltb dp_offset (length p))) [
      | inr none_left ↦
          rw none_left (record { entry = entry; given = refl; numbered = refl; texts = f })
      | inl left ↦
          let avail = min (length p - dp_offset) fp_list_len in
          let fits : avail ≤ length (drop dp_offset p) = omega (arith, length-drop dp_offset p) in
          let (t, e0) = classify_device_path-some (drop dp_offset p) avail fits in
          let path =
            dp_extract_filepath-GivesText (drop dp_offset p) avail 256 fits (omega arith) in
          rw (left, e0, path.given)
            (record {
              entry = record entry { type = t; filepath = path.text };
              given = refl;
              numbered = refl;
              texts = record {
                description_fits = f.description_fits;
                description_ascii = f.description_ascii;
                filepath_fits = path.fits;
                filepath_ascii = path.ascii;
              };
            })
    ]

name_type-keeps :
    (entry : BootEntry)
    → ((name_type entry).number ≡ entry.number)
      × ((name_type entry).description ≡ entry.description)
      × ((name_type entry).filepath ≡ entry.filepath)
unfolding name_type
name_type-keeps entry = ground arith

name_type-TextsFit : (entry : BootEntry) → TextsFit entry → TextsFit (name_type entry)
name_type-TextsFit entry f =
    let (_, same_description, same_filepath) = name_type-keeps entry in
    record {
      description_fits = rw same_description f.description_fits;
      description_ascii = rw same_description f.description_ascii;
      filepath_fits = rw same_filepath f.filepath_fits;
      filepath_ascii = rw same_filepath f.filepath_ascii;
    }

with_paths-GivesEntry :
    (listed : Bool) (p : Bytes) (fp_list_len dp_offset : ℕ) (entry : BootEntry)
    → TextsFit entry
    → GivesEntry entry.number
        (if listed then read_paths p (length p) fp_list_len dp_offset entry else some entry)
with_paths-GivesEntry true p fp_list_len dp_offset entry f =
    read_paths-GivesEntry p fp_list_len dp_offset entry f
with_paths-GivesEntry false p fp_list_len dp_offset entry f = record {
  entry = entry;
  given = refl;
  numbered = refl;
  texts = f;
}

parse_load_option-GivesEntry :
    (p : Bytes) (number : ℕ) → 8 ≤ length p → GivesEntry number (parse_load_option p number)
unfolding parse_load_option
parse_load_option-GivesEntry p number h =
    let desc = drop 6 p in
    let (load_attrs, e0) = read_le32-some p 0 (omega arith) in
    let (fp_list_len, e1) = read_le16-some p 4 (omega arith) in
    let inside : length p - 6 ≤ length desc = omega (arith, length-drop 6 p) in
    let (found, e2, end_le) =
      desc_scan-some (suc (length p - 6)) desc (length p - 6) 0 0 inside (omega arith) (omega arith)
        (omega arith) in
    let text = utf16le_to_ascii-GivesText desc found.0 128 (omega arith) in
    let entry = record (empty_entry number) {
      active = not (bit_and load_attrs 0x01 == 0);
      description = text.text;
    } in
    let f : TextsFit entry = record {
      description_fits = text.fits;
      description_ascii = text.ascii;
      filepath_fits = omega arith;
      filepath_ascii = tt;
    } in
    let g =
      with_paths-GivesEntry (found.1 && ltb 0 fp_list_len) p fp_list_len (6 + found.0 + 2) entry
        f in
    rw (e0, e1, e2, text.given, g.given)
      (record {
        entry = name_type g.entry;
        given = refl;
        numbered = (name_type-keeps g.entry).0 ∙ g.numbered;
        texts = name_type-TextsFit g.entry g.texts;
      })

-- What the parser answers for a variable and an entry number.
pub record ParsedEntry (buf : Bytes) (number : ℕ) : Type 0 where
  pub entry : BootEntry
  pub given : parse_efi_boot_entry buf number ≡ some (leb 12 (length buf), entry)
  pub numbered : entry.number ≡ number
  pub texts : TextsFit entry

-- Whatever the variable holds, the parser reads only inside it and ends. It accepts exactly the
-- variables of 12 bytes or more, and the entry has the given number and texts that fit.
pub parse_efi_boot_entry-ParsedEntry : (buf : Bytes) (number : ℕ) → ParsedEntry buf number
parse_efi_boot_entry-ParsedEntry buf number = elim (Bool-cases (ltb (length buf) 12)) [
  | inl short ↦ record {
    entry = empty_entry number;
    given = unfold parse_efi_boot_entry in rw short (ground arith);
    numbered = refl;
    texts = record {
      description_fits = omega arith;
      description_ascii = tt;
      filepath_fits = omega arith;
      filepath_ascii = tt;
    };
  }
  | inr long ↦
      let g =
        parse_load_option-GivesEntry (drop 4 buf) number (ground (arith, length-drop 4 buf)) in
      record {
        entry = g.entry;
        given = unfold parse_efi_boot_entry in rw (long, g.given) (ground arith);
        numbered = g.numbered;
        texts = g.texts;
      }
]
