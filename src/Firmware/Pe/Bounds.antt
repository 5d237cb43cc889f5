-- ===== src/Firmware/Pe/Bounds.antt =====
-- Taking a section out of a PE file never reads outside the file, and what is taken is a piece of
-- it that fits the buffer.
use bythos.Base.{
  ℕ, zero, suc, ◌+◌, ◌-◌, ◌*◌, ◌≤◌, ◌<◌, ◌≡◌, refl, Bool, true, false, not, ◌&&◌, ◌||◌, Option,
  none, some, arith, Bytes, length, length-take, length-drop, take, drop, get_elem?-lt, ltb, leb,
  ◌==◌, if◌then◌else◌, Bool-cases, inl, inr,
}
use bythos.Efi.Reads.{read_le16-some, read_le32-some}
use bythos.Firmware.Pe.{
  read_slice, holds_four, holds_mz, section_table, pe_headers, wanted, name_matches, section_bytes,
  scan_sections, extract_pe_section,
}

-- The answer is no section, or a nonempty piece of the file that fits.
abbrev pub IsPiece : Bytes → ℕ → Option Bytes → Type 0
IsPiece bin out_size none = Unit
IsPiece bin out_size (some s) =
    (0 < length s)
    × (length s ≤ out_size)
    × ((offset : ℕ) × (offset + length s ≤ length bin) × (s ≡ take (length s) (drop offset bin)))

holds_four-some :
    (bin : Bytes) (offset a b c d : ℕ)
    → offset + 3 < length bin
    → (r : Bool) × (holds_four bin offset a b c d ≡ some r)
unfolding holds_four
holds_four-some bin offset a b c d h =
    let (p0, e0) = get_elem?-lt bin offset (omega arith) in
    let (p1, e1) = get_elem?-lt bin (offset + 1) (omega arith) in
    let (p2, e2) = get_elem?-lt bin (offset + 2) (omega arith) in
    let (p3, e3) = get_elem?-lt bin (offset + 3) h in
    (p0 == a && p1 == b && p2 == c && p3 == d, ground (arith, e0, e1, e2, e3))

holds_mz-some : (bin : Bytes) → 1 < length bin → (r : Bool) × (holds_mz bin ≡ some r)
unfolding holds_mz
holds_mz-some bin h =
    let (p0, e0) = get_elem?-lt bin 0 (omega arith) in
    let (p1, e1) = get_elem?-lt bin 1 h in (p0 == b'M' && p1 == b'Z', ground (arith, e0, e1))

-- The headers are read inside the file, and so is the section table that they announce.
abbrev TableFits : Bytes → Option (ℕ × ℕ) → Type 0
TableFits bin none = Unit
TableFits bin (some (table, num_sections)) = table + num_sections * 40 ≤ length bin

section_table-some :
    (bin : Bytes) (pe_offset : ℕ)
    → pe_offset + 24 ≤ length bin
    → (t : Option (ℕ × ℕ)) × (section_table bin pe_offset ≡ some t) × TableFits bin t
unfolding section_table
section_table-some bin pe_offset h =
    let (num_sections, e0) = read_le16-some bin (pe_offset + 4 + 2) (omega arith) in
    let (opt_size, e1) = read_le16-some bin (pe_offset + 4 + 16) (omega arith) in
    rw (e0, e1) (_, refl, ground arith)

pe_headers-some : (bin : Bytes) → (t : Option (ℕ × ℕ)) × (pe_headers bin ≡ some t) × TableFits bin t
unfolding pe_headers
pe_headers-some bin = elim (Bool-cases (ltb (length bin) 64)) [
  | inl short ↦ rw short (none, refl, tt)
  | inr long ↦
      let (mz, e0) = holds_mz-some bin (ground arith) in
      let (pe_offset, e1) = read_le32-some bin 0x3C (ground arith) in
      elim (Bool-cases
        (not mz || (ltb (length bin) pe_offset || ltb (length bin) (pe_offset + 4 + 20)))) [
          | inl refused ↦ (none, ground (arith, e0, e1), tt)
          | inr inside ↦
              let (pe, e2) = holds_four-some bin pe_offset b'P' b'E' 0 0 (ground arith) in
              let (t, e3, fits) = section_table-some bin pe_offset (ground arith) in
              elim (Bool-cases pe) [
                | inl signed ↦ (t, ground (arith, e0, e1, e2, e3), fits)
                | inr other ↦ (none, ground (arith, e0, e1, e2), tt)
              ]
        ]
]

name_matches-some :
    (left : ℕ) (bin : Bytes) (hdr : ℕ) (name : Bytes) (j : ℕ)
    → hdr + j + left ≤ length bin
    → (r : Bool) × (name_matches left bin hdr name j ≡ some r)
unfolding name_matches
name_matches-some zero bin hdr name j h = (true, refl)
name_matches-some (suc left) bin hdr name j h =
    let (c, e) = get_elem?-lt bin (hdr + j) (omega arith) in
    elim (Bool-cases (not (c == wanted name j))) [
      | inl differs ↦ rw (e, differs) (false, refl)
      | inr same ↦ rw (e, same) (name_matches-some left bin hdr name (j + 1) (omega arith))
    ]

read_slice-IsPiece :
    (bin : Bytes) (offset size out_size : ℕ)
    → 0 < size
    → size ≤ out_size
    → offset + size ≤ length bin
    → (s : Bytes) × (read_slice bin offset size ≡ some s) × IsPiece bin out_size (some s)
unfolding read_slice
read_slice-IsPiece bin offset size out_size pos fits inside =
    let s = take size (drop offset bin) in
    let n : length s ≡ size =
      omega (arith, length-take size (drop offset bin), length-drop offset bin) in
    (s, ground arith, rw n (pos, fits, (offset, inside, refl)))

section_bytes-IsPiece :
    (bin : Bytes) (hdr out_size : ℕ)
    → hdr + 24 ≤ length bin
    → (r : Option Bytes) × (section_bytes bin hdr out_size ≡ some r) × IsPiece bin out_size r
unfolding section_bytes
section_bytes-IsPiece bin hdr out_size h =
    let (virtual, e0) = read_le32-some bin (hdr + 8) (omega arith) in
    let (raw, e1) = read_le32-some bin (hdr + 16) (omega arith) in
    let (ptr, e2) = read_le32-some bin (hdr + 20) (omega arith) in
    let size = if ltb 0 virtual && leb virtual raw then virtual else raw in
    elim (Bool-cases
      (size == 0 || (ltb (length bin) ptr || (ltb (length bin - ptr) size || ltb out_size size)))) [
        | inl refused ↦ (none, ground (arith, e0, e1, e2), tt)
        | inr accepted ↦
            let (s, e3, piece) =
              read_slice-IsPiece bin ptr size out_size (ground arith) (ground arith)
                (ground arith) in
            (some s, ground (arith, e0, e1, e2, e3), piece)
      ]

scan_sections-IsPiece :
    (left : ℕ) (bin : Bytes) (hdr : ℕ) (name : Bytes) (out_size : ℕ)
    → hdr + left * 40 ≤ length bin
    → (r : Option Bytes) × (scan_sections left bin hdr name out_size ≡ some r)
      × IsPiece bin out_size r
unfolding scan_sections
scan_sections-IsPiece zero bin hdr name out_size h = (none, refl, tt)
scan_sections-IsPiece (suc left) bin hdr name out_size h =
    let (match, e) = name_matches-some 8 bin hdr name 0 (omega arith) in
    elim (Bool-cases match) [
      | inl found ↦ rw (e, found) (section_bytes-IsPiece bin hdr out_size (omega arith))
      | inr other ↦
          rw (e, other) (scan_sections-IsPiece left bin (hdr + 40) name out_size (omega arith))
    ]

at_table :
    (bin name : Bytes) (out_size : ℕ) (t : Option (ℕ × ℕ))
    → TableFits bin t
    → (r : Option Bytes) × (elim t [
      | none ↦ some none
      | some (table, num_sections) ↦
          if length name == 0 || ltb 8 (length name)
          then some none
          else scan_sections num_sections bin table name out_size
    ]
        ≡ some r)
      × IsPiece bin out_size r
at_table bin name out_size none fits = (none, refl, tt)
at_table bin name out_size (some (table, num_sections)) fits =
    elim (Bool-cases (length name == 0 || ltb 8 (length name))) [
      | inl refused ↦ rw refused (none, refl, tt)
      | inr named ↦ rw named (scan_sections-IsPiece num_sections bin table name out_size fits)
    ]

-- Whatever the file holds, looking for a section reads nothing outside the file. What is found is
-- a nonempty piece of the file, no longer than the buffer.
pub extract_pe_section-IsPiece :
    (bin name : Bytes) (out_size : ℕ)
    → (r : Option Bytes) × (extract_pe_section bin name out_size ≡ some r) × IsPiece bin out_size r
unfolding extract_pe_section
extract_pe_section-IsPiece bin name out_size = elim (Bool-cases (out_size == 0)) [
  | inl empty ↦ rw empty (none, refl, tt)
  | inr room ↦
      let (t, e, fits) = pe_headers-some bin in rw (room, e) (at_table bin name out_size t fits)
]
