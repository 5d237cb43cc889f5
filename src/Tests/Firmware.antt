-- ===== src/Tests/Firmware.antt =====
-- PE files and SBAT data at concrete bytes.
use bythos.Base.{
  ℕ, ◌≡◌, ◌↔◌, refl, Bool, false, true, Option, none, some, List, [], ◌∷◌, map, arith, Bytes, codes,
  All, if◌then◌else◌,
}
use bythos.Firmware.Pe.{extract_pe_section}
use bythos.Firmware.Pe.Bounds.{IsPiece, extract_pe_section-IsPiece}
use bythos.Firmware.Sbat.{SbatEntry, parse_sbat_csv, first_revoked}
use bythos.Firmware.Sbat.Csv.{ReadEntries, parse_sbat_csv-ReadEntries}
use bythos.Firmware.Sbat.Rows.{Row, IsRow, row_entry, print_rows, parse_sbat_csv-print_rows}
use bythos.Firmware.Sbat.Revoked.{Satisfies, first_revoked-none}

extract_pe_section-IsPiece_example :
    (r : Option Bytes) × (extract_pe_section (codes "MZ") (codes ".sbat") 16 ≡ some r)
    × IsPiece (codes "MZ") 16 r
extract_pe_section-IsPiece_example = extract_pe_section-IsPiece (codes "MZ") (codes ".sbat") 16

parse_sbat_csv-ReadEntries_example : ReadEntries (codes "shim,4\ngrub,-1\n") 32
parse_sbat_csv-ReadEntries_example = parse_sbat_csv-ReadEntries (codes "shim,4\ngrub,-1\n") 32

abbrev shim_row : Row
shim_row = record { component = codes "shim"; digits = codes "4"; others = codes ",1" }

shim_row-IsRow : IsRow shim_row
unfolding codes bythos.Base.take_while bythos.Base.is_digit
shim_row-IsRow = record {
  named = omega arith;
  name_fits = omega arith;
  name_plain = (refl, (refl, (refl, (refl, tt))));
  digits_some = omega arith;
  digits_fit = omega arith;
  digits_plain = (refl, tt);
  generation_fits = omega arith;
  others_apart = refl;
  in_one_line = (refl, (refl, (refl, (refl, (refl, (refl, (refl, (refl, tt))))))));
}

parse_sbat_csv-print_rows_example :
    parse_sbat_csv (print_rows (shim_row ∷ [])) 32 ≡ some (map row_entry (shim_row ∷ []))
parse_sbat_csv-print_rows_example =
    parse_sbat_csv-print_rows (shim_row ∷ []) 32 (shim_row-IsRow, tt) (omega arith)

abbrev shim_four : SbatEntry
shim_four = record { component = codes "shim"; generation = 4 }

abbrev shim_three : SbatEntry
shim_three = record { component = codes "shim"; generation = 3 }

first_revoked-none_example :
    (first_revoked (shim_four ∷ []) (shim_three ∷ []) ≡ none)
    ↔ All (Satisfies (shim_three ∷ [])) (shim_four ∷ [])
first_revoked-none_example = first_revoked-none (shim_four ∷ []) (shim_three ∷ [])

old_shim : first_revoked (shim_three ∷ []) (shim_four ∷ []) ≡ some shim_three
unfolding first_revoked codes
old_shim = refl

-- A negative generation is passed over, and the return and the newline behind a line are two ends.
two_lines :
    parse_sbat_csv (codes "shim,4\r\ngrub,-1\nfwupd,+2\nsystemd, 7") 32
    ≡ some (
        record { component = codes "shim"; generation = 4 }
        ∷ record { component = codes "systemd"; generation = 7 }
        ∷ [])
unfolding parse_sbat_csv codes bythos.Firmware.Sbat.skip_eol bythos.Firmware.Sbat.parse_sbat_line
    bythos.Firmware.Sbat.parse_fields bythos.Firmware.Sbat.parse_generation
    bythos.Firmware.Sbat.strtoul_all bythos.Firmware.Sbat.strtoul_sign
    bythos.Firmware.Sbat.digits_value bythos.Base.drop_while bythos.Base.take_while
    bythos.Base.is_space bythos.Base.is_digit
two_lines = refl
