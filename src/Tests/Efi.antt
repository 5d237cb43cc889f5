-- ===== src/Tests/Efi.antt =====
-- EFI variables at concrete bytes.
use bythos.Base.{
  ℕ, ◌≤◌, Bool, ◌≢◌, ◌≡◌, refl, true, some, List, [], ◌∷◌, ◌++◌, arith, Bytes, codes, length, take,
  ltb,
}
use bythos.Efi.Reads.{read_le32}
use bythos.Efi.DevicePath.{BootType, type_disk, classify_device_path, dp_extract_filepath}
use bythos.Efi.DevicePath.Bounds.{
  GivesText, classify_device_path-some, dp_extract_filepath-GivesText,
}
use bythos.Efi.Entry.{parse_efi_boot_entry, parse_load_option, desc_scan, read_paths, name_type}
use bythos.Efi.Entry.Bounds.{ParsedEntry, parse_efi_boot_entry-ParsedEntry}
use bythos.Efi.Order.{boot_max_entries, BootOrder, parse_efi_boot_order}
use bythos.Efi.Order.RoundTrip.{
  encode_words, parse_efi_boot_order-encode_words, parse_efi_boot_order-some,
}
use bythos.Efi.SigDb.{count_efi_sigdb_lists}
use bythos.Efi.SigDb.Count.{
  IsSigList, SigDb, end, list, count_efi_sigdb_lists-SigDb, count_efi_sigdb_lists_sound,
}

abbrev attributes : Bytes
attributes = 7 ∷ 0 ∷ 0 ∷ 0 ∷ []

-- A file path node for `\A`, and the end node.
abbrev path_nodes : Bytes
path_nodes = 4 ∷ 4 ∷ 10 ∷ 0 ∷ b'\\' ∷ 0 ∷ b'A' ∷ 0 ∷ 0 ∷ 0 ∷ 0x7F ∷ 0xFF ∷ 4 ∷ 0 ∷ []

-- An active entry with that path, described as `OS`.
abbrev pub boot_entry : Bytes
boot_entry = attributes ++ 1 ∷ 0 ∷ 0 ∷ 0 ∷ 14 ∷ 0 ∷ b'O' ∷ 0 ∷ b'S' ∷ 0 ∷ 0 ∷ 0 ∷ path_nodes

entry_runs :
    parse_efi_boot_entry boot_entry 3
    ≡ some (
      true,
      record {
        number = 3;
        active = true;
        type = type_disk;
        description = codes "OS";
        filepath = codes "\\A";
      },
    )
unfolding parse_efi_boot_entry parse_load_option desc_scan read_paths name_type classify_device_path
    dp_extract_filepath read_le32 codes
entry_runs = refl

parse_efi_boot_entry-ParsedEntry_example : ParsedEntry boot_entry 3
parse_efi_boot_entry-ParsedEntry_example = parse_efi_boot_entry-ParsedEntry boot_entry 3

classify_device_path-some_example : (t : BootType) × (classify_device_path path_nodes 14 ≡ some t)
classify_device_path-some_example = classify_device_path-some path_nodes 14 (omega arith)

dp_extract_filepath-GivesText_example : GivesText 255 (dp_extract_filepath path_nodes 14 256)
dp_extract_filepath-GivesText_example =
    dp_extract_filepath-GivesText path_nodes 14 256 (omega arith) (omega arith)

abbrev two_entries : List ℕ
two_entries = 1 ∷ 0x2001 ∷ []

parse_efi_boot_order-encode_words_example :
    parse_efi_boot_order (attributes ++ encode_words two_entries)
    ≡ some (
      true,
      record {
        order = take boot_max_entries two_entries;
        order_count = length (take boot_max_entries two_entries);
        truncated = ltb boot_max_entries (length two_entries);
      },
    )
parse_efi_boot_order-encode_words_example =
    parse_efi_boot_order-encode_words attributes two_entries refl (omega arith)

-- A list with no header and one signature of 17 bytes.
abbrev one_list : Bytes
one_list =
    1 ∷ 2 ∷ 3 ∷ 4 ∷ 5 ∷ 6 ∷ 7 ∷ 8 ∷ 9 ∷ 10 ∷ 11 ∷ 12 ∷ 13 ∷ 14 ∷ 15 ∷ 16 ∷ 45 ∷ 0 ∷ 0 ∷ 0 ∷ 0 ∷ 0
    ∷ 0 ∷ 0 ∷ 17 ∷ 0 ∷ 0 ∷ 0 ∷ 1 ∷ 2 ∷ 3 ∷ 4 ∷ 5 ∷ 6 ∷ 7 ∷ 8 ∷ 9 ∷ 10 ∷ 11 ∷ 12 ∷ 13 ∷ 14 ∷ 15 ∷ 16
    ∷ 17 ∷ []

one_list-IsSigList : IsSigList one_list
unfolding read_le32
one_list-IsSigList = record {
  header_size = 0;
  signature_size = 17;
  signatures = 1;
  size_field = refl;
  header_field = refl;
  signature_field = refl;
  whole = refl;
  nonempty = omega arith;
  owned = omega arith;
}

one_list-SigDb : SigDb one_list 1
one_list-SigDb = list one_list [] refl one_list-IsSigList end

parse_efi_boot_order-some_example :
    (r : Bool × BootOrder) × (parse_efi_boot_order boot_entry ≡ some r)
    × (length r.1.order ≡ r.1.order_count)
    × (r.1.order_count ≤ boot_max_entries)
parse_efi_boot_order-some_example = parse_efi_boot_order-some boot_entry

count_efi_sigdb_lists-SigDb_example : count_efi_sigdb_lists (attributes ++ one_list) ≡ some 1
count_efi_sigdb_lists-SigDb_example = count_efi_sigdb_lists-SigDb attributes refl one_list-SigDb

count_efi_sigdb_lists_sound_example :
    (answer : ℕ) × (count_efi_sigdb_lists (attributes ++ one_list) ≡ some answer)
    × (answer ≢ 0 → SigDb one_list answer)
count_efi_sigdb_lists_sound_example = count_efi_sigdb_lists_sound attributes one_list refl
