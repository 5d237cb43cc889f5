-- ===== src/Checks/Boot/Order.antt =====
-- `check_efivars_boot` of src/check_bios_boot.c: risky entries in the boot order, and the override
-- for the next boot.
use bythos.Base.{
  ℕ, Bool, true, false, not, ◌||◌, Option, none, some, List, [], ◌∷◌, ◌++◌, Bytes, codes,
  if◌then◌else◌, ◌>>=◌,
}
use bythos.Posture.Types.{
  check_ok, check_warn, skip_output_unparseable, detail_max, CheckResult, Results, emit, emit_skip,
  emit_skip_feature, emit_all,
}
use bythos.Efi.DevicePath.{type_unknown, type_disk, type_cd, type_usb, type_network}
use bythos.Efi.Entry.{BootEntry}
use bythos.Efi.Order.{BootOrder, parse_efi_boot_order, parse_efi_boot_next}
use bythos.Runtime.Host.{Host}
use bythos.Runtime.Files.{file_exists, read_file_binary}
use bythos.Checks.Boot.{
  Listing, no_entries, boot_order_path, boot_next_path, read_boot_entry, append_entry_id,
  append_unclassified_entry, describe_incomplete_order, compose_blocked_detail,
}

-- What the loop over the order has seen. Of the counts of unreadable and of unclassified entries
-- only whether they are 0 is used.
pub record OrderScan : Type 0 where
  pub usb : Listing
  pub net : Listing
  pub cd : Listing
  pub unreadable : Listing
  pub unclassified : Listing

abbrev pub no_scan : OrderScan
no_scan = record {
  usb = no_entries;
  net = no_entries;
  cd = no_entries;
  unreadable = no_entries;
  unclassified = no_entries;
}

-- The listing with what an append gave.
abbrev pub extend : Option Bytes → Listing → Listing
extend none listing = record listing { found = true; all_listed = false }
extend (some entries) listing = record listing { found = true; entries = entries }

unfoldable pub add_id : ℕ → ℕ → Listing → Listing
unfolding append_entry_id
add_id size number listing = extend (append_entry_id listing.entries size number) listing

-- The body of the loop, by what reading the entry answers.
unfoldable pub scan_entry : ℕ → Option BootEntry → OrderScan → OrderScan
unfolding add_id append_unclassified_entry
scan_entry number none scan = record scan { unreadable = add_id 41 number scan.unreadable }
scan_entry number (some entry) scan = if not entry.active then scan else elim (entry.type) [
  | type_usb ↦ record scan { usb = add_id 200 number scan.usb }
  | type_network ↦ record scan { net = add_id 200 number scan.net }
  | type_cd ↦ record scan { cd = add_id 200 number scan.cd }
  | type_unknown ↦ record scan {
    unclassified =
        extend (append_unclassified_entry scan.unclassified.entries 64 number entry.description)
          scan.unclassified;
  }
  | type_disk ↦ scan
]

unfoldable pub scan_order : Host → List ℕ → OrderScan → Option OrderScan
unfolding scan_entry read_boot_entry
scan_order host [] scan = some scan
scan_order host (number ∷ numbers) scan = do
  entry ← read_boot_entry host number
  scan_order host numbers (scan_entry number entry scan)

-- `blocked`: empty where the whole order has been inspected.
unfoldable pub blocked_detail : OrderScan → Bool → Bytes
unfolding describe_incomplete_order
blocked_detail scan capped =
    if scan.unreadable.found || capped || scan.unclassified.found
    then describe_incomplete_order detail_max scan.unreadable scan.unclassified capped
    else []

-- The verdict on a medium.
unfoldable pub medium_result : Bytes → Bytes → Listing → Bytes → CheckResult
unfolding emit emit_skip compose_blocked_detail
medium_result name medium listing blocked =
    if listing.found
    then emit name check_warn (
        codes "active in EFI boot order: "
        ++ (listing.entries ++ (if listing.all_listed then [] else codes " and more")))
    else elim blocked [
      | [] ↦ emit name check_ok (codes "no active entry in EFI boot order")
      | c ∷ s ↦
          emit_skip name skip_output_unparseable (compose_blocked_detail detail_max (c ∷ s) medium)
    ]

unfoldable pub next_name : Bytes
next_name = codes "EFI one-shot boot"

-- The verdict on the entry that BootNext points to.
unfoldable pub next_verdict : Option BootEntry → CheckResult
unfolding emit
next_verdict none = emit next_name check_warn (codes "BootNext points to unreadable entry")
next_verdict (some entry) = elim (entry.type) [
  | type_usb ↦ emit next_name check_warn (codes "BootNext overrides to USB boot")
  | type_network ↦ emit next_name check_warn (codes "BootNext overrides to network boot")
  | type_cd ↦ emit next_name check_warn (codes "BootNext overrides to CD/DVD boot")
  | _ ↦ emit next_name check_ok (codes "BootNext does not point to USB, network, or optical boot")
]

-- `none` is an unreadable variable.
unfoldable pub next_number : Host → Option (Option ℕ)
unfolding parse_efi_boot_next
next_number host = elim (read_file_binary host boot_next_path 16) [
  | none ↦ some none
  | some buf ↦ parse_efi_boot_next buf
]

abbrev pub next_entry : Host → Option ℕ → Option CheckResult
next_entry host none =
    some (emit next_name check_warn (codes "BootNext variable present but unreadable"))
next_entry host (some number) = do entry ← read_boot_entry host number; some (next_verdict entry)

unfoldable pub next_result : Host → Option CheckResult
unfolding next_number read_boot_entry next_verdict emit
next_result host =
    if not (file_exists host boot_next_path)
    then some (emit next_name check_ok (codes "no boot override pending"))
    else (do number ← next_number host; next_entry host number)

-- The four rows, where the order itself is at fault.
unfoldable pub four_rows : (Bytes → CheckResult) → Results
four_rows row =
    row (codes "EFI USB boot")
    ∷ row (codes "EFI network boot")
    ∷ row (codes "EFI CD/DVD boot")
    ∷ row next_name
    ∷ []

unfoldable pub order_results : Host → BootOrder → Option Results
unfolding scan_order medium_result blocked_detail next_result
order_results host order = do
  scan ← scan_order host order.order no_scan
  next ← next_result host
  let blocked = blocked_detail scan order.truncated
  some (
      medium_result (codes "EFI USB boot") (codes "USB") scan.usb blocked
      ∷ medium_result (codes "EFI network boot") (codes "network") scan.net blocked
      ∷ medium_result (codes "EFI CD/DVD boot") (codes "CD/DVD") scan.cd blocked
      ∷ next
      ∷ [])

abbrev pub parsed_results : Host → Bool × BootOrder → Option Results
parsed_results host (false, order) = some (
    four_rows (λ (name : Bytes).
      emit_skip name skip_output_unparseable (codes "BootOrder variable malformed")))
parsed_results host (true, order) = order_results host order

unfoldable pub efivars_results : Host → Option Results
unfolding parse_efi_boot_order four_rows order_results emit_skip emit_skip_feature
efivars_results host =
    if not (file_exists host (codes "/sys/firmware/efi/efivars"))
    then some (four_rows (λ (name : Bytes). emit_skip_feature name (codes "EFI runtime")))
    else elim (read_file_binary host boot_order_path 256) [
      | none ↦
          some (four_rows (λ (name : Bytes). emit_skip_feature name (codes "BootOrder variable")))
      | some order_buf ↦ do answer ← parse_efi_boot_order order_buf; parsed_results host answer
    ]

unfoldable pub check_efivars_boot : Host → ℕ → Option Results
unfolding efivars_results emit_all
check_efivars_boot host max_results = do
  todo ← efivars_results host
  some (emit_all max_results todo [])
