-- ===== src/Checks/Boot/Report.antt =====
-- The check of src/check_bios_boot.c as a whole: it reads nothing outside the variables, and writes
-- its rows in the order of the code.
use bythos.Base.{
  ℕ, ◌≡◌, refl, ap, ◌∙◌, Bool, true, false, Option, none, some, List, [], ◌∷◌, ◌++◌, arith, Bytes,
  codes, length, take, ltb, leb, Bool-cases, Option-cases, inl, inr, append_assoc,
}
use bythos.Posture.Types.{Results, emit_all, emit_all-nil}
use bythos.Efi.Entry.Bounds.{parse_efi_boot_entry-ParsedEntry}
use bythos.Efi.Reads.{read_le16-some}
use bythos.Efi.Order.{BootOrder, parse_efi_boot_next}
use bythos.Efi.Order.RoundTrip.{parse_efi_boot_order-some}
use bythos.Runtime.Host.{Host}
use bythos.Runtime.Files.{file_exists, read_file_binary_ex, read_file_binary}
use bythos.Checks.Room.{behind_written-take, Answers, emit_guarded-take}
use bythos.Checks.Boot.{boot_order_path, boot_next_path, boot_entry_path, accepted, read_boot_entry}
use bythos.Checks.Boot.Order.{
  OrderScan, no_scan, scan_entry, scan_order, next_number, next_entry, next_result, order_results,
  parsed_results, efivars_results, check_efivars_boot,
}
use bythos.Checks.Boot.Settings.{
  immutable_result, firmware_attrs_result, firmware_password_results, check_efivars_immutable,
  check_firmware_attrs_boot, check_firmware_password, check_bios_boot,
}

pub read_boot_entry-Answers : (host : Host) (number : ℕ) → Answers (read_boot_entry host number)
unfolding read_boot_entry read_file_binary_ex
read_boot_entry-Answers host number =
    elim (Option-cases (read_file_binary_ex host (boot_entry_path number) 4096)) [
      | inl missing ↦ rw missing (none, refl)
      | inr ((buf, truncated), e) ↦ elim (Bool-cases truncated) [
        | inl cut ↦ rw (e, cut) (none, refl)
        | inr whole ↦
            (let parsed = parse_efi_boot_entry-ParsedEntry buf number in
              rw (e, whole, parsed.given) (accepted (leb 12 (length buf), parsed.entry), refl))
      ]
    ]

scan_order-Answers :
    (host : Host) (numbers : List ℕ) (scan : OrderScan) → Answers (scan_order host numbers scan)
unfolding scan_order
scan_order-Answers host [] scan = (scan, refl)
scan_order-Answers host (number ∷ numbers) scan =
    let (entry, e) = read_boot_entry-Answers host number in
    rw e (scan_order-Answers host numbers (scan_entry number entry scan))

parse_efi_boot_next-Answers : (buf : Bytes) → Answers (parse_efi_boot_next buf)
unfolding parse_efi_boot_next
parse_efi_boot_next-Answers buf = elim (Bool-cases (ltb (length buf) 6)) [
  | inl short ↦ rw short (none, refl)
  | inr long ↦ let (v, e) = read_le16-some buf 4 (ground arith) in rw (long, e) (some v, refl)
]

next_number-Answers : (host : Host) → Answers (next_number host)
unfolding next_number read_file_binary
next_number-Answers host = elim (Option-cases (read_file_binary host boot_next_path 16)) [
  | inl missing ↦ rw missing (none, refl)
  | inr (buf, e) ↦ rw e (parse_efi_boot_next-Answers buf)
]

next_entry-Answers : (host : Host) (number : Option ℕ) → Answers (next_entry host number)
next_entry-Answers host none = (_, refl)
next_entry-Answers host (some number) =
    let (entry, e) = read_boot_entry-Answers host number in rw e (_, refl)

next_result-Answers : (host : Host) → Answers (next_result host)
unfolding next_result
next_result-Answers host = elim (Bool-cases (file_exists host boot_next_path)) [
  | inr missing ↦ rw missing (_, refl)
  | inl present ↦
      let (number, e) = next_number-Answers host in rw (present, e) (next_entry-Answers host number)
]

parsed_results-Answers :
    (host : Host) (answer : Bool × BootOrder) → Answers (parsed_results host answer)
unfolding order_results
parsed_results-Answers host (false, order) = (_, refl)
parsed_results-Answers host (true, order) =
    let (scan, s) = scan_order-Answers host order.order no_scan in
    let (next, n) = next_result-Answers host in rw (s, n) (_, refl)

efivars_results-Answers : (host : Host) → Answers (efivars_results host)
unfolding efivars_results
efivars_results-Answers host =
    elim (Bool-cases (file_exists host (codes "/sys/firmware/efi/efivars"))) [
      | inr missing ↦ rw missing (_, refl)
      | inl present ↦ elim (Option-cases (read_file_binary host boot_order_path 256)) [
        | inl missing ↦ rw (present, missing) (_, refl)
        | inr (buf, b) ↦
            (let (answer, e, l, m) = parse_efi_boot_order-some buf in
              rw (present, b, e) (parsed_results-Answers host answer))
      ]
    ]

-- All that the check has to report behind the rows on the variables.
unfoldable pub settings_results : Host → Results
settings_results host =
    immutable_result host ∷ firmware_attrs_result host ∷ firmware_password_results host

-- The check never reads outside a variable, and whatever the room it writes the first of its rows:
-- those on the variables, on the flag of the boot order, on the firmware's attributes and on its
-- passwords, in this order.
pub check_bios_boot-take :
    (host : Host) (max_results : ℕ)
    → (rows : Results) × (efivars_results host ≡ some rows)
      × (check_bios_boot host max_results ≡ some (take max_results (rows ++ settings_results host)))
unfolding check_bios_boot check_efivars_boot settings_results check_efivars_immutable
    check_firmware_attrs_boot check_firmware_password
check_bios_boot-take host max_results =
    let (rows, e) = efivars_results-Answers host in
    let immutable = immutable_result host ∷ [] in
    let attrs = firmware_attrs_result host ∷ [] in
    let passwords = firmware_password_results host in
    let second =
      behind_written-take max_results (emit_all max_results rows []) rows immutable
        (check_efivars_immutable host) (emit_all-nil max_results rows)
        (λ m. emit_guarded-take m immutable) in
    let third =
      behind_written-take max_results _ (rows ++ immutable) attrs (check_firmware_attrs_boot host)
        second (λ m. emit_guarded-take m attrs) in
    let fourth =
      behind_written-take max_results _ ((rows ++ immutable) ++ attrs) passwords
        (check_firmware_password host) third (λ m. emit_all-nil m passwords) in
    (
      rows,
      e,
      rw e (
          ap some (
            fourth
            ∙ ap (take max_results) (
                append_assoc (rows ++ immutable) attrs passwords
                ∙ append_assoc rows immutable (attrs ++ passwords)))),
    )
