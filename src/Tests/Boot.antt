-- ===== src/Tests/Boot.antt =====
-- The checks of the boot order, of Secure Boot and of the IOMMU in a world that is made up.
use bythos.Base.{
  ℕ, ◌≡◌, ◌<◌, ◌↔◌, refl, true, false, Option, none, some, List, [], ◌∷◌, ◌++◌, ◌||◌, arith, Bytes,
  codes, length, take, All,
}
use bythos.Posture.Types.{check_ok, check_fail, detail_max, Results}
use bythos.Silicon.Tokens.{spaced, among}
use bythos.Firmware.Labels.{secure_boot_enabled, secure_boot_disabled}
use bythos.Runtime.Host.{Host}
use bythos.Runtime.Processes.{command_exists}
use bythos.Checks.Iommu.{dma_result}
use bythos.Checks.Iommu.Posture.{is_weakened, dma_result-is_weakened}
use bythos.Checks.Boot.{Listing, no_entries, describe_incomplete_order, compose_blocked_detail}
use bythos.Checks.Boot.Order.{
  OrderScan, no_scan, scan_order, blocked_detail, medium_result, efivars_results,
}
use bythos.Checks.Boot.Settings.{check_bios_boot}
use bythos.Checks.Boot.Detail.{unconfirmed, full_description, compose_blocked_detail-full}
use bythos.Checks.Boot.Verdict.{usb_name, IsHarmless, medium_result-IsHarmless}
use bythos.Checks.Boot.Report.{settings_results, check_bios_boot-take}
use bythos.Checks.Secureboot.{mokutil, state_result}
use bythos.Checks.Secureboot.State.{Says, state_result-Says}
use bythos.Tests.World.{world}
use bythos.Tests.Efi.{boot_entry}
use bythos.Tests.Devices.{words}

-- Every file holds an entry that boots from a disk.
abbrev disk : Host
disk = world (λ path. some boot_entry) (codes "SecureBoot enabled")

-- No file can be read.
abbrev bare : Host
bare = world (λ path. none) (codes "SecureBoot enabled")

disk_order : scan_order disk (3 ∷ []) no_scan ≡ some no_scan
unfolding scan_order bythos.Checks.Boot.Order.scan_entry bythos.Checks.Boot.read_boot_entry
    bythos.Runtime.Files.read_file_binary_ex bythos.Efi.Entry.parse_efi_boot_entry
    bythos.Efi.Entry.parse_load_option bythos.Efi.Entry.desc_scan bythos.Efi.Entry.read_paths
    bythos.Efi.Entry.name_type bythos.Efi.DevicePath.classify_device_path
    bythos.Efi.DevicePath.dp_extract_filepath bythos.Efi.Reads.read_le32 codes
disk_order = refl

medium_result-IsHarmless_example :
    ((medium_result usb_name (codes "USB") no_scan.usb (blocked_detail no_scan false)).state
      ≡ check_ok)
    ↔ ((false ≡ false) × All (IsHarmless disk) (3 ∷ []))
medium_result-IsHarmless_example = medium_result-IsHarmless disk (3 ∷ []) no_scan false disk_order

-- The two entries are unreadable.
abbrev unread : OrderScan
unread = record no_scan {
  unreadable = record { found = true; entries = codes "Boot0001 Boot0002"; all_listed = true };
}

unread_order : scan_order bare (1 ∷ 2 ∷ []) no_scan ≡ some unread
unfolding scan_order bythos.Checks.Boot.Order.scan_entry bythos.Checks.Boot.Order.add_id
    bythos.Checks.Boot.append_entry_id bythos.Checks.Boot.read_boot_entry
    bythos.Runtime.Files.read_file_binary_ex bythos.Checks.Boot.entry_name
    bythos.Checks.Boot.hex_word codes
unread_order = refl

compose_blocked_detail-full_example :
    let blocked = describe_incomplete_order detail_max unread.unreadable unread.unclassified true in
    let full =
      unconfirmed (full_description unread.unreadable unread.unclassified true) (codes "USB") in
    (compose_blocked_detail detail_max blocked (codes "USB") ≡ full) × (length full < detail_max)
unfolding codes
compose_blocked_detail-full_example =
    compose_blocked_detail-full bare (1 ∷ 2 ∷ []) unread true (codes "USB") unread_order
      (omega arith)

check_bios_boot-take_example :
    (rows : Results) × (efivars_results disk ≡ some rows)
    × (check_bios_boot disk 5 ≡ some (take 5 (rows ++ settings_results disk)))
check_bios_boot-take_example = check_bios_boot-take disk 5

state_result-Says_example :
    let state = (state_result bare (command_exists bare mokutil) none).state in
    ((state ≡ check_ok) ↔ Says bare none secure_boot_enabled)
    × ((state ≡ check_fail) ↔ Says bare none secure_boot_disabled)
state_result-Says_example = state_result-Says bare none

abbrev weak : Host
weak = world (λ path. some (codes "ro" ++ spaced (codes "iommu=pt" ∷ []))) []

weak_line :
    bythos.Runtime.Files.read_file_text weak (codes "/proc/cmdline") 4096
    ≡ some (codes "ro" ++ spaced (codes "iommu=pt" ∷ []))
unfolding bythos.Runtime.Files.read_file_text codes bythos.Runtime.Files.read_file_text_ex
    bythos.Runtime.Files.c_string bythos.Base.take_while
weak_line = refl

dma_result-is_weakened_example :
    let state = (dma_result weak true).state in
    ((state ≡ check_fail) ↔ (is_weakened (codes "ro" ∷ codes "iommu=pt" ∷ []) ≡ true))
    × ((state ≡ check_ok) ↔ (
        (true ≡ true)
        × (is_weakened (codes "ro" ∷ codes "iommu=pt" ∷ []) ≡ false)
        × (among (codes "ro" ∷ codes "iommu=pt" ∷ []) (codes "iommu.strict=0") ≡ false)))
dma_result-is_weakened_example =
    dma_result-is_weakened weak true (codes "ro") (codes "iommu=pt" ∷ []) weak_line (words.0)
      (words.1, tt)
