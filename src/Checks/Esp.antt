-- ===== src/Checks/Esp.antt =====
-- src/check_esp_posture.c: the EFI system partition, its owner, its file system and its directories.
pub mod Fallback
pub mod Identity
use Prim.Native.Nat.{bit_and}
use bythos.Base.{
  ℕ, ◌+◌, ◌-◌, Bool, true, false, not, ◌&&◌, ◌||◌, Option, none, some, List, [], ◌∷◌, ◌++◌, Bytes,
  codes, length, take, ltb, leb, ◌==◌, if◌then◌else◌, equal, fit, decimal,
}
use bythos.Posture.Types.{
  check_ok, check_warn, skip_feature_absent, skip_probe_indeterminate, detail_max, CheckResult,
  Results, emit, emit_skip, emit_skip_exec, emit_skip_feature, pl,
}
use bythos.Storage.{esp_is_known_vendor}
use bythos.Runtime.Host.{Host, Stat}
use bythos.Runtime.Files.{file_exists, join_path, read_file_text_ex, is_directory, esp_efi_base}
use bythos.Runtime.Mounts.{MountEntry, find_mount_entry}
use bythos.Checks.Platform.{is_hidden}

pub record EspCandidate : Type 0 where
  pub mount : Bytes
  pub efi_dir : Bytes

unfoldable pub esp_candidates : List EspCandidate
esp_candidates =
    record { mount = codes "/boot/efi"; efi_dir = codes "/boot/efi/EFI" }
    ∷ record { mount = codes "/efi"; efi_dir = codes "/efi/EFI" }
    ∷ record { mount = codes "/boot"; efi_dir = codes "/boot/EFI" }
    ∷ []

-- The row on an owner, with what is put in front of the details.
unfoldable pub owner_verdict : Bytes → Bytes → Stat → CheckResult
unfolding emit
owner_verdict name subject st =
    if not (st.uid == 0)
    then emit name check_warn (subject ++ codes "not owned by root")
    else if not (bit_and st.mode 18 == 0)
    then emit name check_warn (subject ++ codes "world/group-writable")
    else emit name check_ok (codes "root-owned and not world-writable")

-- The first candidate that is there, with its EFI directory.
unfoldable pub find_esp : Host → List EspCandidate → Option Stat
find_esp host [] = none
find_esp host (c ∷ candidates) =
    let rest = find_esp host candidates in
    elim (host.stat c.mount) [
      | none ↦ rest
      | some st ↦ if file_exists host c.efi_dir then some st else rest
    ]

abbrev pub boot_row : Option Stat → Results
boot_row none = []
boot_row (some st) = owner_verdict (codes "/boot ownership") (codes "/boot ") st ∷ []

abbrev pub esp_row : Option Stat → CheckResult
esp_row none =
    emit_skip (codes "ESP ownership") skip_feature_absent
      (codes "ESP not accessible at /boot/efi, /efi, or /boot")
esp_row (some st) = owner_verdict (codes "ESP ownership") [] st

unfoldable pub esp_permissions_results : Host → Results
unfolding owner_verdict find_esp esp_candidates emit_skip
esp_permissions_results host =
    boot_row (host.stat (codes "/boot")) ++ esp_row (find_esp host esp_candidates) ∷ []

unfoldable pub filesystem_name : Bytes
filesystem_name = codes "ESP filesystem"

unfoldable pub filesystem_verdict : Bytes → CheckResult
unfolding emit
filesystem_verdict fstype =
    if equal fstype (codes "vfat")
    then emit filesystem_name check_ok (codes "vfat")
    else emit filesystem_name check_warn (codes "unexpected: " ++ fstype)

-- The loop over the candidates.
unfoldable pub find_filesystem : Host → Bytes → List EspCandidate → CheckResult
unfolding filesystem_verdict emit_skip
find_filesystem host mounts [] =
    emit_skip filesystem_name skip_feature_absent (codes "ESP mount-point not found")
find_filesystem host mounts (c ∷ candidates) =
    let rest = find_filesystem host mounts candidates in
    if not (file_exists host c.efi_dir)
    then rest
    else elim (find_mount_entry mounts c.mount (some 64) none) [
      | none ↦ rest
      | some entry ↦ filesystem_verdict entry.fstype
    ]

unfoldable pub esp_filesystem_result : Host → CheckResult
unfolding find_filesystem esp_candidates emit_skip emit_skip_exec
esp_filesystem_result host = elim (read_file_text_ex host (codes "/proc/mounts") 65536) [
  | none ↦ emit_skip_exec filesystem_name (codes "/proc/mounts")
  | some (mounts, truncated) ↦
      if truncated
      then emit_skip filesystem_name skip_probe_indeterminate
          (codes "mount table larger than this tool reads")
      else find_filesystem host mounts esp_candidates
]

-- The counts of the loop over the directories.
pub record VendorDirs : Type 0 where
  pub total : ℕ
  pub unexpected : Bytes
  pub names : Bytes

abbrev pub first_name : Bytes → Bytes → Bytes
first_name [] name = fit 64 (take 60 name)
first_name (c ∷ s) name = c ∷ s

abbrev pub comma_behind : Bytes → Bytes
comma_behind [] = []
comma_behind (c ∷ s) = c ∷ s ++ codes ", "

unfoldable pub add_vendor_dir : Bytes → VendorDirs → VendorDirs
unfolding esp_is_known_vendor
add_vendor_dir name dirs =
    let listed = comma_behind dirs.names ++ name in
    if not (esp_is_known_vendor name)
    then record dirs { total = dirs.total + 1; unexpected = first_name dirs.unexpected name }
    else if ltb (length listed) detail_max
    then record dirs { total = dirs.total + 1; names = listed }
    else record dirs { total = dirs.total + 1 }

-- Is the name one of a directory that is not hidden?
abbrev pub is_vendor_dir : Host → Bytes → Bytes → Bool
is_vendor_dir host esp_base name =
    if is_hidden name
    then false
    else elim (join_path esp_base name) [ none ↦ false | some path ↦ is_directory (host.stat path) ]

unfoldable pub add_vendor_dirs : Host → Bytes → List Bytes → VendorDirs → VendorDirs
unfolding add_vendor_dir
add_vendor_dirs host esp_base [] dirs = dirs
add_vendor_dirs host esp_base (name ∷ names) dirs =
    add_vendor_dirs host esp_base names
      (if is_vendor_dir host esp_base name then add_vendor_dir name dirs else dirs)

abbrev pub has_text : Bytes → Bool
has_text [] = false
has_text (c ∷ s) = true

unfoldable pub vendor_dirs_verdict : VendorDirs → CheckResult
unfolding emit
vendor_dirs_verdict dirs =
    let name = codes "EFI vendor directories" in
    if dirs.total == 0
    then emit name check_warn (codes "no vendor directories found")
    else if has_text dirs.unexpected
    then emit name check_ok (
        codes "unrecognized directory name: "
        ++ (dirs.unexpected ++ codes " (name only, not a trust signal)"))
    else emit name check_ok (decimal dirs.total ++ (codes " recognized: " ++ take 220 dirs.names))

unfoldable pub vendor_dirs_result : Host → CheckResult
unfolding add_vendor_dirs vendor_dirs_verdict emit_skip_feature esp_efi_base
vendor_dirs_result host = elim (host.listing (esp_efi_base host)) [
  | none ↦ emit_skip_feature (codes "EFI vendor directories") (codes "EFI directory")
  | some names ↦ vendor_dirs_verdict (
      add_vendor_dirs host (esp_efi_base host) names
        (record { total = 0; unexpected = []; names = [] }))
]
