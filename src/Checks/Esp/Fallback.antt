-- ===== src/Checks/Esp/Fallback.antt =====
-- The default bootloader and the pending capsules in src/check_esp_posture.c, and the check as a
-- whole.
use bythos.Base.{
  ℕ, ◌+◌, Bool, false, not, ◌&&◌, Option, none, some, List, [], ◌∷◌, ◌++◌, Bytes, codes, ◌==◌,
  if◌then◌else◌, equal, decimal,
}
use bythos.Posture.Types.{
  check_ok, check_warn, skip_feature_absent, skip_exec_failed, skip_output_unparseable,
  skip_subject_absent, skip_tool_absent, CheckResult, Results, make_skip_root, make_skip_actionable,
  emit, emit_skip, emit_skip_subject, emit_all, pl,
}
use bythos.Storage.{parse_sha256sum_line}
use bythos.Runtime.Host.{Host, Stat, no_entry, no_access, other_error}
use bythos.Runtime.Files.{file_exists, join_path, esp_efi_base}
use bythos.Runtime.Processes.{command_exists, command_untrusted, capture_success}
use bythos.Checks.Tools.{emit_guarded, with_row}
use bythos.Checks.Platform.{is_hidden}
use bythos.Checks.Esp.{esp_permissions_results, esp_filesystem_result, vendor_dirs_result}

-- A path under the directory, if it fits and something is there.
abbrev pub existing : Host → Bytes → Bytes → Option Bytes
existing host dir name = elim (join_path dir name) [
  | none ↦ none
  | some candidate ↦ if file_exists host candidate then some candidate else none
]

-- The first of the names that is there.
unfoldable pub find_existing : Host → Bytes → List Bytes → Option (Bytes × Bytes)
find_existing host dir [] = none
find_existing host dir (name ∷ names) =
    let rest = find_existing host dir names in
    elim (existing host dir name) [ none ↦ rest | some path ↦ some (name, path) ]

unfoldable pub fallback_names : List Bytes
fallback_names =
    codes "BOOTX64.EFI" ∷ codes "bootx64.efi" ∷ codes "BOOTAA64.EFI" ∷ codes "bootaa64.efi" ∷ []

-- The fallback bootloader: its name and its path.
unfoldable pub find_fallback : Host → Option (Bytes × Bytes)
unfolding find_existing fallback_names esp_efi_base
find_fallback host = find_existing host (esp_efi_base host ++ codes "/BOOT") fallback_names

abbrev pub path_of : Option (Bytes × Bytes) → Option Bytes
path_of none = none
path_of (some (name, path)) = some path

-- A shim in the directory of a vendor.
unfoldable pub vendor_shim : Host → Bytes → Option Bytes
unfolding find_existing esp_efi_base
vendor_shim host vendor =
    if is_hidden vendor
    then none
    else path_of (
        find_existing host (esp_efi_base host ++ b'/' ∷ vendor)
          (codes "shimx64.efi" ∷ codes "shimaa64.efi" ∷ []))

unfoldable pub find_shim_in : Host → List Bytes → Option Bytes
unfolding vendor_shim
find_shim_in host [] = none
find_shim_in host (vendor ∷ vendors) =
    let rest = find_shim_in host vendors in
    elim (vendor_shim host vendor) [ none ↦ rest | some path ↦ some path ]

unfoldable pub find_shim : Host → Option Bytes
unfolding find_shim_in esp_efi_base
find_shim host = elim (host.listing (esp_efi_base host)) [
  | none ↦ none
  | some vendors ↦ find_shim_in host vendors
]

unfoldable pub fallback_name : Bytes
fallback_name = codes "default boot fallback"

-- Both can be seen, and they are one file.
unfoldable pub same_inode : Option Stat → Option Stat → Bool
same_inode none st_shim = false
same_inode (some st_boot) none = false
same_inode (some st_boot) (some st_shim) =
    st_boot.inode == st_shim.inode && st_boot.device == st_shim.device

-- What sha256sum prints of a file.
unfoldable pub sha256sum_of : Host → Bytes → Option Bytes
sha256sum_of host path = capture_success host (codes "sha256sum" ∷ path ∷ []) 256

-- The comparison of the digests.
unfoldable pub hash_verdict : Bytes → Option Bytes → Option Bytes → CheckResult
unfolding emit emit_skip
hash_verdict filename (some boot_hash) (some shim_hash) =
    if equal boot_hash shim_hash
    then emit fallback_name check_ok (filename ++ codes " matches installed shim (sha256)")
    else emit fallback_name check_warn (filename ++ codes " does not match installed shim")
hash_verdict filename (some boot_hash) none =
    emit_skip fallback_name skip_output_unparseable
      (filename ++ codes " present; hash parse failed")
hash_verdict filename none shim_hash =
    emit_skip fallback_name skip_output_unparseable
      (filename ++ codes " present; hash parse failed")

unfoldable pub output_verdict : Bytes → Option Bytes → Option Bytes → CheckResult
unfolding hash_verdict parse_sha256sum_line emit_skip
output_verdict filename (some boot_out) (some shim_out) =
    hash_verdict filename (parse_sha256sum_line boot_out 128) (parse_sha256sum_line shim_out 128)
output_verdict filename (some boot_out) none =
    emit_skip fallback_name skip_exec_failed (filename ++ codes " present; hash unavailable")
output_verdict filename none shim_out =
    emit_skip fallback_name skip_exec_failed (filename ++ codes " present; hash unavailable")

-- The fallback against the shim.
unfoldable pub compare_fallback : Host → Bytes → Bytes → Bytes → CheckResult
unfolding same_inode sha256sum_of output_verdict emit make_skip_actionable
compare_fallback host filename fallback_path shim =
    if same_inode (host.stat fallback_path) (host.stat shim)
    then emit fallback_name check_ok (filename ++ codes " matches installed shim (inode)")
    else if not (command_exists host (codes "sha256sum"))
    then (if command_untrusted host (codes "sha256sum")
        then emit fallback_name check_warn
            (codes "sha256sum on PATH is not root-owned; refusing to run it as root")
        else make_skip_actionable fallback_name skip_tool_absent
            (some (filename ++ codes " present; sha256sum unavailable for identity check")))
    else output_verdict filename (sha256sum_of host fallback_path) (sha256sum_of host shim)

unfoldable pub bootx64_result : Host → CheckResult
unfolding find_fallback find_shim compare_fallback emit_skip emit_skip_subject
bootx64_result host = elim (find_fallback host) [
  | none ↦ emit_skip_subject fallback_name (codes "default boot fallback")
  | some (filename, fallback_path) ↦ elim (find_shim host) [
    | none ↦
        emit_skip fallback_name skip_subject_absent
          (filename ++ codes " present; shim not found for comparison")
    | some shim ↦ compare_fallback host filename fallback_path shim
  ]
]

unfoldable pub capsule_name : Bytes
capsule_name = codes "ESP UpdateCapsule"

unfoldable pub count_visible : List Bytes → ℕ
count_visible [] = 0
count_visible (name ∷ names) = (if is_hidden name then 0 else 1) + count_visible names

unfoldable pub capsule_verdict : ℕ → CheckResult
unfolding emit
capsule_verdict count =
    if count == 0
    then emit capsule_name check_ok (codes "directory empty")
    else emit capsule_name check_warn (
        decimal count
        ++ (b' '
            ∷ (pl count (codes "file") (codes "files")
                ++ codes " pending; firmware will apply on next reboot")))

unfoldable pub update_capsule_result : Host → CheckResult
unfolding count_visible capsule_verdict emit emit_skip make_skip_root
update_capsule_result host =
    let path = esp_efi_base host ++ codes "/UpdateCapsule" in
    let unreadable = codes "UpdateCapsule directory unreadable" in
    if not (file_exists host (esp_efi_base host))
    then emit_skip capsule_name skip_feature_absent
        (codes "ESP not accessible at /boot/efi, /efi, or /boot")
    else elim (host.listing path) [
      | none ↦ elim (host.listing_error path) [
        | no_entry ↦ emit capsule_name check_ok (codes "no pending firmware capsules")
        | no_access ↦ make_skip_root capsule_name skip_exec_failed (some unreadable)
        | other_error ↦ emit_skip capsule_name skip_exec_failed unreadable
      ]
      | some names ↦ capsule_verdict (count_visible names)
    ]

unfoldable pub check_esp_posture : Host → ℕ → Results
unfolding esp_permissions_results esp_filesystem_result vendor_dirs_result bootx64_result
    update_capsule_result emit_all emit_guarded
check_esp_posture host max_results =
    let first = emit_all max_results (esp_permissions_results host) [] in
    let second = with_row max_results (esp_filesystem_result host) first in
    let third = with_row max_results (vendor_dirs_result host) second in
    let fourth = with_row max_results (bootx64_result host) third in
    with_row max_results (update_capsule_result host) fourth
