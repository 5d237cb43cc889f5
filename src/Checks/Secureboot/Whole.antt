-- ===== src/Checks/Secureboot/Whole.antt =====
-- The rest of src/check_secureboot.c: the SBAT policy, the breadth of trust and the mount of the EFI
-- variables, and the check as a whole.
use bythos.Base.{
  ℕ, Bool, not, ◌||◌, Option, none, some, [], ◌∷◌, ◌++◌, Bytes, codes, length, leb, ◌==◌,
  if◌then◌else◌, ◌>>=◌, equal, starts_with,
}
use bythos.Posture.Types.{
  check_ok, check_warn, skip_feature_absent, skip_probe_indeterminate, CheckResult, Results, emit,
  emit_skip, emit_skip_feature, emit_skip_exec, emit_all,
}
use bythos.Firmware.Labels.{parse_sbat_level, sb_has_ms_ca}
use bythos.Runtime.Host.{Host}
use bythos.Runtime.Files.{file_exists, read_file_text_ex, read_file_binary_ex}
use bythos.Runtime.Mounts.{find_mount_entry}
use bythos.Runtime.Processes.{command_exists, capture_argv_status_ex}
use bythos.Checks.Tools.{emit_skip_tool_or_untrusted}
use bythos.Checks.Ownership.{probe_mok_ownership, no_ownership}
use bythos.Checks.Secureboot.Databases.{check_sigdb_variable, dbx_size_result, db_keys_result}
use bythos.Checks.Secureboot.{
  efi_path, efi_efivars_dir, efi_db_path, efi_dbx_path, efi_sb_state_path, efi_setup_mode_path,
  mokutil, read_efi_bool_var, state_result, setup_result, shim_result, owner_result,
  enrollments_result,
}

unfoldable pub efi_sbat_rt_path : Bytes
efi_sbat_rt_path = efi_path (codes "SbatLevelRT-605dab50-e046-4300-abb6-3dd810dd8b23")

unfoldable pub efi_sbat_path : Bytes
efi_sbat_path = efi_path (codes "SbatLevel-605dab50-e046-4300-abb6-3dd810dd8b23")

unfoldable pub sbat_level_name : Bytes
sbat_level_name = codes "SBAT policy level"

unfoldable pub sbat_level_at : Host → Bytes → CheckResult
unfolding emit emit_skip_exec
sbat_level_at host path = elim (read_file_binary_ex host path 256) [
  | none ↦ emit_skip_exec sbat_level_name (codes "SbatLevel")
  | some (buf, truncated) ↦
      if truncated
      then emit sbat_level_name check_warn
          (codes "larger than this tool reads; policy level not verified")
      else if leb (length buf) 4
      then emit sbat_level_name check_warn (codes "visible but empty")
      else elim (parse_sbat_level buf 64) [
        | none ↦ emit sbat_level_name check_warn (codes "visible but unparseable")
        | some line ↦ emit sbat_level_name check_ok (codes "SbatLevel: " ++ line)
      ]
]

unfoldable pub sbat_level_result : Host → Bool → CheckResult
unfolding sbat_level_at emit_skip emit_skip_feature
sbat_level_result host efi_visible =
    if not efi_visible
    then emit_skip_feature sbat_level_name (codes "EFI runtime")
    else if file_exists host efi_sbat_rt_path
    then sbat_level_at host efi_sbat_rt_path
    else if file_exists host efi_sbat_path
    then sbat_level_at host efi_sbat_path
    else emit_skip sbat_level_name skip_feature_absent
        (codes "SbatLevel variable absent; pre-SBAT firmware")

unfoldable pub trust_breadth_result : Host → Bool → CheckResult
unfolding emit emit_skip_exec emit_skip_tool_or_untrusted
trust_breadth_result host has_mokutil =
    let name = codes "Secure Boot trust breadth" in
    let captured = capture_argv_status_ex host (codes "mokutil" ∷ codes "--db" ∷ []) 131072 in
    if not has_mokutil
    then emit_skip_tool_or_untrusted host name mokutil mokutil
    else elim (captured.answer) [
      | none ↦ emit_skip_exec name mokutil
      | some (status, db_buf) ↦
          if not (status == 0)
          then emit_skip_exec name mokutil
          else if captured.truncated
          then emit name check_warn
              (codes "mokutil output truncated; CA detection inconclusive, verify manually")
          else if sb_has_ms_ca db_buf
          then emit name check_warn
              (codes "Microsoft 3rd Party UEFI CA in db; widens trusted signer set")
          else emit name check_ok (codes "Microsoft 3rd Party UEFI CA not found in db")
    ]

abbrev pub is_read_only : Bytes → Bool
is_read_only opts = equal opts (codes "ro") || starts_with (codes "ro,") opts

unfoldable pub efivarfs_result : Host → CheckResult
unfolding emit emit_skip emit_skip_exec emit_skip_feature
efivarfs_result host =
    let name = codes "efivarfs mount mode" in
    elim (read_file_text_ex host (codes "/proc/mounts") 65536) [
      | none ↦ emit_skip_exec name (codes "/proc/mounts")
      | some (mounts, truncated) ↦
          if truncated
          then emit_skip name skip_probe_indeterminate
              (codes "mount table larger than this tool reads")
          else elim (find_mount_entry mounts efi_efivars_dir none (some 256)) [
            | none ↦ emit_skip_feature name (codes "efivarfs")
            | some entry ↦
                if is_read_only entry.opts
                then emit name check_ok
                    (codes "read-only; EFI variable writes are refused while this mount holds")
                else emit name check_warn
                    (codes "read-write; firmware-side variable protection still applies")
          ]
    ]

-- All results of the check; `none` is a read outside a variable.
unfoldable pub secureboot_results : Host → Option Results
unfolding probe_mok_ownership state_result setup_result shim_result owner_result enrollments_result
    check_sigdb_variable dbx_size_result db_keys_result sbat_level_result trust_breadth_result
    efivarfs_result
secureboot_results host =
    let has_mokutil = command_exists host mokutil in
    let ownership = if has_mokutil then probe_mok_ownership host else no_ownership in
    let efi_visible = file_exists host (codes "/sys/firmware/efi") in
    do
      efivar_sb ← read_efi_bool_var host efi_sb_state_path
      efivar_setup ← read_efi_bool_var host efi_setup_mode_path
      db ← check_sigdb_variable host efi_db_path (codes "secure boot allowlist") efi_visible
      dbx ← check_sigdb_variable host efi_dbx_path (codes "secure boot revocations") efi_visible
      db_keys ← db_keys_result host efi_visible
      some (
          state_result host has_mokutil efivar_sb
          ∷ setup_result host has_mokutil efivar_setup
          ∷ shim_result host has_mokutil efivar_sb
          ∷ owner_result host has_mokutil ownership
          ∷ enrollments_result host has_mokutil ownership
          ∷ db
          ∷ dbx
          ∷ dbx_size_result host efi_visible
          ∷ db_keys
          ∷ sbat_level_result host efi_visible
          ∷ trust_breadth_result host has_mokutil
          ∷ efivarfs_result host
          ∷ [])

unfoldable pub check_secureboot : Host → ℕ → Option Results
unfolding secureboot_results
check_secureboot host max_results = do
  todo ← secureboot_results host
  some (emit_all max_results todo [])
