-- ===== src/Checks/Secureboot.antt =====
-- src/check_secureboot.c: the state of Secure Boot, its keys and its revocations.
pub mod Databases
pub mod Whole
pub mod State
pub mod Report
use bythos.Base.{
  ℕ, zero, suc, ◌+◌, ◌-◌, Bool, true, false, not, ◌&&◌, ◌||◌, Option, none, some, List, [], ◌∷◌,
  ◌++◌, Bytes, codes, length, take, drop, ltb, leb, ◌==◌, if◌then◌else◌, ◌>>=◌, equal, contains,
  starts_with, decimal,
}
use bythos.Posture.Types.{
  check_ok, check_warn, check_fail, skip_feature_absent, skip_exec_failed, skip_probe_indeterminate,
  CheckResult, Results, emit, emit_skip, emit_skip_feature, emit_skip_exec, emit_skip_probe,
  emit_skip_parse, emit_all, pl,
}
use bythos.Efi.Order.{parse_efi_bool_var}
use bythos.Efi.SigDb.{count_efi_sigdb_lists}
use bythos.Firmware.Labels.{
  SecureBootStatus, secure_boot_unknown, secure_boot_enabled, secure_boot_disabled,
  parse_secure_boot_state, secure_boot_setup_mode, secure_boot_validation_disabled,
  extract_short_list_name, count_nonempty_lines, parse_sbat_level, sb_has_ms_ca,
}
use bythos.Firmware.Join.{join_short_list_names}
use bythos.Runtime.Host.{Host}
use bythos.Runtime.Files.{file_exists, read_file_text_ex, read_file_binary, read_file_binary_ex}
use bythos.Runtime.Mounts.{find_mount_entry}
use bythos.Runtime.Processes.{command_exists, capture_success, capture_argv_status_ex}
use bythos.Checks.Ownership.{
  MokOwnership, no_ownership, is_some, text_or_nothing, probe_mok_ownership,
}
use bythos.Checks.Tools.{emit_skip_tool_or_untrusted}

unfoldable pub efi_efivars_dir : Bytes
efi_efivars_dir = codes "/sys/firmware/efi/efivars"

abbrev pub efi_path : Bytes → Bytes
efi_path name = efi_efivars_dir ++ b'/' ∷ name

unfoldable pub efi_db_path : Bytes
unfolding efi_efivars_dir
efi_db_path = efi_path (codes "db-d719b2cb-3d3a-4596-a3bc-dad00e67656f")

unfoldable pub efi_dbx_path : Bytes
unfolding efi_efivars_dir
efi_dbx_path = efi_path (codes "dbx-d719b2cb-3d3a-4596-a3bc-dad00e67656f")

unfoldable pub efi_sb_state_path : Bytes
unfolding efi_efivars_dir
efi_sb_state_path = efi_path (codes "SecureBoot-8be4df61-93ca-11d2-aa0d-00e098032b8c")

unfoldable pub efi_setup_mode_path : Bytes
unfolding efi_efivars_dir
efi_setup_mode_path = efi_path (codes "SetupMode-8be4df61-93ca-11d2-aa0d-00e098032b8c")

-- A read outside the variable is the outer `none`.
unfoldable pub read_efi_bool_var : Host → Bytes → Option (Option Bool)
unfolding read_file_binary parse_efi_bool_var
read_efi_bool_var host path = elim (read_file_binary host path 8) [
  | none ↦ some none
  | some buf ↦ parse_efi_bool_var buf
]

unfoldable pub sb_state_output : Host → Option Bytes
sb_state_output host = capture_success host (codes "mokutil" ∷ codes "--sb-state" ∷ []) 512

-- `state`: what the variable says, or else what mokutil says.
unfoldable pub secure_boot_state : Host → Bool → Option Bool → SecureBootStatus
unfolding sb_state_output
secure_boot_state host has_mokutil (some true) = secure_boot_enabled
secure_boot_state host has_mokutil (some false) = secure_boot_disabled
secure_boot_state host has_mokutil none =
    if not has_mokutil then secure_boot_unknown else elim (sb_state_output host) [
      | none ↦ secure_boot_unknown
      | some buffer ↦ parse_secure_boot_state buffer
    ]

-- `state_buffer`, where `have_state_output`.
unfoldable pub state_buffer : Host → Bool → Option Bytes
unfolding sb_state_output
state_buffer host has_mokutil = if not has_mokutil then none else elim (sb_state_output host) [
  | none ↦ none
  | some buffer ↦ elim (parse_secure_boot_state buffer) [
    | secure_boot_unknown ↦ none
    | _ ↦ some buffer
  ]
]

unfoldable pub state_name : Bytes
state_name = codes "secure boot state"

abbrev pub mokutil : Bytes
mokutil = codes "mokutil"

unfoldable pub state_result : Host → Bool → Option Bool → CheckResult
unfolding sb_state_output emit emit_skip_exec emit_skip_parse emit_skip_tool_or_untrusted
state_result host has_mokutil (some true) = emit state_name check_ok (codes "Secure Boot enabled")
state_result host has_mokutil (some false) =
    emit state_name check_fail (codes "Secure Boot disabled")
state_result host has_mokutil none =
    if not has_mokutil
    then emit_skip_tool_or_untrusted host state_name mokutil mokutil
    else elim (sb_state_output host) [
      | none ↦ emit_skip_exec state_name mokutil
      | some buffer ↦ elim (parse_secure_boot_state buffer) [
        | secure_boot_enabled ↦ emit state_name check_ok (codes "Secure Boot enabled")
        | secure_boot_disabled ↦ emit state_name check_fail (codes "Secure Boot disabled")
        | secure_boot_unknown ↦ emit_skip_parse state_name mokutil
      ]
    ]

unfoldable pub setup_result : Host → Bool → Option Bool → CheckResult
unfolding state_buffer emit emit_skip_probe emit_skip_tool_or_untrusted
setup_result host has_mokutil (some setup) =
    let name = codes "secure boot setup mode" in
    if setup then emit name check_warn (codes "enabled") else emit name check_ok (codes "disabled")
setup_result host has_mokutil none =
    let name = codes "secure boot setup mode" in
    if not has_mokutil
    then emit_skip_tool_or_untrusted host name mokutil mokutil
    else elim (state_buffer host has_mokutil) [
      | none ↦ emit_skip_probe name mokutil
      | some buffer ↦
          if secure_boot_setup_mode buffer
          then emit name check_warn (codes "enabled")
          else emit name check_ok (codes "disabled")
    ]

unfoldable pub shim_result : Host → Bool → Option Bool → CheckResult
unfolding secure_boot_state state_buffer emit emit_skip emit_skip_probe emit_skip_tool_or_untrusted
shim_result host has_mokutil efivar_sb =
    let name = codes "shim validation" in
    if not has_mokutil
    then emit_skip_tool_or_untrusted host name mokutil mokutil
    else elim (secure_boot_state host has_mokutil efivar_sb) [
      | secure_boot_disabled ↦ emit_skip name skip_feature_absent (codes "Secure Boot not enabled")
      | secure_boot_unknown ↦ emit_skip_probe name mokutil
      | secure_boot_enabled ↦ elim (state_buffer host has_mokutil) [
        | none ↦ emit_skip_probe name mokutil
        | some buffer ↦
            if secure_boot_validation_disabled buffer
            then emit name check_fail (codes "disabled; shim boots unsigned images")
            else emit name check_ok (codes "enforced")
      ]
    ]

unfoldable pub owner_result : Host → Bool → MokOwnership → CheckResult
unfolding emit emit_skip_exec emit_skip_parse emit_skip_tool_or_untrusted
owner_result host has_mokutil ownership =
    let name = codes "platform key owner" in
    if not has_mokutil
    then emit_skip_tool_or_untrusted host name mokutil mokutil
    else if not ownership.owner_readable
    then emit_skip_exec name mokutil
    else if ownership.owner_parsed
    then emit name check_ok ownership.owner
    else emit_skip_parse name mokutil

unfoldable pub enrollments_result : Host → Bool → MokOwnership → CheckResult
unfolding emit emit_skip_exec emit_skip_tool_or_untrusted
enrollments_result host has_mokutil ownership =
    let name = codes "MOK enrollments" in
    let count = ownership.enrollment_count in
    if not has_mokutil
    then emit_skip_tool_or_untrusted host name mokutil mokutil
    else if not ownership.enrollments_readable
    then emit_skip_exec name mokutil
    else if count == 0
    then emit name check_ok (codes "none enrolled")
    else if ownership.enrolled_names_parsed
    then emit name check_warn
        (decimal count ++ (codes " enrolled; review keys: " ++ take 200 ownership.enrolled_names))
    else emit name check_warn (decimal count ++ codes " enrolled; review keys")
