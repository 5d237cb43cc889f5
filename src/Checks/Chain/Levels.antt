-- ===== src/Checks/Chain/Levels.antt =====
-- The SBAT generations of the bootloader in src/check_boot_chain.c, and the check as a whole.
use bythos.Base.{
  ℕ, ◌-◌, ◌*◌, Bool, true, false, not, ◌&&◌, ◌||◌, Option, none, some, List, [], ◌∷◌, ◌++◌, Bytes,
  codes, length, take, leb, ◌==◌, if◌then◌else◌, ◌>>=◌, trim, trim_end, decimal,
}
use bythos.Posture.Types.{
  check_ok, check_warn, skip_subject_absent, skip_output_unparseable, skip_feature_absent,
  skip_probe_indeterminate, CheckResult, Results, emit, emit_skip, emit_skip_exec,
}
use bythos.Firmware.Labels.{sbat_entries_present}
use bythos.Firmware.Pe.{extract_pe_section}
use bythos.Firmware.Sbat.{
  SbatEntry, parse_sbat_csv, parse_sbat_revocation_minimums, worst_revoked, first_revoked,
}
use bythos.Runtime.Host.{Host}
use bythos.Runtime.Files.{read_file_binary_ex}
use bythos.Runtime.Processes.{command_exists, capture_success, capture_argv_status_ex}
use bythos.Checks.Tools.{with_row, emit_skip_tool_or_untrusted, emit_guarded}
use bythos.Checks.Chain.{find_shim, find_grub, bootloader_version_result, shim_signature_result}
use bythos.Checks.Chain.Permissions.{boot_permissions_result}

-- What has been collected from the binaries.
pub record Collected : Type 0 where
  pub entries : List SbatEntry
  pub any_section : Bool
  pub binary_truncated : Bool

abbrev pub sbat_max_components : ℕ
sbat_max_components = 32

abbrev pub collect_section : Option Bytes → Collected → Option Collected
collect_section none collected = some collected
collect_section (some section) collected = do
  parsed ← parse_sbat_csv section (sbat_max_components - length collected.entries)
  some (record collected { any_section = true; entries = collected.entries ++ parsed })

unfoldable pub collect_sbat_entries : Host → Option Bytes → Collected → Option Collected
unfolding extract_pe_section parse_sbat_csv
collect_sbat_entries host none collected = some collected
collect_sbat_entries host (some bin_path) collected =
    if length bin_path == 0 || leb sbat_max_components (length collected.entries)
    then some collected
    else elim (read_file_binary_ex host bin_path (4 * 1024 * 1024)) [
      | none ↦ some collected
      | some (bin, truncated) ↦
          if truncated then some (record collected { binary_truncated = true }) else (do
            section ← extract_pe_section bin (codes ".sbat") 8192
            collect_section section collected)
    ]

unfoldable pub sbat_name : Bytes
sbat_name = codes "bootloader SBAT"

abbrev pub revocations_argv : List Bytes
revocations_argv = codes "mokutil" ∷ codes "--list-sbat-revocations" ∷ []

-- The strictest minimum of an entry.
abbrev pub minimum_of : SbatEntry → List SbatEntry → ℕ
minimum_of installed revoked = (worst_revoked installed revoked false 0).1

unfoldable pub compare_verdict : List SbatEntry → List SbatEntry → CheckResult
unfolding first_revoked worst_revoked emit
compare_verdict installed revoked = elim (first_revoked installed revoked) [
  | none ↦ emit sbat_name check_ok (codes "installed generations satisfy SBAT revocations")
  | some entry ↦ emit sbat_name check_warn (
      take 63 entry.component
      ++ (codes " generation "
          ++ (decimal entry.generation
              ++ (codes " below revoked minimum " ++ decimal (minimum_of entry revoked)))))
]

-- No revocations are listed.
abbrev pub no_policy : CheckResult
no_policy = emit_skip sbat_name skip_probe_indeterminate (codes "no SBAT revocation policy applied")

abbrev pub against_revoked : List SbatEntry → List SbatEntry → CheckResult
against_revoked installed revoked =
    if length revoked == 0 then no_policy else compare_verdict installed revoked

-- What mokutil lists; the trim has cut the end of the buffer.
unfoldable pub revocations_verdict : List SbatEntry → Bytes → Option CheckResult
unfolding sbat_entries_present parse_sbat_revocation_minimums compare_verdict emit_skip
revocations_verdict installed rev_buf =
    if not (sbat_entries_present (trim rev_buf)) then some no_policy else (do
      revoked ← parse_sbat_revocation_minimums (trim_end rev_buf) sbat_max_components
      some (against_revoked installed revoked))

abbrev pub captured_verdict : List SbatEntry → Bool → Option (ℕ × Bytes) → Option CheckResult
captured_verdict installed truncated none = some (emit_skip_exec sbat_name (codes "mokutil"))
captured_verdict installed truncated (some (status, rev_buf)) =
    if not (status == 0)
    then some (emit_skip_exec sbat_name (codes "mokutil"))
    else if truncated
    then some (
        emit_skip sbat_name skip_output_unparseable
          (codes "revocation list truncated; verdict unreliable"))
    else revocations_verdict installed rev_buf

unfoldable pub collected_verdict : Host → Collected → Option CheckResult
unfolding revocations_verdict emit_skip emit_skip_exec emit_skip_tool_or_untrusted
collected_verdict host collected =
    let mokutil = codes "mokutil" in
    let captured = capture_argv_status_ex host revocations_argv 4096 in
    if collected.binary_truncated
    then some (
        emit_skip sbat_name skip_output_unparseable
          (codes "bootloader larger than this tool reads; SBAT not inspected"))
    else if not collected.any_section
    then some
        (emit_skip sbat_name skip_feature_absent (codes "EFI bootloader SBAT section not found"))
    else if length collected.entries == 0
    then some (emit_skip sbat_name skip_output_unparseable (codes "SBAT section not parseable"))
    else if not (command_exists host mokutil)
    then some (emit_skip_tool_or_untrusted host sbat_name mokutil mokutil)
    else captured_verdict collected.entries captured.truncated captured.answer

abbrev pub is_missing : Option Bytes → Bool
is_missing none = true
is_missing (some path) = false

abbrev pub nothing_collected : Collected
nothing_collected = record { entries = []; any_section = false; binary_truncated = false }

unfoldable pub bootloader_sbat_result : Host → Option CheckResult
unfolding find_shim find_grub collect_sbat_entries collected_verdict emit_skip
bootloader_sbat_result host = do
  search ← find_shim host
  let grub_path = find_grub host
  from_shim ← collect_sbat_entries host search.path nothing_collected
  collected ← collect_sbat_entries host grub_path from_shim
  if is_missing search.path && is_missing grub_path
      then some (
          emit_skip sbat_name skip_subject_absent
            (codes "shim/grub binary not present on this host"))
      else collected_verdict host collected

unfoldable pub sbat_revocations_result : Host → CheckResult
unfolding sbat_entries_present emit emit_skip_exec emit_skip_tool_or_untrusted
sbat_revocations_result host =
    let name = codes "SBAT revocations" in
    let mokutil = codes "mokutil" in
    if not (command_exists host mokutil)
    then emit_skip_tool_or_untrusted host name mokutil mokutil
    else elim (capture_success host revocations_argv 4096) [
      | none ↦ emit_skip_exec name mokutil
      | some buf ↦
          if not (sbat_entries_present (trim buf))
          then emit name check_warn (codes "no revocation entries applied")
          else emit name check_ok (codes "revocation entries present")
    ]

-- All five rows; `none` is a read outside a buffer.
unfoldable pub check_boot_chain : Host → ℕ → Option Results
unfolding bootloader_version_result bootloader_sbat_result shim_signature_result
    boot_permissions_result sbat_revocations_result emit_guarded
check_boot_chain host max_results = if max_results == 0 then some [] else (do
  sbat ← bootloader_sbat_result host
  shim ← shim_signature_result host
  let first = emit_guarded max_results (bootloader_version_result host ∷ [])
  let second = with_row max_results sbat first
  let third = with_row max_results shim second
  let fourth = with_row max_results (boot_permissions_result host) third
  some (with_row max_results (sbat_revocations_result host) fourth))
