-- ===== src/Checks/Platform.antt =====
-- src/check_efi.c, src/check_sbctl.c and src/check_microcode.c: the firmware interface, the keys
-- of sbctl, and the microcode of the processor.
use bythos.Base.{
  ℕ, ◌+◌, Bool, false, not, ◌||◌, Option, none, some, List, [], ◌∷◌, ◌++◌, Bytes, codes, take, ltb,
  ◌==◌, if◌then◌else◌, contains, starts_with, fit, decimal,
}
use bythos.Posture.Types.{
  check_ok, check_warn, skip_feature_absent, skip_not_configured, CheckResult, Results, emit,
  emit_skip, emit_skip_feature, emit_skip_probe, emit_skip_field, emit_skip_vendor, emit_all, pl,
}
use bythos.Efi.Entry.{to_lower_ascii}
use bythos.Firmware.Sbctl.{SbctlStatus, parse_sbctl_status}
use bythos.Silicon.Cpu.{cpu_vendor_unknown, extract_microcode_revision}
use bythos.Runtime.Host.{Host}
use bythos.Runtime.Files.{
  file_exists, count_child_dirs, read_file_text, first_line_with_prefix, join_path,
}
use bythos.Runtime.Processes.{command_exists, capture_argv_status}
use bythos.Checks.Tools.{host_vendor, emit_skip_tool_or_untrusted}
use bythos.Checks.Iommu.{count_or_zero}

unfoldable pub esrt_result : Host → CheckResult
unfolding emit
esrt_result host =
    let count = count_or_zero (count_child_dirs host (codes "/sys/firmware/efi/esrt/entries")) in
    if count == 0
    then emit (codes "ESRT entries") check_warn
        (codes "no ESRT entries; fwupd cannot update firmware")
    else emit (codes "ESRT entries") check_ok
        (decimal count ++ (codes " firmware " ++ pl count (codes "entry") (codes "entries")))

unfoldable pub efi_results : Host → Results
unfolding emit emit_skip_feature esrt_result
efi_results host =
    if file_exists host (codes "/sys/firmware/efi")
    then emit (codes "EFI boot mode") check_ok (codes "UEFI firmware interface visible")
      ∷ esrt_result host
      ∷ []
    else emit (codes "EFI boot mode") check_warn
        (codes "EFI runtime interface not visible; legacy BIOS mode likely")
      ∷ emit_skip_feature (codes "ESRT entries") (codes "EFI runtime")
      ∷ []

unfoldable pub check_efi : Host → ℕ → Results
unfolding emit_all efi_results
check_efi host max_results = emit_all max_results (efi_results host) []

unfoldable pub sbctl_name : Bytes
sbctl_name = codes "Secure Boot key management"

unfoldable pub not_configured : CheckResult
unfolding emit_skip
not_configured =
    emit_skip sbctl_name skip_not_configured
      (codes "sbctl not configured; platform keys still in use")

-- The verdict on the answer of the parser.
unfoldable pub sbctl_verdict : Bool × SbctlStatus → CheckResult
unfolding emit emit_skip_probe emit_skip_field not_configured
sbctl_verdict (parsed, status) =
    if not parsed || not status.installed_known
    then emit_skip_probe sbctl_name (codes "sbctl")
    else if not status.installed
    then not_configured
    else if not status.owner_guid_present
    then emit_skip_field sbctl_name (codes "GUID") (codes "sbctl")
    else emit sbctl_name check_ok (
        if status.vendor_keys_present
        then fit 192
            (codes "initialized; owner GUID present; vendor keys " ++ take 64 status.vendor_keys)
        else codes "initialized; owner GUID present")

unfoldable pub sbctl_result : Host → CheckResult
unfolding sbctl_verdict emit_skip_tool_or_untrusted
sbctl_result host =
    if not (command_exists host (codes "sbctl"))
    then emit_skip_tool_or_untrusted host sbctl_name (codes "sbctl") (codes "sbctl")
    else elim (capture_argv_status host (codes "sbctl" ∷ codes "status" ∷ []) 2048) [
      | none ↦ emit_skip_probe sbctl_name (codes "sbctl")
      | some (status, buffer) ↦
          if not (status == 0) then not_configured else sbctl_verdict (parse_sbctl_status buffer)
    ]

unfoldable pub check_sbctl : Host → ℕ → Results
unfolding emit_all sbctl_result
check_sbctl host max_results = emit_all max_results (sbctl_result host ∷ []) []

unfoldable pub microcode_name : Bytes
microcode_name = codes "CPU microcode"

unfoldable pub microcode_line : Host → CheckResult
unfolding emit
microcode_line host =
    let unseen = emit microcode_name check_warn (codes "revision not visible") in
    elim (first_line_with_prefix host (codes "/proc/cpuinfo") (codes "microcode") 256) [
      | none ↦ unseen
      | some line ↦ elim (extract_microcode_revision line 128) [
        | none ↦ unseen
        | some revision ↦
            emit microcode_name check_ok (fit 160 (codes "loaded revision " ++ revision))
      ]
    ]

unfoldable pub microcode_result : Host → CheckResult
unfolding microcode_line emit_skip_vendor
microcode_result host = elim (host_vendor host) [
  | cpu_vendor_unknown ↦ emit_skip_vendor microcode_name (codes "x86-only check")
  | _ ↦ microcode_line host
]

-- The counts of the loop over the vulnerabilities.
pub record Vulnerabilities : Type 0 where
  pub total : ℕ
  pub vulnerable : ℕ
  pub unknown : ℕ
  pub first_vuln : Bytes

abbrev pub is_hidden : Bytes → Bool
is_hidden [] = false
is_hidden (c ∷ s) = c == b'.'

unfoldable pub vuln_dir : Bytes
vuln_dir = codes "/sys/devices/system/cpu/vulnerabilities"

abbrev pub or_else : Bytes → Bytes → Bytes
or_else [] other = other
or_else (c ∷ s) other = c ∷ s

-- One vulnerability, by its name and what its file says.
unfoldable pub add_vulnerability : Bytes → Bytes → Vulnerabilities → Vulnerabilities
add_vulnerability name content v =
    let lower = to_lower_ascii content 256 in
    if contains lower (codes "vulnerable")
    then record v {
      total = v.total + 1;
      vulnerable = v.vulnerable + 1;
      first_vuln = or_else v.first_vuln (take 60 name);
    }
    else if starts_with (codes "unknown") lower
    then record v { total = v.total + 1; unknown = v.unknown + 1 }
    else record v { total = v.total + 1 }

abbrev pub content_of : Host → Bytes → Option Bytes
content_of host name =
    if is_hidden name
    then none
    else elim (join_path vuln_dir name) [ none ↦ none | some path ↦ read_file_text host path 256 ]

unfoldable pub add_vulnerabilities : Host → List Bytes → Vulnerabilities → Vulnerabilities
add_vulnerabilities host [] v = v
add_vulnerabilities host (name ∷ names) v =
    add_vulnerabilities host names
      (elim (content_of host name) [ none ↦ v | some content ↦ add_vulnerability name content v ])

unfoldable pub vulnerabilities_verdict : Vulnerabilities → CheckResult
unfolding emit emit_skip
vulnerabilities_verdict v =
    let name = codes "CPU vulnerabilities" in
    if v.total == 0
    then emit_skip name skip_feature_absent (codes "no vulnerability entries")
    else if ltb 0 v.vulnerable
    then emit name check_warn (
        decimal v.vulnerable
        ++ (codes " of "
            ++ (decimal v.total ++ (codes " vulnerable (e.g. " ++ (v.first_vuln ++ codes ")")))))
    else if ltb 0 v.unknown
    then emit name check_warn (
        decimal v.unknown
        ++ (codes " of " ++ (decimal v.total ++ codes " indeterminate (kernel reports unknown)")))
    else emit name check_ok (
        decimal v.total
        ++ b' '
          ∷ (pl v.total (codes "check") (codes "checks")
              ++ codes "; all mitigated or not affected"))

unfoldable pub vulnerabilities_result : Host → CheckResult
unfolding vulnerabilities_verdict add_vulnerabilities emit_skip
vulnerabilities_result host = elim (host.listing vuln_dir) [
  | none ↦
      emit_skip (codes "CPU vulnerabilities") skip_feature_absent
        (codes "kernel vulnerabilities sysfs not exposed")
  | some names ↦ vulnerabilities_verdict (
      add_vulnerabilities host names
        (record { total = 0; vulnerable = 0; unknown = 0; first_vuln = [] }))
]

unfoldable pub scan_result : Host → CheckResult
unfolding emit_skip emit_skip_tool_or_untrusted
scan_result host =
    let tool = codes "spectre-meltdown-checker" in
    let name = codes "CPU vulnerability scan" in
    if command_exists host tool
    then emit_skip name skip_not_configured
        (codes "spectre-meltdown-checker available; run manually for a deep scan")
    else emit_skip_tool_or_untrusted host name tool tool

unfoldable pub microcode_results : Host → Results
unfolding microcode_result vulnerabilities_result scan_result
microcode_results host = microcode_result host ∷ vulnerabilities_result host ∷ scan_result host ∷ []

unfoldable pub check_microcode : Host → ℕ → Results
unfolding emit_all microcode_results
check_microcode host max_results = emit_all max_results (microcode_results host) []
