-- ===== src/Checks/Registers.antt =====
-- src/check_bios_cntl.c and src/check_dci.c: registers of the platform that say whether
-- the firmware can be written and the processor debugged.
pub mod Verdicts
pub mod Debug
use Prim.Native.Nat.{bit_and}
use bythos.Base.{
  ℕ, zero, suc, ◌+◌, ◌*◌, ◌/◌, ◌^◌, Bool, true, false, not, ◌&&◌, ◌||◌, Option, none, some, List,
  [], ◌∷◌, ◌++◌, Bytes, codes, length, leb, ◌==◌, if◌then◌else◌,
}
use bythos.Posture.Types.{
  CheckState, check_ok, check_warn, check_fail, Results, make_result, emit_result, emit, emit_skip,
  emit_skip_tool_install, emit_all, skip_not_configured, CheckResult, emit_skip_vendor,
  emit_skip_hw, emit_skip_exec, emit_skip_exec_root, emit_skip_feature,
}
use bythos.Silicon.Cpu.{cpu_vendor_amd, cpu_vendor_intel, cpu_vendor_unknown}
use bythos.Runtime.Host.{Host, opened, access_denied, open_failed}
use bythos.Runtime.Files.{file_exists}
use bythos.Runtime.Processes.{command_exists, command_untrusted}
use bythos.Checks.Tools.{host_vendor}

unfoldable pub intel_spi_config : Bytes
intel_spi_config = codes "/sys/bus/pci/devices/0000:00:1f.5/config"

unfoldable pub intel_lpc_config : Bytes
intel_lpc_config = codes "/sys/bus/pci/devices/0000:00:1f.0/config"

unfoldable pub bios_cntl_config_path : Host → Option Bytes
bios_cntl_config_path host =
    if file_exists host intel_spi_config
    then some intel_spi_config
    else if file_exists host intel_lpc_config
    then some intel_lpc_config
    else none

unfoldable pub bios_cntl_name : Bytes
bios_cntl_name = codes "Intel BIOS write protection"

-- Is the bit set, counted from the lowest?
abbrev pub is_set : ℕ → ℕ → Bool
is_set k value = not (bit_and (value / 2 ^ k) 1 == 0)

abbrev pub bios_cntl_warn : Bytes → Results
bios_cntl_warn detail = make_result bios_cntl_name check_warn (some detail) ∷ []

-- The verdict on the register.
unfoldable pub bios_cntl_verdict : ℕ → Results
unfolding make_result
bios_cntl_verdict byte =
    if is_set 0 byte
    then bios_cntl_warn (codes "BIOSWE set: BIOS region write enabled")
    else if not (is_set 1 byte)
    then bios_cntl_warn (codes "BLE not set: BIOS lock enable missing")
    else if not (is_set 5 byte)
    then bios_cntl_warn (codes "SMM_BWP not set: SMM-only write not enforced")
    else make_result bios_cntl_name check_ok
        (some (codes "BLE and SMM_BWP set; BIOS region protected"))
      ∷ []

-- From the device's configuration space on.
unfoldable pub read_bios_cntl : Host → ℕ → Bytes → Results
unfolding bios_cntl_verdict
read_bios_cntl host max_results config_path = elim (host.open_read config_path) [
  | opened ↦ elim (host.pread config_path 0xDC 1) [
    | byte ∷ [] ↦ bios_cntl_verdict byte
    | _ ↦ emit_result max_results (emit_skip_exec bios_cntl_name (codes "BIOS_CNTL")) []
  ]
  | _ ↦ emit_result max_results (emit_skip_exec_root bios_cntl_name (codes "PCI config")) []
]

unfoldable pub check_bios_cntl : Host → ℕ → Results
unfolding read_bios_cntl
check_bios_cntl host max_results = if leb max_results 0 then [] else elim (host_vendor host) [
  | cpu_vendor_intel ↦ elim (bios_cntl_config_path host) [
    | none ↦ emit_result max_results (emit_skip_hw bios_cntl_name (codes "Intel PCH")) []
    | some config_path ↦ read_bios_cntl host max_results config_path
  ]
  | _ ↦ emit_result max_results (emit_skip_vendor bios_cntl_name (codes "Intel-only check")) []
]

unfoldable pub dci_name : Bytes
dci_name = codes "Intel DCI"

unfoldable pub msr_path : Bytes
msr_path = codes "/dev/cpu/0/msr"

-- The bytes of a `uint64_t` on a little-endian machine.
unfoldable pub word_value : Bytes → ℕ
word_value [] = 0
word_value (b ∷ s) = b + 256 * word_value s

abbrev pub has_bits : ℕ → ℕ → Bool
has_bits mask value = not (bit_and value mask == 0)

-- The verdict on IA32_DEBUG_INTERFACE.
unfoldable pub dci_verdict : ℕ → Results
unfolding make_result
dci_verdict value =
    let locked = has_bits (2 ^ 30) value in
    if has_bits 1 value
    then make_result dci_name check_fail (
        some (
          if locked
          then codes "DCI enabled and locked (cannot be disabled without reboot)"
          else codes "DCI enabled; USB-C debug access possible"))
      ∷ []
    else if locked
    then make_result dci_name check_ok (some (codes "DCI disabled and locked")) ∷ []
    else make_result dci_name check_warn (some (codes "DCI disabled but not locked")) ∷ []

unfoldable pub read_dci : Host → ℕ → Results
unfolding dci_verdict
read_dci host max_results = elim (host.open_read msr_path) [
  | opened ↦
      (let read = host.pread msr_path 0xC80 8 in
        if length read == 8
        then dci_verdict (word_value read)
        else emit_result max_results (emit_skip_exec dci_name (codes "MSR")) [])
  | access_denied ↦ emit_result max_results (emit_skip_exec_root dci_name (codes "MSR")) []
  | open_failed ↦ emit_result max_results (emit_skip_exec dci_name (codes "MSR")) []
]

unfoldable pub check_amd_psp : Host → Results
unfolding make_result
check_amd_psp host =
    if file_exists host (codes "/sys/module/ccp")
    then make_result (codes "AMD PSP visibility") check_ok (some (codes "AMD PSP driver visible"))
      ∷ []
    else make_result (codes "AMD PSP visibility") check_warn
        (some (codes "AMD PSP driver not loaded"))
      ∷ []

unfoldable pub check_dci : Host → ℕ → Results
unfolding read_dci check_amd_psp
check_dci host max_results = if leb max_results 0 then [] else elim (host_vendor host) [
  | cpu_vendor_amd ↦ check_amd_psp host
  | cpu_vendor_intel ↦
      if file_exists host msr_path
      then read_dci host max_results
      else emit_result max_results (emit_skip_feature dci_name (codes "MSR device")) []
  | cpu_vendor_unknown ↦
      emit_result max_results (emit_skip_vendor dci_name (codes "Intel-only check")) []
]

unfoldable pub chipsec_result : Host → CheckResult
unfolding emit emit_skip emit_skip_tool_install
chipsec_result host =
    let name = codes "platform firmware deep audit" in
    if command_exists host (codes "chipsec_main") || command_exists host (codes "chipsec")
    then emit_skip name skip_not_configured
        (codes "chipsec available; run manually for a deep audit")
    else if command_untrusted host (codes "chipsec_main")
        || command_untrusted host (codes "chipsec")
    then emit name check_warn
        (codes "chipsec on PATH is not root-owned; refusing to run it as root")
    else emit_skip_tool_install name (codes "chipsec")

unfoldable pub check_chipsec : Host → ℕ → Results
unfolding emit_all chipsec_result
check_chipsec host max_results = emit_all max_results (chipsec_result host ∷ []) []
