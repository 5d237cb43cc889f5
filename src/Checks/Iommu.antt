-- ===== src/Checks/Iommu.antt =====
-- src/check_iommu.c, src/check_memory_encryption.c and src/check_bolt.c: what keeps devices out of
-- the memory, and the memory out of sight.
pub mod Posture
use bythos.Base.{
  ℕ, zero, suc, ◌+◌, Bool, true, false, not, ◌&&◌, ◌||◌, Option, none, some, List, [], ◌∷◌, ◌++◌,
  Bytes, codes, length, ltb, leb, ◌==◌, if◌then◌else◌, equal, starts_with, trim, fit, decimal,
}
use bythos.Posture.Types.{
  check_ok, check_warn, check_fail, skip_feature_absent, CheckResult, Results, emit, emit_skip,
  emit_skip_hw, emit_skip_feature, emit_skip_exec, emit_skip_vendor, emit_all, pl,
}
use bythos.Silicon.{IommuCmdline, parse_iommu_cmdline}
use bythos.Silicon.Cpu.{
  cpu_vendor_unknown, cpu_vendor_amd, cpu_vendor_intel, parse_memory_encryption_flags,
}
use bythos.Runtime.Host.{Host}
use bythos.Runtime.Files.{count_child_dirs, read_file_text, first_line_with_prefix, join_path}
use bythos.Checks.Tools.{host_vendor, emit_guarded}

abbrev pub count_or_zero : Option ℕ → ℕ
count_or_zero none = 0
count_or_zero (some n) = n

-- The number of groups, 0 where they cannot be counted.
unfoldable pub group_count : Host → ℕ
group_count host = count_or_zero (count_child_dirs host (codes "/sys/kernel/iommu_groups"))

unfoldable pub groups_result : ℕ → CheckResult
unfolding emit
groups_result count =
    if ltb 0 count
    then emit (codes "IOMMU groups") check_ok (
        fit 128
          (decimal count ++ b' ' ∷ (pl count (codes "group") (codes "groups") ++ codes " active")))
    else emit (codes "IOMMU groups") check_warn (codes "none visible")

unfoldable pub dma_name : Bytes
dma_name = codes "IOMMU DMA posture"

-- What is said where the groups are visible and the command line does not weaken them.
unfoldable pub hardened_detail : IommuCmdline → Bytes
hardened_detail parsed =
    if parsed.passthrough_off && parsed.strict_on
    then codes "runtime groups visible; passthrough disabled; strict mode enabled"
    else if parsed.passthrough_off
    then codes "runtime groups visible; passthrough disabled"
    else if parsed.strict_on
    then codes "runtime groups visible; strict mode enabled"
    else if parsed.vendor_iommu_on
    then codes "runtime groups visible; vendor IOMMU enable flag present"
    else codes "runtime groups visible; no passthrough override seen"

unfoldable pub cmdline_result : Bool → IommuCmdline → CheckResult
unfolding emit
cmdline_result groups_visible parsed =
    if parsed.iommu_disabled
    then emit dma_name check_fail (codes "IOMMU disabled in kernel cmdline")
    else if parsed.passthrough_on
    then emit dma_name check_fail (codes "passthrough override enabled in kernel cmdline")
    else if parsed.strict_off
    then emit dma_name check_warn (
        if groups_visible
        then codes "runtime groups visible; strict mode explicitly disabled"
        else codes "strict mode explicitly disabled in kernel cmdline")
    else if groups_visible
    then emit dma_name check_ok (hardened_detail parsed)
    else if parsed.passthrough_off || parsed.strict_on || parsed.vendor_iommu_on
    then emit dma_name check_warn
        (codes "cmdline looks hardened but runtime groups are not visible")
    else emit dma_name check_warn (codes "unable to confirm DMA remapping posture")

unfoldable pub dma_result : Host → Bool → CheckResult
unfolding emit cmdline_result
dma_result host groups_visible = elim (read_file_text host (codes "/proc/cmdline") 4096) [
  | none ↦
      if groups_visible
      then emit dma_name check_ok (codes "runtime groups visible; kernel cmdline unavailable")
      else emit dma_name check_warn (codes "unable to inspect kernel cmdline")
  | some cmdline ↦ cmdline_result groups_visible (parse_iommu_cmdline cmdline)
]

unfoldable pub iommu_results : Host → Results
unfolding groups_result dma_result
iommu_results host =
    groups_result (group_count host) ∷ dma_result host (ltb 0 (group_count host)) ∷ []

unfoldable pub check_iommu : Host → ℕ → Results
unfolding emit_all iommu_results
check_iommu host max_results = emit_all max_results (iommu_results host) []

unfoldable pub encryption_name : Bytes
encryption_name = codes "memory encryption"

-- The verdict on the flag of the vendor.
unfoldable pub encryption_verdict : Bool → Bytes → CheckResult
unfolding emit emit_skip
encryption_verdict flag detail =
    if not flag
    then emit_skip encryption_name skip_feature_absent (codes "CPU encryption flags not detected")
    else emit encryption_name check_ok detail

unfoldable pub encryption_flags : Host → Bool → CheckResult
unfolding encryption_verdict emit_skip_exec
encryption_flags host is_amd =
    elim (first_line_with_prefix host (codes "/proc/cpuinfo") (codes "flags") 4096) [
      | none ↦ emit_skip_exec encryption_name (codes "cpuinfo")
      | some line ↦
          (let flags = parse_memory_encryption_flags line in
            if is_amd
            then encryption_verdict flags.amd_sme
                (codes "AMD SME capability present; activation not verified")
            else encryption_verdict flags.intel_tme
                (codes "Intel TME capability present; activation not verified"))
    ]

unfoldable pub memory_encryption_result : Host → CheckResult
unfolding encryption_flags emit_skip_vendor
memory_encryption_result host = elim (host_vendor host) [
  | cpu_vendor_unknown ↦ emit_skip_vendor encryption_name (codes "CPU vendor undetermined")
  | cpu_vendor_amd ↦ encryption_flags host true
  | cpu_vendor_intel ↦ encryption_flags host false
]

unfoldable pub check_memory_encryption : Host → ℕ → Results
unfolding emit_guarded memory_encryption_result
check_memory_encryption host max_results =
    emit_guarded max_results (memory_encryption_result host ∷ [])

unfoldable pub bolt_sysfs_base : Bytes
bolt_sysfs_base = codes "/sys/bus/thunderbolt/devices"

pub data TbDmaState : Type 0 where
  tb_dma_unreadable : TbDmaState
  tb_dma_all_on : TbDmaState
  tb_dma_some_off : TbDmaState

abbrev pub is_domain : Bytes → Bool
is_domain name = starts_with (codes "domain") name

-- What protects a domain, where that can be read: is it on?
unfoldable pub domain_protection : Host → Bytes → Option Bool
domain_protection host name =
    if not (is_domain name)
    then none
    else elim (join_path bolt_sysfs_base (name ++ codes "/iommu_dma_protection")) [
      | none ↦ none
      | some path ↦ elim (read_file_text host path 8) [
        | none ↦ none
        | some val ↦ some (equal (trim val) (codes "1"))
      ]
    ]

-- The loop, with the counts of readable and of unprotected domains.
unfoldable pub count_domains : Host → List Bytes → ℕ → ℕ → ℕ × ℕ
unfolding domain_protection
count_domains host [] readable unprotected = (readable, unprotected)
count_domains host (name ∷ names) readable unprotected = elim (domain_protection host name) [
  | none ↦ count_domains host names readable unprotected
  | some is_on ↦
      count_domains host names (readable + 1) (if is_on then unprotected else unprotected + 1)
]

unfoldable pub read_tb_dma_state : Host → TbDmaState
unfolding count_domains
read_tb_dma_state host = elim (host.listing bolt_sysfs_base) [
  | none ↦ tb_dma_unreadable
  | some names ↦
      (let (readable, unprotected) = count_domains host names 0 0 in
        if readable == 0
        then tb_dma_unreadable
        else if ltb 0 unprotected
        then tb_dma_some_off
        else tb_dma_all_on)
]

unfoldable pub any_domain : List Bytes → Bool
any_domain [] = false
any_domain (name ∷ names) = if is_domain name then true else any_domain names

unfoldable pub tb_controller_present : Host → Bool
unfolding any_domain
tb_controller_present host = elim (host.listing bolt_sysfs_base) [
  | none ↦ false
  | some names ↦ any_domain names
]

unfoldable pub bolt_dma_result : Host → CheckResult
unfolding tb_controller_present read_tb_dma_state emit emit_skip_hw emit_skip_feature
bolt_dma_result host =
    let name = codes "Thunderbolt DMA protection" in
    if not (tb_controller_present host)
    then emit_skip_hw name (codes "Thunderbolt")
    else elim (read_tb_dma_state host) [
      | tb_dma_unreadable ↦ emit_skip_feature name (codes "iommu_dma_protection")
      | tb_dma_all_on ↦ emit name check_ok (codes "pre-boot DMA active")
      | tb_dma_some_off ↦
          emit name check_warn (codes "pre-boot DMA inactive on at least one domain")
    ]

unfoldable pub check_bolt_dma : Host → ℕ → Results
unfolding emit_all bolt_dma_result
check_bolt_dma host max_results = emit_all max_results (bolt_dma_result host ∷ []) []
