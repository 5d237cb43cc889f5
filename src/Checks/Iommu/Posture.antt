-- ===== src/Checks/Iommu/Posture.antt =====
-- When the check of the IOMMU fails and passes, by the words of the kernel's command line.
use bythos.Base.{
  ◌≡◌, ◌↔◌, Bool, true, false, not, ◌||◌, some, List, ◌∷◌, ◌++◌, arith, Bytes, codes, All,
  if◌then◌else◌,
}
use bythos.Posture.Types.{CheckState, check_ok, check_warn, check_fail, emit, make_result}
use bythos.Silicon.{IommuCmdline, parse_iommu_cmdline}
use bythos.Silicon.Tokens.{IsWord, spaced, among, parse_iommu_cmdline-among}
use bythos.Runtime.Host.{Host}
use bythos.Runtime.Files.{read_file_text}
use bythos.Checks.Iommu.{cmdline_result, dma_result}

-- The verdict, without what is said of it.
abbrev verdict : Bool → Bool → Bool → Bool → CheckState
verdict groups_visible disabled passed strict_off =
    if disabled || passed
    then check_fail
    else if strict_off || not groups_visible
    then check_warn
    else check_ok

cmdline_result-verdict :
    (groups_visible : Bool) (parsed : IommuCmdline)
    → (cmdline_result groups_visible parsed).state
      ≡ verdict groups_visible parsed.iommu_disabled parsed.passthrough_on parsed.strict_off
unfolding cmdline_result emit make_result
cmdline_result-verdict groups_visible parsed = ground arith

abbrev is_disabled : List Bytes → Bool
is_disabled ws =
    among ws (codes "iommu=off")
    || among ws (codes "intel_iommu=off")
    || among ws (codes "amd_iommu=off")

abbrev is_passed : List Bytes → Bool
is_passed ws = among ws (codes "iommu=pt") || among ws (codes "iommu.passthrough=1")

-- One of the words that turn the IOMMU off or let devices past it is there.
abbrev pub is_weakened : List Bytes → Bool
is_weakened ws = is_disabled ws || is_passed ws

verdicts :
    (groups_visible disabled passed strict_off : Bool)
    → let state = verdict groups_visible disabled passed strict_off in
      ((state ≡ check_fail) ↔ (disabled || passed ≡ true))
      × ((state ≡ check_ok)
          ↔ ((groups_visible ≡ true) × (disabled || passed ≡ false) × (strict_off ≡ false)))
verdicts groups_visible disabled passed strict_off = ground arith

dma_result-verdict :
    (host : Host) (groups_visible : Bool) (cmdline : Bytes)
    → read_file_text host (codes "/proc/cmdline") 4096 ≡ some cmdline
    → let parsed = parse_iommu_cmdline cmdline in
      (dma_result host groups_visible).state
      ≡ verdict groups_visible parsed.iommu_disabled parsed.passthrough_on parsed.strict_off
unfolding dma_result read_file_text
dma_result-verdict host groups_visible cmdline line =
    rw line (cmdline_result-verdict groups_visible (parse_iommu_cmdline cmdline))

-- Where the kernel's command line is a line of words, one space between two and a newline at the
-- end, the row on DMA fails exactly if a word is there that turns the IOMMU off or lets devices
-- past it, and passes exactly if groups are visible and neither such a word nor the one that turns
-- strict mode off is there.
pub dma_result-is_weakened :
    (host : Host) (groups_visible : Bool) (w : Bytes) (ws : List Bytes)
    → read_file_text host (codes "/proc/cmdline") 4096 ≡ some (w ++ spaced ws)
    → IsWord w
    → All IsWord ws
    → let state = (dma_result host groups_visible).state in
      ((state ≡ check_fail) ↔ (is_weakened (w ∷ ws) ≡ true))
      × ((state ≡ check_ok) ↔ (
          (groups_visible ≡ true)
          × (is_weakened (w ∷ ws) ≡ false)
          × (among (w ∷ ws) (codes "iommu.strict=0") ≡ false)))
dma_result-is_weakened host groups_visible w ws line hw h =
    rw
      (
        dma_result-verdict host groups_visible (w ++ spaced ws) line,
        parse_iommu_cmdline-among w ws hw h,
      )
      (verdicts groups_visible (is_disabled (w ∷ ws)) (is_passed (w ∷ ws))
        (among (w ∷ ws) (codes "iommu.strict=0")))
