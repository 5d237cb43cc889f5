-- ===== src/Silicon.antt =====
-- The parsers of src/silicon_parsers.c: the kernel's command line, PCR banks and the processor.
pub mod Tokens
pub mod Cpu
use bythos.Base.{
  ℕ, zero, suc, ◌-◌, Bool, true, false, not, ◌&&◌, ◌||◌, Option, none, some, List, [], ◌∷◌, Bytes,
  codes, length, take, drop, ltb, leb, ◌==◌, if◌then◌else◌, is_space, is_blank, take_while,
  drop_while, starts_with, equal, strchr, lines, trim, fit,
}

-- A byte that ends no token: not in " \t\r\n".
abbrev pub in_token : ℕ → Bool
in_token c = not (c == b' ' || c == b'\t' || c == b'\r' || c == b'\n')

unfoldable pub token_from : ℕ → Bytes → Bytes → Bool
token_from zero text needle = false
token_from (suc fuel) text needle = elim (drop_while is_space text) [
  | [] ↦ false
  | c ∷ s ↦
      (let rest = token_from fuel (drop_while in_token (c ∷ s)) needle in
        if equal (take_while in_token (c ∷ s)) needle then true else rest)
]

unfoldable pub token_present : Bytes → Bytes → Bool
unfolding token_from
token_present text needle = token_from (suc (length text)) text needle

pub record IommuCmdline : Type 0 where
  pub iommu_disabled : Bool
  pub vendor_iommu_on : Bool
  pub passthrough_on : Bool
  pub passthrough_off : Bool
  pub strict_on : Bool
  pub strict_off : Bool

unfoldable pub parse_iommu_cmdline : Bytes → IommuCmdline
unfolding token_present
parse_iommu_cmdline text = record {
  iommu_disabled =
      token_present text (codes "iommu=off")
      || token_present text (codes "intel_iommu=off")
      || token_present text (codes "amd_iommu=off");
  vendor_iommu_on =
      token_present text (codes "intel_iommu=on") || token_present text (codes "amd_iommu=on");
  passthrough_on =
      token_present text (codes "iommu=pt") || token_present text (codes "iommu.passthrough=1");
  passthrough_off = token_present text (codes "iommu.passthrough=0");
  strict_on = token_present text (codes "iommu.strict=1");
  strict_off = token_present text (codes "iommu.strict=0");
}
