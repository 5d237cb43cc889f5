-- ===== src/Tests/Fwupd.antt =====
-- What the check of fwupd names, on a report that is made up.
use bythos.Base.{
  Bytes, List, [], codes, decimal, decimal_from, equal, length, none, refl, true, ◌∷◌, ◌≡◌, ◌≤◌,
}
use bythos.Posture.Types.{pl}
use bythos.Checks.Fwupd.Hsi.{HsiReported, is_listed, hsi_already_reported}
use bythos.Checks.Fwupd.Unmapped.{
  Naming, named_text, unmapped_text, hsi_unmapped_detail, name_next, name_hidden, unnamed,
  check_fwupd,
}
use bythos.Tests.World.{world}
use bythos.Checks.Fwupd.Room.{check_fwupd-le}

abbrev iommu_reported : HsiReported
iommu_reported = record { id = codes "Iommu" ∷ []; count = 1; not_supported = 0 }

abbrev three_ids : List Bytes
three_ids = codes "Iommu" ∷ codes "Fde" ∷ codes "Kernel.Swap" ∷ []

abbrev swap_named : Naming
swap_named = name_hidden 3 2 iommu_reported three_ids (unnamed 3 2)

swap_detail :
    equal swap_named.detail (
      codes
        "3 further fwupd attributes are not passing: Fde, Kernel.Swap (+1 unidentified); 2 more not-supported (inapplicable); run: fwupdmgr security")
    ≡ true
unfolding name_hidden name_next unnamed hsi_unmapped_detail unmapped_text named_text
    hsi_already_reported is_listed pl equal codes decimal decimal_from
swap_detail = refl

-- A world without files whose programs say nothing, and room for three rows.
check_fwupd-le_example : length (check_fwupd (world (λ path. none) []) 3) ≤ 3
check_fwupd-le_example = check_fwupd-le (world (λ path. none) []) 3
