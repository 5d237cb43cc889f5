-- ===== src/Checks/Fwupd/Naming.antt =====
-- src/check_fwupd.c: what the row on unmapped attributes names.
use mathlib.Core.List.{Memᴰ}
use bythos.Base.{
  ℕ, ◌+◌, ◌≤◌, ◌<◌, false, List, [], ◌++◌, ◌≡◌, Bytes, codes, length, ◌==◌, if◌then◌else◌,
}
use bythos.Posture.Types.{detail_max}
use bythos.Checks.Fwupd.Hsi.{HsiReported, hsi_already_reported}
use bythos.Checks.Fwupd.Unmapped.{unmapped_text, Naming}

-- So many identifiers of the report, each whole and none with a row of its own, between commas.
pub data AreHidden (reported : HsiReported) (ids : List Bytes) : ℕ → Bytes → Type 0 where
  nobody : AreHidden reported ids 0 []
  one_more :
      {n : ℕ} {names : Bytes} (appstream_id : Bytes)
      → Memᴰ appstream_id ids
      → hsi_already_reported reported appstream_id ≡ false
      → AreHidden reported ids n names
      → AreHidden reported ids
          (n + 1)
          (names ++ ((if n == 0 then [] else codes ", ") ++ appstream_id))

module _ (hidden inapplicable : ℕ) (reported : HsiReported) (ids : List Bytes) where
  -- No more are named than are counted, and the detail is the whole text on them.
  abbrev pub IsHonest : Naming → Type 0
  IsHonest naming =
      (naming.named ≤ hidden)
      × AreHidden reported ids naming.named naming.names
      × (naming.detail ≡ unmapped_text hidden naming.names naming.named inapplicable)
      × (length naming.detail < detail_max)
