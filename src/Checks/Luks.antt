-- ===== src/Checks/Luks.antt =====
-- src/check_luks.c: what the PCRs that a volume is bound to mean for unlocking it.
pub mod Volumes
pub mod Rows
pub mod Version
pub mod Headers
pub mod Whole
use Prim.Native.Nat.{bit_and}
use bythos.Base.{
  ℕ, zero, suc, ◌+◌, ◌-◌, ◌/◌, ◌^◌, Bool, true, false, not, ◌&&◌, Option, none, some, List, [], ◌∷◌,
  ◌++◌, Bytes, codes, length, ltb, leb, ◌==◌, if◌then◌else◌, decimal,
}
use bythos.Posture.Types.{detail_max}
use bythos.Checks.Registers.{is_set}

abbrev pub space_behind : Bytes → Bytes
space_behind [] = []
space_behind (c ∷ s) = c ∷ s ++ b' ' ∷ []

-- The loop from `i` on, `rounds` in front of its end.
unfoldable pub write_pcrs : ℕ → ℕ → ℕ → ℕ → Bytes → Bytes
write_pcrs zero i mask size out = out
write_pcrs (suc rounds) i mask size out = elim (leb size (length out + 6)) [
  | true ↦ out
  | false ↦
      write_pcrs rounds (i + 1) mask size
        (if is_set i mask then space_behind out ++ decimal i else out)
]

unfoldable pub pcr_mask_to_str : ℕ → ℕ → Bytes
unfolding write_pcrs
pcr_mask_to_str mask size = write_pcrs 32 0 mask size []

pub record UpdateKind : Type 0 where
  pub pcr : ℕ
  pub update : Bytes

unfoldable pub pcr_update_kinds : List UpdateKind
pcr_update_kinds =
    record { pcr = 0; update = codes "firmware" }
    ∷ record { pcr = 4; update = codes "bootloader" }
    ∷ record { pcr = 7; update = codes "Secure Boot key" }
    ∷ record { pcr = 9; update = codes "kernel/initramfs" }
    ∷ record { pcr = 11; update = codes "UKI" }
    ∷ []

-- The detail with the clause, or the detail as it was and `false`.
unfoldable pub append_clause : Bytes → ℕ → Bytes → Bytes × Bool
append_clause detail size clause =
    let item = codes "; " ++ clause in
    if leb size (length detail)
    then (detail, false)
    else if leb (size - length detail) (length item)
    then (detail, false)
    else (detail ++ item, true)

-- The updates whose PCRs are in the mask, and the bits of these PCRs.
unfoldable pub known_updates : ℕ → List UpdateKind → List Bytes × ℕ
known_updates mask [] = ([], 0)
known_updates mask (kind ∷ kinds) =
    let (names, known) = known_updates mask kinds in
    if is_set kind.pcr mask then (kind.update ∷ names, 2 ^ kind.pcr + known) else (names, known)

-- The separator in front of the name with this index.
abbrev pub list_separator : ℕ → ℕ → Bytes
list_separator i count =
    if i == 0
    then []
    else if ltb (i + 1) count
    then codes ", "
    else if count == 2
    then codes " or "
    else codes ", or "

-- The loop over the names; `none` is a list that does not fit its 128 bytes.
unfoldable pub list_names : ℕ → ℕ → List Bytes → Bytes → Option Bytes
list_names i count [] list = some list
list_names i count (name ∷ names) list =
    let item = list_separator i count ++ name in
    elim (leb (128 - length list) (length item)) [
      | true ↦ none
      | false ↦ list_names (i + 1) count names (list ++ item)
    ]

abbrev pub qualifier : Bool → Bytes
qualifier signed_policy = if signed_policy then codes " without a fresh signed policy" else []

-- The clause on the updates, `none` where it does not fit.
unfoldable pub unlock_clause : ℕ → List Bytes → ℕ → Bool → Option Bytes
unfolding list_names
unlock_clause mask names known signed_policy = elim (list_names 0 (length names) names []) [
  | none ↦ none
  | some list ↦
      (let others =
          if not (bit_and mask (2 ^ 32 - 1 - known) == 0)
          then codes "; consequence of other bound PCRs unknown"
          else [] in
        let clause =
          codes "unlock breaks on "
          ++ (list ++ (codes " update" ++ (qualifier signed_policy ++ others))) in
        if leb detail_max (length clause) then none else some clause)
]

-- The clause that always holds.
unfoldable pub append_any_change : Bytes → ℕ → Bool → Bytes
unfolding append_clause
append_any_change detail size signed_policy =
    (append_clause detail size
      (codes "any change to a bound PCR breaks unlock" ++ qualifier signed_policy)).0

unfoldable pub append_unlock_consequences : Bytes → ℕ → ℕ → Bool → Bytes
unfolding known_updates pcr_update_kinds unlock_clause append_clause append_any_change
append_unlock_consequences detail size mask signed_policy =
    let (names, known) = known_updates mask pcr_update_kinds in
    if length names == 0
    then (append_clause detail size (codes "no bound PCR has a known update consequence")).0
    else elim (unlock_clause mask names known signed_policy) [
      | none ↦ append_any_change detail size signed_policy
      | some clause ↦
          (let (appended, done) = append_clause detail size clause in
            if done then appended else append_any_change detail size signed_policy)
    ]

-- The loop that counts the bits, with the rounds that a word of 32 bits has at most.
unfoldable pub popcount : ℕ → ℕ → ℕ
popcount zero tmp = 0
popcount (suc rounds) tmp =
    let rest = popcount rounds (tmp / 2) in if tmp == 0 then 0 else bit_and tmp 1 + rest
