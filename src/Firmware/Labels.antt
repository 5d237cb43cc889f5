-- ===== src/Firmware/Labels.antt =====
-- The readers of short reports in src/firmware_parsers.c: counts of lines, labels with a value, and
-- the words that fwupd, mokutil and the firmware answer with.
pub mod Lines
use bythos.Base.{
  ℕ, zero, suc, ◌+◌, ◌-◌, min, Bool, true, false, not, ◌&&◌, ◌||◌, Option, none, some, [], ◌∷◌,
  Bytes, codes, length, take, drop, ltb, leb, ◌==◌, if◌then◌else◌, is_space, is_blank, is_eol,
  take_while, drop_while, strchr, contains, fit, not_eol,
}

abbrev pub add_line : Bool → ℕ → ℕ
add_line true count = suc count
add_line false count = count

-- The loop of `bythos_count_nonempty_lines`, with the test behind it.
unfoldable pub count_from : Bytes → Bool → ℕ → ℕ
count_from [] in_line count = add_line in_line count
count_from (c ∷ s) in_line count = elim (is_eol c) [
  | true ↦ count_from s false (add_line in_line count)
  | false ↦ count_from s (if not (is_blank c) then true else in_line) count
]

unfoldable pub count_nonempty_lines : Bytes → ℕ
unfolding count_from
count_nonempty_lines text = count_from text false 0

abbrev pub non_empty : Bytes → Option Bytes
non_empty [] = none
non_empty (c ∷ s) = some (c ∷ s)

-- The value behind the first colon; `none` is NULL.
unfoldable pub skip_label_value : Bytes → Option Bytes
unfolding drop_while
skip_label_value text = elim (strchr text b':') [
  | none ↦ none
  | some sep ↦ non_empty (drop_while is_space (drop 1 sep))
]

abbrev pub is_one_space : ℕ → Bool
is_one_space c = c == b' '

unfoldable pub extract_short_list_name : Bytes → ℕ → Option Bytes
extract_short_list_name text size =
    if size == 0
    then none
    else (let line = take 511 (take_while not_eol text) in
        elim (strchr line b' ') [
          | none ↦ none
          | some name ↦ elim (drop_while is_one_space name) [
            | [] ↦ none
            | c ∷ s ↦ some (fit size (c ∷ s))
          ]
        ])

pub data SecureBootStatus : Type 0 where
  secure_boot_unknown : SecureBootStatus
  secure_boot_enabled : SecureBootStatus
  secure_boot_disabled : SecureBootStatus

unfoldable pub parse_secure_boot_state : Bytes → SecureBootStatus
parse_secure_boot_state text =
    if contains text (codes "enabled")
    then secure_boot_enabled
    else if contains text (codes "disabled")
    then secure_boot_disabled
    else secure_boot_unknown

unfoldable pub secure_boot_setup_mode : Bytes → Bool
secure_boot_setup_mode text = contains text (codes "Setup Mode")

unfoldable pub secure_boot_validation_disabled : Bytes → Bool
secure_boot_validation_disabled text = contains text (codes "validation is disabled")

pub data FwupdUpdatesStatus : Type 0 where
  fwupd_updates_unknown : FwupdUpdatesStatus
  fwupd_updates_none : FwupdUpdatesStatus
  fwupd_updates_available : FwupdUpdatesStatus

-- The second argument is the test `exit_status == 0`.
unfoldable pub parse_fwupd_updates : Bytes → Bool → FwupdUpdatesStatus
parse_fwupd_updates text exited_zero =
    if contains text (codes "No updates available")
    then fwupd_updates_none
    else if exited_zero
    then fwupd_updates_available
    else fwupd_updates_unknown

abbrev pub in_sbat_line : ℕ → Bool
in_sbat_line c = not (c == b'\n' || c == b'\r' || c == 0)

-- The first line of a variable's payload, cut off at the buffer.
unfoldable pub parse_sbat_level : Bytes → ℕ → Option Bytes
parse_sbat_level buf out_size =
    if out_size == 0 || leb (length buf) 4
    then none
    else elim (take_while in_sbat_line (drop 4 buf)) [
      | [] ↦ none
      | c ∷ s ↦ some (take (min (length (c ∷ s)) (out_size - 1)) (c ∷ s))
    ]

abbrev pub is_white : ℕ → Bool
is_white c = is_blank c || is_eol c

unfoldable pub sbat_entries_present : Bytes → Bool
sbat_entries_present text = elim (drop_while is_white text) [
  | [] ↦ false
  | c ∷ s ↦ not (contains text (codes "No SBAT"))
]

unfoldable pub sb_has_ms_ca : Bytes → Bool
sb_has_ms_ca text =
    contains text (codes "Microsoft Corporation UEFI CA")
    || contains text (codes "Microsoft UEFI CA")
