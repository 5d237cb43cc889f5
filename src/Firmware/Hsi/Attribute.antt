-- ===== src/Firmware/Hsi/Attribute.antt =====
-- `bythos_hsi_find_attribute` of src/firmware_parsers.c: what the report says of one attribute.
pub mod Bounds
use bythos.Base.{
  ℕ, zero, suc, ◌-◌, Bool, true, false, Option, none, some, [], ◌∷◌, Bytes, codes, length, take,
  drop, if◌then◌else◌, strstr, strchr, contains, equal, is_before, span,
}
use bythos.Firmware.Hsi.{
  appstream_id_key, flags_key, success_token, hsi_result_key, hsi_success_key, find_before,
  extract_quoted_value,
}

pub data HsiAction : Type 0 where
  action_none : HsiAction
  action_oem : HsiAction
  action_firmware : HsiAction
  action_os : HsiAction

pub record HsiAttribute : Type 0 where
  pub result : Bytes
  pub success : Bytes
  pub action : HsiAction
  pub passing : Bool

unfoldable pub action_of : Bytes → HsiAction
action_of flags =
    if contains flags (codes "action-contact-oem")
    then action_oem
    else if contains flags (codes "action-config-fw")
    then action_firmware
    else if contains flags (codes "action-config-os")
    then action_os
    else action_none

-- The array of flags, cut off at the buffer.
unfoldable pub flags_action : Bytes → Bytes → HsiAction
flags_action flags bound = elim (strchr (drop (length flags_key) flags) b'[') [
  | none ↦ action_none
  | some start ↦ elim (strchr start b']') [
    | none ↦ action_none
    | some stop ↦
        if is_before stop bound then action_of (take 255 (span start stop)) else action_none
  ]
]

unfoldable pub with_flags : Bytes → Bytes → HsiAttribute → HsiAttribute
with_flags q2 bound attribute = elim (find_before (drop 1 q2) flags_key bound) [
  | none ↦ attribute
  | some flags ↦ record attribute {
    action = flags_action flags bound;
    passing = elim (find_before flags success_token bound) [ none ↦ false | some _ ↦ true ];
  }
]

abbrev pub text_or_empty : Option Bytes → Bytes
text_or_empty none = []
text_or_empty (some s) = s

unfoldable pub success_of : Bytes → Bytes → Bytes
success_of q2 bound = elim (find_before (drop 1 q2) hsi_success_key bound) [
  | none ↦ []
  | some key ↦ text_or_empty (extract_quoted_value key (length hsi_success_key) bound 64)
]

-- The attribute whose identifier ends at `q2`; `none` is the answer `false`.
unfoldable pub read_attribute : Bytes → Bytes → Option HsiAttribute
read_attribute q2 bound = elim (find_before (drop 1 q2) hsi_result_key bound) [
  | none ↦ none
  | some key ↦ elim (extract_quoted_value key (length hsi_result_key) bound 64) [
    | none ↦ none
    | some result ↦ some (
        with_flags q2 bound (record {
          result = result;
          success = success_of q2 bound;
          action = action_none;
          passing = false;
        }))
  ]
]

-- The start and the end of the next identifier's text.
unfoldable pub next_id : Bytes → Option (Bytes × Bytes)
next_id cursor = elim (strstr cursor appstream_id_key) [
  | none ↦ none
  | some id_key ↦ elim (strchr (drop (length appstream_id_key) id_key) b':') [
    | none ↦ none
    | some colon ↦ elim (strchr (drop 1 colon) b'"') [
      | none ↦ none
      | some q1 ↦ elim (strchr (drop 1 q1) b'"') [ none ↦ none | some q2 ↦ some (drop 1 q1, q2) ]
    ]
  ]
]

abbrev pub or_end : Option Bytes → Bytes
or_end none = []
or_end (some p) = p

-- The outer `none` is fuel that ran out.
unfoldable pub find_from : ℕ → Bytes → Bytes → Option (Option HsiAttribute)
find_from zero cursor appstream_id = none
find_from (suc fuel) [] appstream_id = some none
find_from (suc fuel) (c ∷ s) appstream_id = elim (next_id (c ∷ s)) [
  | none ↦ some none
  | some (q1, q2) ↦ elim (equal (span q1 q2) appstream_id) [
    | true ↦ some (read_attribute q2 (or_end (strstr (drop 1 q2) appstream_id_key)))
    | false ↦ find_from fuel (drop 1 q2) appstream_id
  ]
]

unfoldable pub hsi_find_attribute : Bytes → Bytes → Option (Option HsiAttribute)
unfolding find_from
hsi_find_attribute json appstream_id = find_from (suc (length json)) json appstream_id
