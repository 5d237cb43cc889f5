-- ===== src/Firmware/Hsi.antt =====
-- The readers of fwupd's JSON report on host security in src/firmware_parsers.c. A pointer into
-- the report is the text from there on, and NULL is `none`.
pub mod Attribute
pub mod Records
use bythos.Base.{
  ℕ, zero, suc, ◌+◌, ◌-◌, min, Bool, true, false, not, ◌&&◌, ◌||◌, Option, none, some, List, [],
  ◌∷◌, ◌++◌, Bytes, codes, length, take, drop, ltb, leb, ◌==◌, if◌then◌else◌, take_while,
  drop_while, strstr, strchr, contains, equal, is_blank, is_eol, is_before, span,
}

unfoldable pub appstream_id_key : Bytes
appstream_id_key = codes "\"AppstreamId\""

unfoldable pub flags_key : Bytes
flags_key = codes "\"Flags\""

unfoldable pub success_token : Bytes
success_token = codes "\"success\""

unfoldable pub hsi_result_key : Bytes
hsi_result_key = codes "\"HsiResult\""

unfoldable pub hsi_success_key : Bytes
hsi_success_key = codes "\"HsiResultSuccess\""

unfoldable pub not_supported_text : Bytes
not_supported_text = codes "not-supported"

abbrev pub hsi_id_max : ℕ
hsi_id_max = 96

abbrev pub max_ids : ℕ
max_ids = 32

-- A search whose result counts only in front of `bound`.
unfoldable pub find_before : Bytes → Bytes → Bytes → Option Bytes
find_before text needle bound = elim (strstr text needle) [
  | none ↦ none
  | some p ↦ if is_before p bound then some p else none
]

unfoldable pub find_char_before : Bytes → ℕ → Bytes → Option Bytes
find_char_before text c bound = elim (strchr text c) [
  | none ↦ none
  | some p ↦ if is_before p bound then some p else none
]

-- The value that stands in quotes behind a key, cut off at the buffer.
unfoldable pub extract_quoted_value : Bytes → ℕ → Bytes → ℕ → Option Bytes
extract_quoted_value key_pos key_len bound out_size =
    elim (find_char_before (drop key_len key_pos) b':' bound) [
      | none ↦ none
      | some colon ↦ elim (find_char_before (drop 1 colon) b'"' bound) [
        | none ↦ none
        | some q1 ↦ elim (find_char_before (drop 1 q1) b'"' bound) [
          | none ↦ none
          | some q2 ↦ some (take (out_size - 1) (span (drop 1 q1) q2))
        ]
      ]
    ]

abbrev pub is_json_space : ℕ → Bool
is_json_space c = is_blank c || is_eol c

-- Behind the spaces: the text behind the byte `c`.
unfoldable pub behind : ℕ → Bytes → Option Bytes
behind c text = elim (drop_while is_json_space text) [
  | [] ↦ none
  | d ∷ s ↦ if d == c then some s else none
]

-- The value of a key, of which all has to stand in front of `bound`: what is behind the key is
-- first cut off there.
unfoldable pub hsi_value_span : Bytes → ℕ → Bytes → Option Bytes
hsi_value_span key_pos key_len bound = elim (behind b':' (span (drop key_len key_pos) bound)) [
  | none ↦ none
  | some value ↦ elim (behind b'"' value) [
    | none ↦ none
    | some p ↦ elim (strchr p b'"') [ none ↦ none | some end ↦ some (span p end) ]
  ]
]

abbrev pub is_id_byte : ℕ → Bool
is_id_byte c = not (ltb c 0x20 || ltb 0x7e c || c == b'\\')

unfoldable pub all_id_bytes : Bytes → Bool
all_id_bytes [] = true
all_id_bytes (c ∷ s) = if is_id_byte c then all_id_bytes s else false

unfoldable pub hsi_id_reproducible : Bytes → Bool
hsi_id_reproducible value =
    if length value == 0 || leb hsi_id_max (length value) then false else all_id_bytes value

pub record HsiNotPassing : Type 0 where
  pub total : ℕ
  pub not_supported : ℕ
  pub named : ℕ
  pub id : List Bytes

-- Is there the success flag among the flags of the record?
unfoldable pub is_passing : Bytes → Bytes → Bool
is_passing id_key bound = elim (find_before id_key flags_key bound) [
  | none ↦ false
  | some flags ↦ elim (find_before flags success_token bound) [ none ↦ false | some _ ↦ true ]
]

unfoldable pub is_not_supported : Bytes → Bytes → Bool
is_not_supported id_key bound = elim (find_before id_key hsi_result_key bound) [
  | none ↦ false
  | some result_key ↦ elim (hsi_value_span result_key (length hsi_result_key) bound) [
    | none ↦ false
    | some result ↦ equal result not_supported_text
  ]
]

-- The record's identifier, where it is one that can be printed as it is.
unfoldable pub printable_id : Bytes → Bytes → Option Bytes
printable_id id_key bound = elim (hsi_value_span id_key (length appstream_id_key) bound) [
  | none ↦ none
  | some value ↦ if hsi_id_reproducible value then some value else none
]

-- A record that does not pass and whose result is not "not-supported".
unfoldable pub add_weak : Bytes → Bytes → HsiNotPassing → HsiNotPassing
add_weak id_key bound out =
    if ltb out.named max_ids
    then elim (printable_id id_key bound) [
      | none ↦ record out { total = out.total + 1 }
      | some value ↦ record out {
        total = out.total + 1;
        named = out.named + 1;
        id = out.id ++ value ∷ [];
      }
    ]
    else record out { total = out.total + 1 }

unfoldable pub add_record : Bytes → Bytes → HsiNotPassing → HsiNotPassing
add_record id_key bound out =
    if is_passing id_key bound
    then out
    else if is_not_supported id_key bound
    then record out { total = out.total + 1; not_supported = out.not_supported + 1 }
    else add_weak id_key bound out

-- The loop; the outer `none` is fuel that ran out.
unfoldable pub collect_from : ℕ → Bytes → HsiNotPassing → Option HsiNotPassing
collect_from zero cursor out = none
collect_from (suc fuel) [] out = some out
collect_from (suc fuel) (c ∷ s) out = elim (strstr (c ∷ s) appstream_id_key) [
  | none ↦ some out
  | some id_key ↦ elim (strstr (drop (length appstream_id_key) id_key) appstream_id_key) [
    | none ↦ collect_from fuel [] (add_record id_key [] out)
    | some next_id ↦ collect_from fuel next_id (add_record id_key next_id out)
  ]
]

abbrev pub nothing_found : HsiNotPassing
nothing_found = record { total = 0; not_supported = 0; named = 0; id = [] }

unfoldable pub hsi_collect_not_passing : Bytes → Option HsiNotPassing
unfolding collect_from
hsi_collect_not_passing json = collect_from (suc (length json)) json nothing_found

abbrev pub total_of : Option HsiNotPassing → Option ℕ
total_of none = none
total_of (some out) = some out.total

unfoldable pub hsi_count_not_passing : Bytes → Option ℕ
hsi_count_not_passing json = total_of (hsi_collect_not_passing json)
