-- ===== src/Firmware/Join.antt =====
-- `bythos_join_short_list_names` of src/firmware_parsers.c: the names in a list of hashes and
-- names, joined by commas in a buffer of a given size.
pub mod Bounds
use bythos.Base.{
  ℕ, zero, suc, ◌+◌, ◌-◌, ◌*◌, min, Bool, true, false, not, ◌&&◌, ◌||◌, Option, none, some, List,
  [], ◌∷◌, ◌++◌, Bytes, codes, length, take, drop, ltb, leb, ◌==◌, if◌then◌else◌, take_while,
  drop_while, equal, is_blank, lines, decimal,
}

abbrev pub join_track_max : ℕ
join_track_max = 16

abbrev pub join_track_name : ℕ
join_track_name = 64

abbrev pub join_hash_chars : ℕ
join_hash_chars = 8

abbrev pub tail_reserve : ℕ
tail_reserve = 32

abbrev pub not_blank : ℕ → Bool
not_blank c = not (is_blank c)

-- The blanks and returns at the end of a name are not the name's.
unfoldable pub trim_name : Bytes → Bytes
trim_name [] = []
trim_name (c ∷ s) = elim (trim_name s) [
  | [] ↦ if is_blank c || c == b'\r' then [] else c ∷ []
  | d ∷ t ↦ c ∷ d ∷ t
]

-- The hash and the name of a line that has both.
unfoldable pub hash_and_name : Bytes → Option (Bytes × Bytes)
hash_and_name line =
    let p = drop_while is_blank line in
    elim (drop_while not_blank p) [
      | [] ↦ none
      | c ∷ s ↦ elim (trim_name (drop_while is_blank (c ∷ s))) [
        | [] ↦ none
        | d ∷ name ↦ some (take_while not_blank p, d ∷ name)
      ]
    ]

pub record Joined : Type 0 where
  pub text : Bytes
  pub emitted_names : List Bytes
  pub total_seen : ℕ

unfoldable pub collides : Bytes → List Bytes → Bool
collides track [] = false
collides track (e ∷ emitted) = if equal e track then true else collides track emitted

-- " [hash]" behind a name that is already there.
unfoldable pub suffix_of : Bool → Bytes → Bytes
suffix_of collision [] = []
suffix_of collision (c ∷ hash) =
    if collision then b' ' ∷ b'[' ∷ (take join_hash_chars (c ∷ hash) ++ b']' ∷ []) else []

abbrev pub separator : List Bytes → Bytes
separator [] = []
separator (e ∷ emitted) = b',' ∷ b' ' ∷ []

-- A name is seen, and written where it fits.
unfoldable pub place_name : ℕ → Bytes → Bytes → Joined → Joined
place_name emit_limit added track joined =
    if ltb (length joined.text + length added + 1) emit_limit
    then record {
      text = joined.text ++ added;
      emitted_names = joined.emitted_names ++ track ∷ [];
      total_seen = joined.total_seen + 1;
    }
    else record joined { total_seen = joined.total_seen + 1 }

unfoldable pub add_name : ℕ → ℕ → ℕ → Bytes × Bytes → Joined → Joined
add_name emit_limit max_names max_name_chars (hash, name) joined =
    if ltb (length joined.emitted_names) max_names
    then (let copy = take max_name_chars name in
        let track = take join_track_name copy in
        let added =
          separator joined.emitted_names
          ++ (copy ++ suffix_of (collides track joined.emitted_names) hash) in
        place_name emit_limit added track joined)
    else record joined { total_seen = joined.total_seen + 1 }

unfoldable pub add_lines : ℕ → ℕ → ℕ → List Bytes → Joined → Joined
add_lines emit_limit max_names max_name_chars [] joined = joined
add_lines emit_limit max_names max_name_chars (l ∷ ls) joined =
    add_lines emit_limit max_names max_name_chars ls (elim (hash_and_name l) [
      | none ↦ joined
      | some found ↦ add_name emit_limit max_names max_name_chars found joined
    ])

-- What is said of the names that are not there.
unfoldable pub tail_of : ℕ → ℕ → Bytes
tail_of emitted total_seen =
    if ltb 0 emitted
    then codes " (and " ++ (decimal (total_seen - emitted) ++ codes " more)")
    else decimal total_seen
      ++ b' ' ∷ ((if total_seen == 1 then codes "item" else codes "items") ++ codes ", none fit")

unfoldable pub add_tail : ℕ → Joined → Bytes
add_tail size joined =
    let emitted = length joined.emitted_names in
    let tail = tail_of emitted joined.total_seen in
    if ltb emitted joined.total_seen
      && (ltb 0 (length tail) && ltb (length tail) 48)
      && ltb (length joined.text + length tail + 1) size
    then joined.text ++ tail
    else joined.text

abbrev pub nothing_joined : Joined
nothing_joined = record { text = []; emitted_names = []; total_seen = 0 }

-- The names that were seen, and the text in the buffer, where one was written.
unfoldable pub join_short_list_names : Bytes → ℕ → ℕ → ℕ → ℕ × Option Bytes
join_short_list_names text size max_names max_name_chars =
    if size == 0 || max_names == 0 || max_name_chars == 0
    then (0, none)
    else if leb size tail_reserve
    then (0, some [])
    else (let joined =
          add_lines (size - tail_reserve) (min max_names join_track_max) max_name_chars (lines text)
            nothing_joined in
        (joined.total_seen, some (add_tail size joined)))
