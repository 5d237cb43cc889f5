-- ===== src/Firmware/Sbat/Csv.antt =====
-- Reading SBAT data ends, and keeps what it reads within bounds.
use bythos.Base.{
  ℕ, zero, suc, ◌≤◌, ◌<◌, ◌≡◌, ◌≢◌, Bool, ◌||◌, refl, ap, Option, none, some, List, [], ◌∷◌, arith,
  Bytes, All, length, length-append, leb, ◌==◌, Bool-cases, inl, inr, take_while, drop_while,
  take_while-append-drop_while,
}
use bythos.Firmware.Sbat.{
  SbatEntry, uint_max, parse_generation, parse_fields, parse_sbat_line, not_comma, in_line,
  skip_eol, add_found, left_after, sbat_from, parse_sbat_csv,
}

-- An entry whose component fits its array with the NUL, and whose generation is an `unsigned int`.
pub record IsEntry (e : SbatEntry) : Type 0 where
  pub named : 0 < length e.component
  pub fits : length e.component < 64
  pub generation_fits : e.generation ≤ uint_max

abbrev IsFound : Option SbatEntry → Type 0
IsFound none = Unit
IsFound (some e) = IsEntry e

parse_generation-le : (s : Bytes) (gen : ℕ) → parse_generation s ≡ some gen → gen ≤ uint_max
unfolding parse_generation
parse_generation-le [] gen h = ground arith
parse_generation-le (c ∷ s) gen h = ground arith

parse_fields-IsFound : (component rest : Bytes) → IsFound (parse_fields component rest)
unfolding parse_fields
parse_fields-IsFound component [] = tt
parse_fields-IsFound component (comma ∷ fields) =
    elim (Bool-cases (length component == 0 || leb 64 (length component))) [
      | inl refused ↦ rw refused tt
      | inr named ↦
          rw named
            (go (parse_generation (take_while not_comma fields)) refl (ground arith) (ground arith))
    ]
  where
    go :
        (m : Option ℕ)
        → parse_generation (take_while not_comma fields) ≡ m
        → 0 < length component
        → length component < 64
        → IsFound (elim m [
          | none ↦ none
          | some gen ↦ some (record { component = component; generation = gen })
        ])
    go none e pos fits = tt
    go (some gen) e pos fits = record {
      named = pos;
      fits = fits;
      generation_fits = parse_generation-le (take_while not_comma fields) gen e;
    }

parse_sbat_line-IsFound : (line : Bytes) → IsFound (parse_sbat_line line)
unfolding parse_sbat_line
parse_sbat_line-IsFound line =
    parse_fields-IsFound (take_while not_comma line) (drop_while not_comma line)

length-drop_while : (p : ℕ → Bool) (s : Bytes) → length (drop_while p s) ≤ length s
length-drop_while p s = omega (
  arith,
  ap length (take_while-append-drop_while p s),
  length-append (take_while p s) (drop_while p s),
)

length-skip_eol : (s : Bytes) → length (skip_eol s) ≤ length s
unfolding skip_eol
length-skip_eol [] = omega arith
length-skip_eol (c ∷ s) = ground arith

-- A round of the loop goes on by a byte or more.
progress : (c : ℕ) (s : Bytes) → c ≢ 0 → length (skip_eol (drop_while in_line (c ∷ s))) ≤ length s
unfolding skip_eol drop_while
progress c s h = elim (Bool-cases (in_line c)) [
  | inl inside ↦
      rw inside (omega (arith, length-skip_eol (drop_while in_line s), length-drop_while in_line s))
  | inr ended ↦ ground arith
]

-- The loop ends with at most `room` entries, all well-formed.
record Reads (room : ℕ) (m : Option (List SbatEntry)) : Type 0 where
  entries : List SbatEntry
  given : m ≡ some entries
  fits : length entries ≤ room
  well_formed : All IsEntry entries

add_entry-Reads :
    (found : Option SbatEntry) (room : ℕ) (m : Option (List SbatEntry))
    → room ≢ 0
    → IsFound found
    → Reads (left_after found room) m
    → Reads room (add_found found m)
add_entry-Reads none room m pos f r =
    rw r.given
      (record { entries = r.entries; given = refl; fits = r.fits; well_formed = r.well_formed })
add_entry-Reads (some e) room m pos f r = rw r.given (record {
  entries = e ∷ r.entries;
  given = refl;
  fits = omega (arith, r.fits);
  well_formed = (f, r.well_formed);
})

sbat_from-Reads :
    (fuel : ℕ) (text : Bytes) (room : ℕ)
    → length text < fuel
    → Reads room (sbat_from fuel text room)
unfolding sbat_from
sbat_from-Reads zero text room h = absurd (omega arith)
sbat_from-Reads (suc fuel) [] room h = record {
  entries = [];
  given = refl;
  fits = omega arith;
  well_formed = tt;
}
sbat_from-Reads (suc fuel) (c ∷ s) room h = elim (Bool-cases (room == 0 || c == 0)) [
  | inl done ↦ rw done (record { entries = []; given = refl; fits = omega arith; well_formed = tt })
  | inr more ↦
      let found = parse_sbat_line (take_while in_line (c ∷ s)) in
      let rest = skip_eol (drop_while in_line (c ∷ s)) in
      let smaller : length rest < fuel = omega (arith, progress c s (ground arith)) in
      rw more (
        add_entry-Reads found room (sbat_from fuel rest (left_after found room)) (ground arith)
          (parse_sbat_line-IsFound (take_while in_line (c ∷ s)))
          (sbat_from-Reads fuel rest (left_after found room) smaller))
]

-- What reading SBAT data gives.
pub record ReadEntries (text : Bytes) (max_entries : ℕ) : Type 0 where
  pub entries : List SbatEntry
  pub given : parse_sbat_csv text max_entries ≡ some entries
  pub fits : length entries ≤ max_entries
  pub well_formed : All IsEntry entries

-- Whatever the data, reading it ends with at most `max_entries` entries. Each has a nonempty
-- component that fits its array with the NUL, and a generation of at most 2 ^ 32 - 1.
pub parse_sbat_csv-ReadEntries : (text : Bytes) (max_entries : ℕ) → ReadEntries text max_entries
unfolding parse_sbat_csv
parse_sbat_csv-ReadEntries text max_entries =
    let r = sbat_from-Reads (suc (length text)) text max_entries (omega arith) in
    record { entries = r.entries; given = r.given; fits = r.fits; well_formed = r.well_formed }
