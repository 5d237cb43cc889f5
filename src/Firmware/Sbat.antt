-- ===== src/Firmware/Sbat.antt =====
-- `bythos_parse_sbat_csv` of src/firmware_parsers.c and the comparison of src/check_boot_chain.c:
-- the generations of the installed bootloader against the revoked ones.
pub mod Rows
pub mod Csv
pub mod Revoked
use bythos.Base.{
  ℕ, zero, suc, ◌+◌, ◌-◌, ◌*◌, ◌%◌, ◌^◌, min, Bool, true, false, not, ◌&&◌, ◌||◌, Option, none,
  some, List, [], ◌∷◌, Bytes, length, ltb, leb, ◌==◌, if◌then◌else◌, is_space, is_digit, take_while,
  drop_while, equal,
}

pub record SbatEntry : Type 0 where
  pub component : Bytes
  pub generation : ℕ

abbrev pub ulong_max : ℕ
ulong_max = 2 ^ 64 - 1

abbrev pub uint_max : ℕ
uint_max = 2 ^ 32 - 1

-- The digits of a `strtoul` in base ten, saturated at the largest value.
unfoldable pub digits_value : Bytes → ℕ → ℕ
digits_value [] n = n
digits_value (c ∷ s) n = digits_value s (min ulong_max (n * 10 + (c - b'0')))

-- `strtoul(text, &end, 10)` from the sign on, where the whole text has to be used; `none` is an
-- `end` that is not the text's.
unfoldable pub strtoul_digits : Bool → Bytes → Option ℕ
strtoul_digits negative [] = none
strtoul_digits negative (c ∷ s) = elim (drop_while is_digit (c ∷ s)) [
  | [] ↦
      (let n = digits_value (c ∷ s) 0 in
        some (if negative && ltb n ulong_max then (2 ^ 64 - n) % 2 ^ 64 else n))
  | d ∷ rest ↦ none
]

unfoldable pub strtoul_sign : Bytes → Option ℕ
unfolding strtoul_digits
strtoul_sign [] = none
strtoul_sign (c ∷ s) =
    if c == b'-'
    then strtoul_digits true s
    else if c == b'+'
    then strtoul_digits false s
    else strtoul_digits false (c ∷ s)

unfoldable pub strtoul_all : Bytes → Option ℕ
strtoul_all text = strtoul_sign (drop_while is_space text)

-- The generation field: no sign in front, all of it a number, and no more than an `unsigned int`.
unfoldable pub parse_generation : Bytes → Option ℕ
parse_generation [] = none
parse_generation (c ∷ s) =
    if ltb 16 (length (c ∷ s)) || c == b'-' || c == b'+' then none else elim (strtoul_all (c ∷ s)) [
      | none ↦ none
      | some gen ↦ if ltb uint_max gen then none else some gen
    ]

abbrev pub not_comma : ℕ → Bool
not_comma c = not (c == b',')

-- Behind the component: the comma and what follows it.
unfoldable pub parse_fields : Bytes → Bytes → Option SbatEntry
parse_fields component [] = none
parse_fields component (comma ∷ fields) =
    if length component == 0 || leb 64 (length component)
    then none
    else elim (parse_generation (take_while not_comma fields)) [
      | none ↦ none
      | some gen ↦ some (record { component = component; generation = gen })
    ]

-- One line; `none` is a `continue`.
unfoldable pub parse_sbat_line : Bytes → Option SbatEntry
parse_sbat_line line = parse_fields (take_while not_comma line) (drop_while not_comma line)

abbrev pub in_line : ℕ → Bool
in_line c = not (c == b'\n' || c == b'\r' || c == 0)

-- One newline or return behind a line is passed over, a NUL is not.
unfoldable pub skip_eol : Bytes → Bytes
skip_eol [] = []
skip_eol (c ∷ s) = if c == b'\n' || c == b'\r' then s else c ∷ s

-- What a line adds to the entries behind it.
abbrev pub add_entry : Option SbatEntry → List SbatEntry → List SbatEntry
add_entry none entries = entries
add_entry (some entry) entries = entry ∷ entries

abbrev pub add_found : Option SbatEntry → Option (List SbatEntry) → Option (List SbatEntry)
add_found found none = none
add_found found (some entries) = some (add_entry found entries)

abbrev pub left_after : Option SbatEntry → ℕ → ℕ
left_after none room = room
left_after (some entry) room = room - 1

-- The loop: `text` is what stands from the cursor on, `room` the entries that still fit. `none` is
-- fuel that ran out.
unfoldable pub sbat_from : ℕ → Bytes → ℕ → Option (List SbatEntry)
sbat_from zero text room = none
sbat_from (suc fuel) [] room = some []
sbat_from (suc fuel) (c ∷ s) room =
    if room == 0 || c == 0
    then some []
    else (let found = parse_sbat_line (take_while in_line (c ∷ s)) in
        let rest = sbat_from fuel (skip_eol (drop_while in_line (c ∷ s))) (left_after found room) in
        add_found found rest)

unfoldable pub parse_sbat_csv : Bytes → ℕ → Option (List SbatEntry)
unfolding sbat_from
parse_sbat_csv text max_entries = sbat_from (suc (length text)) text max_entries

-- The inner loop over the revocations: was there a match, and the strictest minimum.
unfoldable pub worst_revoked : SbatEntry → List SbatEntry → Bool → ℕ → Bool × ℕ
unfolding equal
worst_revoked installed [] any worst = (any, worst)
worst_revoked installed (r ∷ revoked) any worst = elim (equal installed.component r.component) [
  | true ↦
      worst_revoked installed revoked true (if ltb worst r.generation then r.generation else worst)
  | false ↦ worst_revoked installed revoked any worst
]

abbrev pub below_minimum : SbatEntry → Bool × ℕ → Bool
below_minimum installed (any, worst) = any && ltb installed.generation worst

-- The first installed entry that is below its revoked minimum.
unfoldable pub first_revoked : List SbatEntry → List SbatEntry → Option SbatEntry
unfolding worst_revoked
first_revoked [] revoked = none
first_revoked (e ∷ installed) revoked =
    if below_minimum e (worst_revoked e revoked false 0)
    then some e
    else first_revoked installed revoked

-- What `mokutil` prints of the revocations is read in the same form.
unfoldable pub parse_sbat_revocation_minimums : Bytes → ℕ → Option (List SbatEntry)
parse_sbat_revocation_minimums text max_entries = parse_sbat_csv text max_entries
