-- ===== src/Firmware/Sbat/Rows.antt =====
-- Rows of SBAT data: a component, its generation and whatever follows them.
use bythos.Base.{
  ℕ, zero, suc, ◌+◌, ◌-◌, ◌*◌, ◌≤◌, ◌<◌, ◌≡◌, refl, sym, ap, ◌∙◌, true, false, ◌||◌, min, some,
  List, [], ◌∷◌, ◌++◌, map, length-append, append-nil, arith, Bytes, All, length, leb, ◌==◌,
  is_digit, is_space, take_while, drop_while, take_while-All, drop_while-All,
}
use bythos.Firmware.Sbat.{
  SbatEntry, ulong_max, uint_max, digits_value, strtoul_digits, strtoul_sign, strtoul_all,
  parse_generation, parse_fields, parse_sbat_line, not_comma, in_line, skip_eol, sbat_from,
  parse_sbat_csv,
}

abbrev pub IsDigit : ℕ → Type 0
IsDigit c = is_digit c ≡ true

-- The number that digits spell, with no bound.
abbrev pub value : Bytes → ℕ → ℕ
value [] n = n
value (c ∷ s) n = value s (n * 10 + (c - b'0'))

le-value : (s : Bytes) (n : ℕ) → n ≤ value s n
le-value [] n = omega arith
le-value (c ∷ s) n = omega (arith, le-value s (n * 10 + (c - b'0')))

digits_value-value : (s : Bytes) (n : ℕ) → value s n ≤ ulong_max → digits_value s n ≡ value s n
unfolding digits_value
digits_value-value [] n h = refl
digits_value-value (c ∷ s) n h =
    let m = n * 10 + (c - b'0') in
    let small : min ulong_max m ≡ m = omega (arith, le-value s m) in
    rw small (digits_value-value s m h)

drop_while-nil : drop_while is_digit [] ≡ []
unfolding drop_while
drop_while-nil = refl

strtoul_digits-value :
    (c : ℕ) (s : Bytes)
    → All IsDigit (c ∷ s)
    → value (c ∷ s) 0 ≤ ulong_max
    → strtoul_digits false (c ∷ s) ≡ some (value (c ∷ s) 0)
unfolding strtoul_digits
strtoul_digits-value c s h bound =
    let used : drop_while is_digit (c ∷ s) ≡ [] =
      ap (drop_while is_digit) (sym (append-nil (c ∷ s)))
      ∙ drop_while-All is_digit (c ∷ s) [] h
      ∙ drop_while-nil in
    rw (used, strtoul_digits) (ground (arith, digits_value-value (c ∷ s) 0 bound))

strtoul_all-value :
    (c : ℕ) (s : Bytes)
    → All IsDigit (c ∷ s)
    → value (c ∷ s) 0 ≤ ulong_max
    → strtoul_all (c ∷ s) ≡ some (value (c ∷ s) 0)
unfolding strtoul_all strtoul_sign drop_while is_space is_digit
strtoul_all-value c s (h, hs) bound = ground (arith, strtoul_digits-value c s (h, hs) bound)

parse_generation-value :
    (s : Bytes)
    → 0 < length s
    → length s ≤ 16
    → All IsDigit s
    → value s 0 ≤ uint_max
    → parse_generation s ≡ some (value s 0)
unfolding parse_generation is_digit
parse_generation-value [] pos fits h bound = absurd (omega arith)
parse_generation-value (c ∷ s) pos fits (h, hs) bound =
    ground (arith, strtoul_all-value c s (h, hs) (omega arith))

abbrev pub IsNotComma : ℕ → Type 0
IsNotComma c = not_comma c ≡ true

abbrev pub IsInLine : ℕ → Type 0
IsInLine c = in_line c ≡ true

-- A row: its component, the digits of its generation, and what follows them.
pub record Row : Type 0 where
  pub component : Bytes
  pub digits : Bytes
  pub others : Bytes

abbrev pub row_line : Row → Bytes
row_line r = r.component ++ b',' ∷ (r.digits ++ r.others)

abbrev pub row_entry : Row → SbatEntry
row_entry r = record { component = r.component; generation = value r.digits 0 }

-- The other fields are none, or stand behind a comma.
pub record IsRow (r : Row) : Type 0 where
  pub named : 0 < length r.component
  pub name_fits : length r.component < 64
  pub name_plain : All IsNotComma r.component
  pub digits_some : 0 < length r.digits
  pub digits_fit : length r.digits ≤ 16
  pub digits_plain : All IsDigit r.digits
  pub generation_fits : value r.digits 0 ≤ uint_max
  pub others_apart : take_while not_comma r.others ≡ []
  pub in_one_line : All IsInLine (row_line r)

digits-IsNotComma : (s : Bytes) → All IsDigit s → All IsNotComma s
unfolding is_digit
digits-IsNotComma [] h = tt
digits-IsNotComma (c ∷ s) (h, hs) = (ground arith, digits-IsNotComma s hs)

take_while-comma : (s : Bytes) → take_while not_comma (b',' ∷ s) ≡ []
unfolding take_while
take_while-comma s = refl

drop_while-comma : (s : Bytes) → drop_while not_comma (b',' ∷ s) ≡ b',' ∷ s
unfolding drop_while
drop_while-comma s = refl

parse_sbat_line-row : (r : Row) → IsRow r → parse_sbat_line (row_line r) ≡ some (row_entry r)
unfolding parse_sbat_line parse_fields
parse_sbat_line-row r h =
    let fields = r.digits ++ r.others in
    let name : take_while not_comma (row_line r) ≡ r.component =
      take_while-All not_comma r.component (b',' ∷ fields) h.name_plain
      ∙ ap (λ t. r.component ++ t) (take_while-comma fields)
      ∙ append-nil r.component in
    let behind : drop_while not_comma (row_line r) ≡ b',' ∷ fields =
      drop_while-All not_comma r.component (b',' ∷ fields) h.name_plain ∙ drop_while-comma fields in
    let number : take_while not_comma fields ≡ r.digits =
      take_while-All not_comma r.digits r.others (digits-IsNotComma r.digits h.digits_plain)
      ∙ ap (λ t. r.digits ++ t) h.others_apart
      ∙ append-nil r.digits in
    let generation =
      parse_generation-value r.digits h.digits_some h.digits_fit h.digits_plain h.generation_fits in
    let sized : (length r.component == 0 || leb 64 (length r.component)) ≡ false =
      ground (arith, h.named, h.name_fits) in
    rw (name, behind, number, generation, sized)

-- Rows one to a line.
abbrev pub print_rows : List Row → Bytes
print_rows [] = []
print_rows (r ∷ rs) = row_line r ++ b'\n' ∷ print_rows rs

end_of_row :
    (s : Bytes)
    → (take_while in_line (b'\n' ∷ s) ≡ []) × (skip_eol (drop_while in_line (b'\n' ∷ s)) ≡ s)
unfolding take_while drop_while skip_eol
end_of_row s = (refl, refl)

sbat_from_step :
    (fuel : ℕ) (line rest : Bytes) (e : SbatEntry) (room : ℕ) {es : List SbatEntry}
    → 0 < length line
    → All IsInLine line
    → parse_sbat_line line ≡ some e
    → sbat_from fuel rest room ≡ some es
    → sbat_from (suc fuel) (line ++ b'\n' ∷ rest) (suc room) ≡ some (e ∷ es)
unfolding sbat_from
sbat_from_step fuel [] rest e room pos h p ih = absurd (omega arith)
sbat_from_step fuel (c ∷ line) rest e room pos h p ih =
    let (ended, skipped) = end_of_row rest in
    let this : take_while in_line ((c ∷ line) ++ b'\n' ∷ rest) ≡ c ∷ line =
      take_while-All in_line (c ∷ line) (b'\n' ∷ rest) h
      ∙ ap (λ t. (c ∷ line) ++ t) ended
      ∙ append-nil (c ∷ line) in
    let next : skip_eol (drop_while in_line ((c ∷ line) ++ b'\n' ∷ rest)) ≡ rest =
      ap skip_eol (drop_while-All in_line (c ∷ line) (b'\n' ∷ rest) h) ∙ skipped in
    let go_on : (suc room == 0 || c == 0) ≡ false = ground arith in
    let left : suc room - 1 ≡ room = omega arith in
    let found = ap parse_sbat_line this ∙ p in rw (go_on, found) (rw (next, left, ih))

length-row_line :
    (r : Row) → length (row_line r) ≡ length r.component + 1 + length (r.digits ++ r.others)
length-row_line r = omega (arith, length-append r.component (b',' ∷ (r.digits ++ r.others)))

sbat_from-print_rows :
    (rows : List Row) (fuel room : ℕ)
    → All IsRow rows
    → length rows ≤ room
    → length (print_rows rows) < fuel
    → sbat_from fuel (print_rows rows) room ≡ some (map row_entry rows)
unfolding sbat_from
sbat_from-print_rows [] zero room h fits enough = absurd (omega arith)
sbat_from-print_rows [] (suc fuel) room h fits enough = refl
sbat_from-print_rows (r ∷ rows) zero room h fits enough = absurd (omega arith)
sbat_from-print_rows (r ∷ rows) (suc fuel) zero h fits enough = absurd (omega arith)
sbat_from-print_rows (r ∷ rows) (suc fuel) (suc room) (h, hs) fits enough =
    sbat_from_step fuel (row_line r) (print_rows rows) (row_entry r) room
      (omega (arith, length-row_line r)) h.in_one_line (parse_sbat_line-row r h)
      (sbat_from-print_rows rows fuel room hs (omega arith)
        (omega (arith, length-append (row_line r) (b'\n' ∷ print_rows rows))))

-- Rows one to a line are read back as their components and generations, if there is room for them.
pub parse_sbat_csv-print_rows :
    (rows : List Row) (max_entries : ℕ)
    → All IsRow rows
    → length rows ≤ max_entries
    → parse_sbat_csv (print_rows rows) max_entries ≡ some (map row_entry rows)
unfolding parse_sbat_csv
parse_sbat_csv-print_rows rows max_entries h fits =
    sbat_from-print_rows rows (suc (length (print_rows rows))) max_entries h fits (omega arith)
