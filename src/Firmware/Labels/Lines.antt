-- ===== src/Firmware/Labels/Lines.antt =====
-- The count of the lines that are not blank, against the text split at every end of line.
use bythos.Base.{
  ℕ, ◌+◌, ◌≡◌, refl, Bool, true, false, not, List, [], ◌∷◌, arith, Bytes, if◌then◌else◌, is_blank,
  is_eol, Bool-cases, inl, inr,
}
use bythos.Firmware.Labels.{add_line, count_from, count_nonempty_lines}

abbrev pub onto_first : ℕ → List Bytes → List Bytes
onto_first c [] = (c ∷ []) ∷ []
onto_first c (l ∷ ls) = (c ∷ l) ∷ ls

-- The text split at each single carriage return or newline.
unfoldable pub split_lines : Bytes → List Bytes
split_lines [] = [] ∷ []
split_lines (c ∷ s) = let rest = split_lines s in if is_eol c then [] ∷ rest else onto_first c rest

-- Is there a byte that is no space and no tab?
abbrev pub has_text : Bytes → Bool
has_text [] = false
has_text (c ∷ s) = if is_blank c then has_text s else true

-- How many of the lines have text, where the first counts in any case if it is `begun`.
abbrev pub with_text : Bool → List Bytes → ℕ
with_text begun [] = 0
with_text begun (l ∷ ls) = (if begun then 1 else if has_text l then 1 else 0) + with_text false ls

split_lines-cons : (s : Bytes) → (l : Bytes) × (ls : List Bytes) × (split_lines s ≡ l ∷ ls)
unfolding split_lines
split_lines-cons [] = ([], [], refl)
split_lines-cons (c ∷ s) =
    let (l, ls, eq) = split_lines-cons s in
    elim (Bool-cases (is_eol c)) [
      | inl ends ↦ ([], split_lines s, rw ends refl)
      | inr inside ↦ (c ∷ l, ls, rw (inside, eq) refl)
    ]

with_text-onto_first :
    (c : ℕ) (s : Bytes) (begun : Bool)
    → with_text begun (onto_first c (split_lines s))
      ≡ with_text (if not (is_blank c) then true else begun) (split_lines s)
with_text-onto_first c s begun = let (l, ls, eq) = split_lines-cons s in rw eq (ground arith)

count_from-with_text :
    (s : Bytes) (begun : Bool) (count : ℕ)
    → count_from s begun count ≡ count + with_text begun (split_lines s)
unfolding count_from split_lines
count_from-with_text [] begun count = ground arith
count_from-with_text (c ∷ s) begun count = ground (
  arith,
  count_from-with_text s false (add_line begun count),
  count_from-with_text s (if not (is_blank c) then true else begun) count,
  with_text-onto_first c s begun,
)

-- The count is that of the lines with a byte that is no space and no tab, where a text is split at
-- each single end of line.
pub count_nonempty_lines-split_lines :
    (text : Bytes) → count_nonempty_lines text ≡ with_text false (split_lines text)
unfolding count_nonempty_lines
count_nonempty_lines-split_lines text = omega (arith, count_from-with_text text false 0)
