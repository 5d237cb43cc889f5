-- ===== src/Storage/Pcrs/Fuel.antt =====
-- The loops of the scan come to their ends: more fuel than there are bytes changes nothing.
use bythos.Base.{
  ℕ, zero, suc, ◌^◌, ◌≤◌, ◌≡◌, refl, Bool, true, false, not, [], ◌∷◌, arith, Bytes, codes, length,
  drop, length-drop, ltb, if◌then◌else◌, is_digit, not_eol, take_while, drop_while,
  length-drop_while, contains, Bool-cases, inl, inr,
}
use bythos.Storage.Pcrs.{pcr_number, scan_numbers, scan_line, first_or, scan_window}
use Prim.Native.Nat.{bit_or}

behind_digits :
    (c : ℕ) (s : Bytes) → is_digit c ≡ true → length (drop_while is_digit (c ∷ s)) ≤ length s
unfolding drop_while
behind_digits c s h = rw (h, drop_while) (length-drop_while is_digit s)

pub scan_numbers_enough :
    (f g : ℕ) (q : Bytes) (mask : ℕ) (found : Bool)
    → length q ≤ f
    → length q ≤ g
    → scan_numbers f q mask found ≡ scan_numbers g q mask found
unfolding scan_numbers
scan_numbers_enough zero zero q mask found hf hg = refl
scan_numbers_enough zero (suc g) [] mask found hf hg = refl
scan_numbers_enough (suc f) zero [] mask found hf hg = refl
scan_numbers_enough (suc f) (suc g) [] mask found hf hg = refl
scan_numbers_enough zero (suc g) (c ∷ s) mask found hf hg = absurd (omega arith)
scan_numbers_enough (suc f) zero (c ∷ s) mask found hf hg = absurd (omega arith)
scan_numbers_enough (suc f) (suc g) (c ∷ s) mask found hf hg =
    let n = pcr_number (take_while is_digit (c ∷ s)) 0 0 in
    let rest = drop_while is_digit (c ∷ s) in
    elim (Bool-cases (is_digit c)) [
      | inr other ↦
          rw (other, scan_numbers)
            (scan_numbers_enough f g s mask found (omega arith) (omega arith))
      | inl digit ↦
          let shorter : length rest ≤ length s = behind_digits c s digit in
          elim (Bool-cases (ltb n 32)) [
            | inl small ↦
                rw (digit, small, scan_numbers)
                  (scan_numbers_enough f g rest (bit_or mask (2 ^ n)) true (omega arith)
                    (omega arith))
            | inr large ↦
                rw (digit, large, scan_numbers)
                  (scan_numbers_enough f g rest mask found (omega arith) (omega arith))
          ]
    ]

behind_line : (c : ℕ) (s : Bytes) → length (drop 1 (drop_while not_eol (c ∷ s))) ≤ length s
behind_line c s =
    omega (arith, length-drop 1 (drop_while not_eol (c ∷ s)), length-drop_while not_eol (c ∷ s))

-- Fuel of at least the bytes that are left gives the scan of all lines of the window.
pub scan_window_enough :
    (f g : ℕ) (line : Bytes) (after : ℕ) (pubkey_line : Bool) (mask : ℕ)
    → length line ≤ f
    → length line ≤ g
    → scan_window f line after pubkey_line mask ≡ scan_window g line after pubkey_line mask
unfolding scan_window
scan_window_enough zero zero line after pubkey_line mask hf hg = refl
scan_window_enough zero (suc g) [] after pubkey_line mask hf hg = refl
scan_window_enough (suc f) zero [] after pubkey_line mask hf hg = refl
scan_window_enough (suc f) (suc g) [] after pubkey_line mask hf hg = refl
scan_window_enough zero (suc g) (c ∷ s) after pubkey_line mask hf hg = absurd (omega arith)
scan_window_enough (suc f) zero (c ∷ s) after pubkey_line mask hf hg = absurd (omega arith)
scan_window_enough (suc f) (suc g) (c ∷ s) after pubkey_line mask hf hg =
    let text = take_while not_eol (c ∷ s) in
    let behind = drop_while not_eol (c ∷ s) in
    let same_kind = if contains text (codes "pubkey") then pubkey_line else not pubkey_line in
    let scanned =
      if same_kind then scan_line text (first_or after behind) mask else (mask, false) in
    let shorter : length (drop 1 behind) ≤ length s = behind_line c s in
    elim (Bool-cases (scanned.1)) [
      | inl found ↦ rw (found, scan_window) refl
      | inr missed ↦
          rw (missed, scan_window)
            (scan_window_enough f g (drop 1 behind) after pubkey_line (scanned.0) (omega arith)
              (omega arith))
    ]
