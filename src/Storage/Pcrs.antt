-- ===== src/Storage/Pcrs.antt =====
-- `luks_scan_pcrs` of src/storage_parsers.c: the PCRs that a TPM2 token of a LUKS header is bound
-- to, as a mask of 32 bits.
pub mod Mask
pub mod Fuel
use Prim.Native.Nat.{bit_or}
use bythos.Base.{
  ℕ, zero, suc, ◌+◌, ◌-◌, ◌*◌, ◌^◌, Bool, true, false, not, ◌&&◌, ◌||◌, Option, none, some, List,
  [], ◌∷◌, Bytes, codes, length, take, drop, ltb, leb, ◌==◌, if◌then◌else◌, is_digit, is_eol,
  not_eol, take_while, drop_while, starts_with, contains, strstr, strchr,
}

abbrev pub luks_pcr_window_bytes : ℕ
luks_pcr_window_bytes = 512

-- The number of a run of digits, of which the first three count.
unfoldable pub pcr_number : Bytes → ℕ → ℕ → ℕ
pcr_number [] n n_digits = n
pcr_number (c ∷ s) n n_digits = elim (ltb n_digits 3) [
  | true ↦ pcr_number s (n * 10 + (c - b'0')) (n_digits + 1)
  | false ↦ pcr_number s n n_digits
]

-- The mask with the numbers of the line's rest, and whether there was one below 32.
unfoldable pub scan_numbers : ℕ → Bytes → ℕ → Bool → ℕ × Bool
unfolding pcr_number
scan_numbers zero q mask found = (mask, found)
scan_numbers (suc fuel) [] mask found = (mask, found)
scan_numbers (suc fuel) (c ∷ s) mask found = elim (is_digit c) [
  | true ↦
      (let n = pcr_number (take_while is_digit (c ∷ s)) 0 0 in
        let rest = drop_while is_digit (c ∷ s) in
        elim (ltb n 32) [
          | true ↦ scan_numbers fuel rest (bit_or mask (2 ^ n)) true
          | false ↦ scan_numbers fuel rest mask found
        ])
  | false ↦ scan_numbers fuel s mask found
]

-- Behind "pcrs" in the line, where no dash follows; `next` is the byte behind the line.
unfoldable pub behind_pcrs : Bytes → ℕ → Option Bytes
behind_pcrs [] next = none
behind_pcrs (c ∷ s) next =
    let later = behind_pcrs s next in
    if starts_with (codes "pcrs") (c ∷ s)
    then elim (drop 4 (c ∷ s)) [
      | [] ↦ if next == b'-' then later else some []
      | d ∷ rest ↦ if d == b'-' then later else some (d ∷ rest)
    ]
    else later

-- A line of the right kind: the mask with the line's numbers, and whether there was one.
unfoldable pub scan_line : Bytes → ℕ → ℕ → ℕ × Bool
scan_line line next mask = elim (behind_pcrs line next) [
  | none ↦ (mask, false)
  | some rest ↦ elim (strchr rest b':') [
    | none ↦ (mask, false)
    | some colon ↦ scan_numbers (length colon) (drop 1 colon) mask false
  ]
]

abbrev pub first_or : ℕ → Bytes → ℕ
first_or other [] = other
first_or other (c ∷ s) = c

-- The loop over the lines of the window; `after` is the byte behind the window.
unfoldable pub scan_window : ℕ → Bytes → ℕ → Bool → ℕ → ℕ × Bool
unfolding scan_line
scan_window zero line after pubkey_line mask = (mask, false)
scan_window (suc fuel) [] after pubkey_line mask = (mask, false)
scan_window (suc fuel) (c ∷ s) after pubkey_line mask =
    let text = take_while not_eol (c ∷ s) in
    let behind = drop_while not_eol (c ∷ s) in
    let next = first_or after behind in
    let has_pubkey = contains text (codes "pubkey") in
    let same_kind = if has_pubkey then pubkey_line else not pubkey_line in
    let scanned = if same_kind then scan_line text next mask else (mask, false) in
    elim (scanned.1) [
      | true ↦ scanned
      | false ↦ scan_window fuel (drop 1 behind) after pubkey_line (scanned.0)
    ]

unfoldable pub luks_scan_pcrs : Bytes → Bool → ℕ × Bool
unfolding scan_window
luks_scan_pcrs text pubkey_line = elim (strstr text (codes "systemd-tpm2")) [
  | none ↦ (0, false)
  | some pos ↦
      scan_window (length pos) (take luks_pcr_window_bytes pos)
        (first_or 0 (drop luks_pcr_window_bytes pos)) pubkey_line 0
]

unfoldable pub parse_luks_pcr_mask : Bytes → ℕ × Bool
parse_luks_pcr_mask text = luks_scan_pcrs text false

unfoldable pub luks_signed_policy_pcr_mask : Bytes → ℕ × Bool
luks_signed_policy_pcr_mask text = luks_scan_pcrs text true
