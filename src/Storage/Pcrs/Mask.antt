-- ===== src/Storage/Pcrs/Mask.antt =====
-- The mask of PCRs: 32 bits, and not 0 exactly where the scan says that it found one.
use Prim.Native.Nat.{bit_or}
use native.Mathlib.Nat.{pow-suc, zero-add, suc-add}
use bythos.Base.{
  ℕ, zero, suc, ◌+◌, ◌-◌, ◌/◌, ◌^◌, ◌≤◌, ◌<◌, ◌≡◌, ◌≢◌, ◌↔◌, refl, ap, Bool, true, false, not, [],
  ◌∷◌, arith, Bytes, codes, length, take, drop, ltb, if◌then◌else◌, is_digit, take_while,
  drop_while, not_eol, contains, strstr, strchr, bit_or_step, bit_or_zero, Bool-cases, Option-cases,
  inl, inr,
}
use bythos.Storage.Pcrs.{
  luks_pcr_window_bytes, pcr_number, scan_numbers, behind_pcrs, scan_line, first_or, scan_window,
  luks_scan_pcrs,
}

bit_or-lt : (k a b : ℕ) → a < 2 ^ k → b < 2 ^ k → bit_or a b < 2 ^ k
bit_or-lt zero zero b ha hb = omega (arith, bit_or_zero b)
bit_or-lt zero (suc a) b ha hb = absurd (omega arith)
bit_or-lt (suc k) a b ha hb = omega (
  arith,
  bit_or_step a b,
  pow-suc 2 k,
  bit_or-lt k (a / 2) (b / 2) (omega (arith, pow-suc 2 k)) (omega (arith, pow-suc 2 k)),
)

le-bit_or : (k a b : ℕ) → a < 2 ^ k → b < 2 ^ k → b ≤ bit_or a b
le-bit_or zero a b ha hb = omega arith
le-bit_or (suc k) a b ha hb = omega (
  arith,
  bit_or_step a b,
  le-bit_or k (a / 2) (b / 2) (omega (arith, pow-suc 2 k)) (omega (arith, pow-suc 2 k)),
)

one-le-pow : (n : ℕ) → 1 ≤ 2 ^ n
one-le-pow zero = omega arith
one-le-pow (suc n) = omega (arith, pow-suc 2 n, one-le-pow n)

pow-le-pow : (n d : ℕ) → 2 ^ n ≤ 2 ^ (d + n)
pow-le-pow n zero = rw (zero-add n) (omega arith)
pow-le-pow n (suc d) = rw (suc-add d n) (omega (arith, pow-suc 2 (d + n), pow-le-pow n d))

pow-lt : (n : ℕ) → n < 32 → 2 ^ n < 2 ^ 32
pow-lt n h =
    let top : (31 - n) + n ≡ 31 = omega arith in
    omega (arith, pow-le-pow n (31 - n), ap (λ k. 2 ^ k) top)

-- A mask of 32 bits, with a bit set exactly where one was found.
abbrev pub IsMask : ℕ × Bool → Type 0
IsMask (mask, found) = (mask < 2 ^ 32) × ((found ≡ true) ↔ (mask ≢ 0))

set-IsMask :
    (mask n : ℕ) (found : Bool) → IsMask (mask, found) → n < 32 → IsMask (bit_or mask (2 ^ n), true)
set-IsMask mask n found (hm, _) hn =
    let small = pow-lt n hn in
    let least : 2 ^ n ≤ bit_or mask (2 ^ n) = le-bit_or 32 mask (2 ^ n) hm small in
    (bit_or-lt 32 mask (2 ^ n) hm small, (λ _ e. absurd (omega (arith, one-le-pow n)), λ _. refl))

-- Between two lines or numbers: a bit is found exactly where the mask is not 0.
scan_numbers-IsMask :
    (fuel : ℕ) (q : Bytes) (mask : ℕ) (found : Bool)
    → IsMask (mask, found)
    → IsMask (scan_numbers fuel q mask found)
unfolding scan_numbers
scan_numbers-IsMask zero q mask found h = h
scan_numbers-IsMask (suc fuel) [] mask found h = h
scan_numbers-IsMask (suc fuel) (c ∷ s) mask found h =
    let n = pcr_number (take_while is_digit (c ∷ s)) 0 0 in
    let rest = drop_while is_digit (c ∷ s) in
    elim (Bool-cases (is_digit c)) [
      | inr other ↦ rw (other, scan_numbers) (scan_numbers-IsMask fuel s mask found h)
      | inl digit ↦ elim (Bool-cases (ltb n 32)) [
        | inr large ↦ rw (digit, large, scan_numbers) (scan_numbers-IsMask fuel rest mask found h)
        | inl small ↦
            rw (digit, small, scan_numbers)
              (scan_numbers-IsMask fuel rest (bit_or mask (2 ^ n)) true
                (set-IsMask mask n found h (ground arith)))
      ]
    ]

scan_line-IsMask :
    (line : Bytes) (next mask : ℕ) → IsMask (mask, false) → IsMask (scan_line line next mask)
unfolding scan_line
scan_line-IsMask line next mask h = elim (Option-cases (behind_pcrs line next)) [
  | inl nothing ↦ rw (nothing, scan_line) h
  | inr (rest, eq) ↦ elim (Option-cases (strchr rest b':')) [
    | inl nothing ↦ rw (eq, nothing, scan_line) h
    | inr (colon, at_colon) ↦
        rw (eq, at_colon, scan_line)
          (scan_numbers-IsMask (length colon) (drop 1 colon) mask false h)
  ]
]

-- A line of the window: scanned if it is of the right kind.
scanned-IsMask :
    (same_kind : Bool) (line : Bytes) (next mask : ℕ)
    → IsMask (mask, false)
    → IsMask (if same_kind then scan_line line next mask else (mask, false))
scanned-IsMask true line next mask h = scan_line-IsMask line next mask h
scanned-IsMask false line next mask h = h

scan_window-IsMask :
    (fuel : ℕ) (line : Bytes) (after : ℕ) (pubkey_line : Bool) (mask : ℕ)
    → IsMask (mask, false)
    → IsMask (scan_window fuel line after pubkey_line mask)
unfolding scan_window
scan_window-IsMask zero line after pubkey_line mask h = h
scan_window-IsMask (suc fuel) [] after pubkey_line mask h = h
scan_window-IsMask (suc fuel) (c ∷ s) after pubkey_line mask h =
    let text = take_while not_eol (c ∷ s) in
    let behind = drop_while not_eol (c ∷ s) in
    let next = first_or after behind in
    let same_kind = if contains text (codes "pubkey") then pubkey_line else not pubkey_line in
    let scanned = if same_kind then scan_line text next mask else (mask, false) in
    let kept = scanned-IsMask same_kind text next mask h in
    elim (Bool-cases (scanned.1)) [
      | inl found ↦ rw (found, scan_window) kept
      | inr missed ↦
          rw (missed, scan_window)
            (scan_window-IsMask fuel (drop 1 behind) after pubkey_line (scanned.0)
              (rw missed at kept))
    ]

-- For any dump of a header, the mask has 32 bits, and the scan says that it found a PCR exactly
-- where the mask is not 0.
pub luks_scan_pcrs-IsMask :
    (text : Bytes) (pubkey_line : Bool) → IsMask (luks_scan_pcrs text pubkey_line)
unfolding luks_scan_pcrs
luks_scan_pcrs-IsMask text pubkey_line = elim (Option-cases (strstr text (codes "systemd-tpm2"))) [
  | inl nothing ↦ rw (nothing, luks_scan_pcrs) (omega arith, ground arith)
  | inr (pos, eq) ↦
      rw (eq, luks_scan_pcrs)
        (scan_window-IsMask (length pos) (take luks_pcr_window_bytes pos)
          (first_or 0 (drop luks_pcr_window_bytes pos)) pubkey_line 0 (omega arith, ground arith))
]
