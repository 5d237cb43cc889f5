-- ===== src/Storage/Names.antt =====
-- The names of known vendors without regard to case, and the lines of sha256sum.
use bythos.Base.{
  ℕ, ◌-◌, ◌<◌, ◌≡◌, refl, ap, ◌∙◌, min, true, some, List, [], ◌∷◌, ◌++◌, map, arith, Bytes, All,
  length, take, take_prefix, take_all, to_lower, is_blank,
}
use bythos.Storage.{
  name_lower_eq, known_vendors, is_among, esp_is_known_vendor, is_hex_digit, skip_hex,
  parse_sha256sum_line,
}

abbrev head_or_zero : Bytes → ℕ
head_or_zero [] = 0
head_or_zero (c ∷ s) = c

abbrev tail : Bytes → Bytes
tail [] = []
tail (c ∷ s) = s

name_lower_eq-lower :
    (a b name : Bytes)
    → map to_lower a ≡ map to_lower b
    → name_lower_eq a name ≡ name_lower_eq b name
unfolding name_lower_eq
name_lower_eq-lower [] [] name h = refl
name_lower_eq-lower [] (y ∷ b) name h = absurd (omega (arith, ap length h))
name_lower_eq-lower (x ∷ a) [] name h = absurd (omega (arith, ap length h))
name_lower_eq-lower (x ∷ a) (y ∷ b) [] h = refl
name_lower_eq-lower (x ∷ a) (y ∷ b) (c ∷ name) h =
    rw (ap head_or_zero h, name_lower_eq-lower a b name (ap tail h)) refl

is_among-lower :
    (a b : Bytes) (known : List Bytes)
    → map to_lower a ≡ map to_lower b
    → is_among a known ≡ is_among b known
unfolding is_among
is_among-lower a b [] h = refl
is_among-lower a b (k ∷ known) h = rw (name_lower_eq-lower a b k h, is_among-lower a b known h) refl

-- Names that differ only in the case of their letters are known vendors' alike.
pub esp_is_known_vendor-lower :
    (a b : Bytes) → map to_lower a ≡ map to_lower b → esp_is_known_vendor a ≡ esp_is_known_vendor b
unfolding esp_is_known_vendor
esp_is_known_vendor-lower a b h = is_among-lower a b known_vendors h

skip_hex-digits :
    (digits rest : Bytes)
    → All (λ c. is_hex_digit c ≡ true) digits
    → skip_hex (length digits) (digits ++ rest) ≡ (0, rest)
unfolding skip_hex
skip_hex-digits [] rest h = refl
skip_hex-digits (c ∷ digits) rest (hc, hs) = rw (hc, skip_hex) (skip_hex-digits digits rest hs)

-- A line of 64 digits in base sixteen, a space or tab, and a file name gives the digits, if the
-- buffer has room for them and a NUL.
pub parse_sha256sum_line-digits :
    (digits : Bytes) (blank : ℕ) (file : Bytes) (size : ℕ)
    → length digits ≡ 64
    → All (λ c. is_hex_digit c ≡ true) digits
    → is_blank blank ≡ true
    → 64 < size
    → parse_sha256sum_line (digits ++ blank ∷ file) size ≡ some digits
unfolding parse_sha256sum_line
parse_sha256sum_line-digits digits blank file size hl h hb hs =
    let text = digits ++ blank ∷ file in
    let read : skip_hex 64 text ≡ (0, blank ∷ file) =
      rw hl at (skip_hex-digits digits (blank ∷ file) h) in
    let least : min 64 (size - 1) ≡ 64 = omega arith in
    let kept : take 64 text ≡ digits =
      take_prefix 64 digits (blank ∷ file) (omega arith) ∙ take_all 64 digits (omega arith) in
    rw (read, hb, least, kept, parse_sha256sum_line) (ground arith)
