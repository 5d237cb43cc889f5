-- ===== src/Base/Text.antt =====
-- The functions of <string.h> and <ctype.h> that the program calls, in the C locale, on C strings.
use Prim.Native.Nat.{ℕ, ◌+◌, ◌-◌}
use mathlib.Core.Path.{◌≡◌, refl, ap}
use mathlib.Core.Bool.{Bool, true, false, ◌&&◌, ◌||◌}
use mathlib.Core.List.{[], ◌∷◌, ◌++◌}
use mathlib.Core.Option.{Option, none, some}
use native.Mathlib.Omega.{arith}
use bythos.Base.Tests.{leb, ◌==◌, if◌then◌else◌}
use bythos.Base.Lists.{Bytes, All, take}

abbrev pub within : ℕ → ℕ → ℕ → Bool
within lo hi c = leb lo c && leb c hi

unfoldable pub is_space : ℕ → Bool
is_space c = c == b' ' || within 9 13 c

unfoldable pub is_digit : ℕ → Bool
is_digit c = within b'0' b'9' c

unfoldable pub is_alnum : ℕ → Bool
is_alnum c = within b'0' b'9' c || within b'a' b'z' c || within b'A' b'Z' c

-- The blank of the hand-written scanners: space and tab.
unfoldable pub is_blank : ℕ → Bool
is_blank c = c == b' ' || c == b'\t'

unfoldable pub is_eol : ℕ → Bool
is_eol c = c == b'\r' || c == b'\n'

unfoldable pub to_lower : ℕ → ℕ
to_lower c = if within b'A' b'Z' c then c + 32 else c

-- `strncmp(s, p, strlen(p)) == 0`
unfoldable pub starts_with : Bytes → Bytes → Bool
starts_with [] s = true
starts_with (c ∷ p) [] = false
starts_with (c ∷ p) (d ∷ s) = c == d && starts_with p s

-- `strcmp(a, b) == 0`
unfoldable pub equal : Bytes → Bytes → Bool
equal [] [] = true
equal (x ∷ xs) (y ∷ ys) = x == y && equal xs ys
equal _ _ = false

-- `strstr`: the text from the first occurrence on.
unfoldable pub strstr : Bytes → Bytes → Option Bytes
unfolding starts_with
strstr [] needle = if starts_with needle [] then some [] else none
strstr (c ∷ s) needle = if starts_with needle (c ∷ s) then some (c ∷ s) else strstr s needle

unfoldable pub contains : Bytes → Bytes → Bool
unfolding strstr
contains s needle = elim (strstr s needle) [ none ↦ false | some _ ↦ true ]

-- `strchr` for a byte that is not NUL: the text from the first such byte on.
unfoldable pub strchr : Bytes → ℕ → Option Bytes
strchr [] c = none
strchr (d ∷ s) c = if d == c then some (d ∷ s) else strchr s c

-- The longest prefix whose bytes pass the test, and the rest.
unfoldable pub take_while : (ℕ → Bool) → Bytes → Bytes
take_while p [] = []
take_while p (c ∷ s) = if p c then c ∷ take_while p s else []

unfoldable pub drop_while : (ℕ → Bool) → Bytes → Bytes
drop_while p [] = []
drop_while p (c ∷ s) = if p c then drop_while p s else c ∷ s

-- What `snprintf(buffer, size, "%s", text)` leaves in the buffer, for a positive size.
abbrev pub fit : ℕ → Bytes → Bytes
fit size s = take (size - 1) s

module _ (p : ℕ → Bool) where
  pub take_while-append-drop_while : (s : Bytes) → take_while p s ++ drop_while p s ≡ s
  unfolding take_while drop_while
  take_while-append-drop_while [] = refl
  take_while-append-drop_while (c ∷ s) = ground (arith, take_while-append-drop_while s)

  pub All-take_while : (s : Bytes) → All (λ c. p c ≡ true) (take_while p s)
  unfolding take_while
  All-take_while [] = tt
  All-take_while (c ∷ s) = ground (arith, All-take_while s)

  pub take_while-All :
      (s rest : Bytes) → All (λ c. p c ≡ true) s → take_while p (s ++ rest) ≡ s ++ take_while p rest
  unfolding take_while
  take_while-All [] rest h = refl
  take_while-All (c ∷ s) rest (hc, hs) = rw hc (ap (◌∷◌ c) (take_while-All s rest hs))

  pub drop_while-All :
      (s rest : Bytes) → All (λ c. p c ≡ true) s → drop_while p (s ++ rest) ≡ drop_while p rest
  unfolding drop_while
  drop_while-All [] rest h = refl
  drop_while-All (c ∷ s) rest (hc, hs) = rw hc (drop_while-All s rest hs)

pub equal_sound : (a b : Bytes) → equal a b ≡ true → a ≡ b
unfolding equal
equal_sound [] [] h = refl
equal_sound (x ∷ a) (y ∷ b) h = ground (arith, equal_sound a b)
equal_sound [] (y ∷ b) h = ground arith
equal_sound (x ∷ a) [] h = ground arith

pub equal_refl : (a : Bytes) → equal a a ≡ true
unfolding equal
equal_refl [] = refl
equal_refl (x ∷ a) = ground (arith, equal_refl a)
