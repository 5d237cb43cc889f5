-- ===== src/Base/Scan.antt =====
-- Scanners that many parsers are written with: the loop over the lines of a text, the trimming of
-- spaces, and pointers into a string, each the text from there on.
use Prim.Native.Nat.{ℕ, zero, suc, ◌+◌, ◌-◌, ◌/◌, ◌%◌, ◌≤◌}
use mathlib.Core.Path.{◌≡◌, refl, ap}
use mathlib.Core.Bool.{Bool, not}
use mathlib.Core.List.{List, [], ◌∷◌, ◌++◌}
use mathlib.Core.Option.{Option, none, some}
use native.Mathlib.Omega.{arith}
use bythos.Base.Tests.{ltb, if◌then◌else◌}
use bythos.Base.Lists.{Bytes, length, take}
use bythos.Base.Text.{is_space, is_eol, take_while, drop_while, strstr, strchr}

abbrev pub not_eol : ℕ → Bool
not_eol c = not (is_eol c)

-- The loop `while (*cursor != '\0')` whose step takes `strcspn(cursor, "\r\n")` bytes and passes
-- over the ends of line behind them.
unfoldable pub lines_from : ℕ → Bytes → List Bytes
lines_from zero text = []
lines_from (suc fuel) [] = []
lines_from (suc fuel) (c ∷ s) =
    take_while not_eol (c ∷ s) ∷ lines_from fuel (drop_while is_eol (drop_while not_eol (c ∷ s)))

unfoldable pub lines : Bytes → List Bytes
unfolding lines_from
lines text = lines_from (length text) text

-- A byte in front of a text whose spaces at the end are gone.
abbrev pub before_trimmed : ℕ → Bytes → Bytes
before_trimmed c [] = if is_space c then [] else c ∷ []
before_trimmed c (d ∷ s) = c ∷ d ∷ s

unfoldable pub trim_end : Bytes → Bytes
unfolding is_space
trim_end [] = []
trim_end (c ∷ s) = before_trimmed c (trim_end s)

unfoldable pub trim : Bytes → Bytes
unfolding trim_end drop_while
trim text = trim_end (drop_while is_space text)

-- `p < bound`, for pointers into one string.
abbrev pub is_before : Bytes → Bytes → Bool
is_before p bound = ltb (length bound) (length p)

-- The bytes from `p` up to `end`.
abbrev pub span : Bytes → Bytes → Bytes
span p end = take (length p - length end) p

-- A number in decimal, by `%zu`, with fuel for its digits.
unfoldable pub decimal_from : ℕ → ℕ → Bytes
decimal_from zero n = []
decimal_from (suc fuel) n =
    let rest = decimal_from fuel (n / 10) in
    let digit = b'0' + n % 10 in if ltb n 10 then digit ∷ [] else rest ++ digit ∷ []

unfoldable pub decimal : ℕ → Bytes
decimal n = decimal_from (suc n) n

pub length-drop_while : (p : ℕ → Bool) (s : Bytes) → length (drop_while p s) ≤ length s
unfolding drop_while
length-drop_while p [] = omega arith
length-drop_while p (c ∷ s) = ground (arith, length-drop_while p s)

-- The bytes of a list of lines, one line behind the other.
abbrev pub concat : List Bytes → Bytes
concat [] = []
concat (l ∷ ls) = l ++ concat ls

-- The bytes that are in no end of line.
unfoldable pub line_bytes : Bytes → Bytes
unfolding is_eol
line_bytes [] = []
line_bytes (c ∷ s) = let rest = line_bytes s in if not_eol c then c ∷ rest else rest

line_bytes-rest :
    (s : Bytes) → take_while not_eol s ++ line_bytes (drop_while not_eol s) ≡ line_bytes s
unfolding line_bytes take_while drop_while
line_bytes-rest [] = refl
line_bytes-rest (c ∷ s) = ground (arith, line_bytes-rest s)

line_bytes-eol : (s : Bytes) → line_bytes (drop_while is_eol s) ≡ line_bytes s
unfolding line_bytes drop_while
line_bytes-eol [] = refl
line_bytes-eol (c ∷ s) = ground (arith, line_bytes-eol s)

rest_shorter :
    (c : ℕ) (s : Bytes) → length (drop_while is_eol (drop_while not_eol (c ∷ s))) ≤ length s
unfolding drop_while
rest_shorter c s = ground (
  arith,
  length-drop_while is_eol s,
  length-drop_while not_eol s,
  length-drop_while is_eol (drop_while not_eol s),
)

concat-lines_from :
    (fuel : ℕ) (s : Bytes) → length s ≤ fuel → concat (lines_from fuel s) ≡ line_bytes s
unfolding lines_from line_bytes
concat-lines_from zero [] h = refl
concat-lines_from zero (c ∷ s) h = absurd (omega arith)
concat-lines_from (suc fuel) [] h = refl
concat-lines_from (suc fuel) (c ∷ s) h =
    let rest = drop_while is_eol (drop_while not_eol (c ∷ s)) in
    let short : length rest ≤ fuel = omega (arith, rest_shorter c s) in
    rw (concat-lines_from fuel rest short, line_bytes-eol (drop_while not_eol (c ∷ s)))
      (line_bytes-rest (c ∷ s))

-- The loop over the lines comes to the end of the text: its lines have every byte of the text that
-- is in no end of line, in order.
pub concat-lines : (text : Bytes) → concat (lines text) ≡ line_bytes text
unfolding lines
concat-lines text = concat-lines_from (length text) text (omega arith)

length-before_trimmed : (c : ℕ) (s : Bytes) → length (before_trimmed c s) ≤ suc (length s)
length-before_trimmed c [] = ground arith
length-before_trimmed c (d ∷ s) = omega arith

pub length-trim_end : (s : Bytes) → length (trim_end s) ≤ length s
unfolding trim_end
length-trim_end [] = omega arith
length-trim_end (c ∷ s) = omega (arith, length-before_trimmed c (trim_end s), length-trim_end s)

abbrev length_or_zero : Option Bytes → ℕ
length_or_zero none = 0
length_or_zero (some s) = length s

pub length-strstr : (s needle p : Bytes) → strstr s needle ≡ some p → length p ≤ length s
unfolding strstr
length-strstr [] needle p h = ground (arith, ap length_or_zero h)
length-strstr (c ∷ s) needle p h = ground (arith, ap length_or_zero h, length-strstr s needle p)

pub length-strchr : (s : Bytes) (c : ℕ) (p : Bytes) → strchr s c ≡ some p → length p ≤ length s
unfolding strchr
length-strchr [] c p h = ground (arith, ap length_or_zero h)
length-strchr (d ∷ s) c p h = ground (arith, ap length_or_zero h, length-strchr s c p)
