-- ===== src/Json/Print/Read.antt =====
-- A reader of JSON strings (RFC 8259), to say what a printed string means. It is handed what stands
-- behind the opening quote, and gives the bytes that the string spells and what is behind its end.
use bythos.Base.{
  ℕ, zero, suc, ◌+◌, ◌-◌, ◌*◌, ◌≡◌, refl, true, false, ◌||◌, Option, none, some, [], ◌∷◌, ◌++◌,
  arith, Bytes, All, within, ltb, ◌==◌, if◌then◌else◌,
}
use bythos.Json.Utf8.{IsHigh}

-- Plain text, the byte behind a backslash, and the digits of `\u`: how many are left, and their
-- value so far.
pub data Mode : Type 0 where
  plain escaped : Mode
  hex : ℕ → ℕ → Mode

abbrev escape_of : ℕ → Option ℕ
escape_of c =
    if c == b'"' || c == b'\\' || c == b'/'
    then some c
    else if c == b'n'
    then some b'\n'
    else if c == b'r'
    then some b'\r'
    else if c == b't'
    then some b'\t'
    else if c == b'b'
    then some 8
    else if c == b'f'
    then some 12
    else none

abbrev hex_value : ℕ → Option ℕ
hex_value c =
    if within b'0' b'9' c
    then some (c - b'0')
    else if within b'a' b'f' c
    then some (c - b'a' + 10)
    else if within b'A' b'F' c
    then some (c - b'A' + 10)
    else none

abbrev pub prepend : ℕ → Option (Bytes × Bytes) → Option (Bytes × Bytes)
prepend c none = none
prepend c (some (text, rest)) = some (c ∷ text, rest)

-- A raw control byte, an unknown escape and a code point from 0x80 on behind `\u` are refused.
unfoldable pub read_string : Mode → Bytes → Option (Bytes × Bytes)
read_string mode [] = none
read_string plain (c ∷ s) = elim (c == b'"') [
  | true ↦ some ([], s)
  | false ↦ elim (c == b'\\') [
    | true ↦ read_string escaped s
    | false ↦ if ltb c 0x20 then none else prepend c (read_string plain s)
  ]
]
read_string escaped (c ∷ s) = elim (c == b'u') [
  | true ↦ read_string (hex 3 0) s
  | false ↦ elim (escape_of c) [ none ↦ none | some d ↦ prepend d (read_string plain s) ]
]
read_string (hex zero v) (c ∷ s) = elim (hex_value c) [
  | none ↦ none
  | some d ↦ if ltb (v * 16 + d) 0x80 then prepend (v * 16 + d) (read_string plain s) else none
]
read_string (hex (suc k) v) (c ∷ s) = elim (hex_value c) [
  | none ↦ none
  | some d ↦ read_string (hex k (v * 16 + d)) s
]

abbrev pub prepend_all : Bytes → Option (Bytes × Bytes) → Option (Bytes × Bytes)
prepend_all [] m = m
prepend_all (c ∷ s) m = prepend c (prepend_all s m)

pub read_string-IsHigh :
    (seq rest : Bytes)
    → All IsHigh seq
    → read_string plain (seq ++ rest) ≡ prepend_all seq (read_string plain rest)
unfolding read_string
read_string-IsHigh [] rest h = refl
read_string-IsHigh (c ∷ seq) rest (h, hs) = ground (arith, read_string-IsHigh seq rest hs)
