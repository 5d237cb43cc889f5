-- ===== src/Runtime/Values.antt =====
-- `bythos_read_key_value` of src/runtime.c: the value of a key in a file of settings.
use bythos.Base.{
  ℕ, ◌-◌, Bool, true, false, not, ◌&&◌, ◌||◌, Option, none, some, List, [], ◌∷◌, Bytes, length,
  take, drop, ◌==◌, if◌then◌else◌, take_while, strchr, equal, fit, trim,
}
use bythos.Runtime.Host.{Host}
use bythos.Runtime.Files.{file_lines}

abbrev pub is_quote : ℕ → Bool
is_quote c = c == b'"' || c == b'\''

-- The quote that is open behind the quote `c`.
abbrev pub next_quote : Option ℕ → ℕ → Option ℕ
next_quote none c = some c
next_quote (some q) c = if c == q then none else some q

abbrev pub is_open : Option ℕ → Bool
is_open none = false
is_open (some q) = true

-- The loop, with the quote that is open: the text up to a hash outside of quotes. A backslash takes
-- the byte behind it along.
unfoldable pub strip_from : Option ℕ → Bytes → Bytes
strip_from quote [] = []
strip_from quote (c ∷ []) = if not (is_open quote) && c == b'#' then [] else c ∷ []
strip_from quote (c ∷ d ∷ s) = elim (c == b'\\') [
  | true ↦ c ∷ d ∷ strip_from quote s
  | false ↦ elim (is_quote c) [
    | true ↦ c ∷ strip_from (next_quote quote c) (d ∷ s)
    | false ↦ elim (not (is_open quote) && c == b'#') [
      | true ↦ []
      | false ↦ c ∷ strip_from quote (d ∷ s)
    ]
  ]
]

unfoldable pub strip_inline_comment : Bytes → Bytes
unfolding strip_from
strip_inline_comment text = strip_from none text

-- The last byte, for a text that is not empty.
abbrev pub last_or : ℕ → Bytes → ℕ
last_or c [] = c
last_or c (d ∷ s) = last_or d s

unfoldable pub strip_matching_quotes : Bytes → Bytes
strip_matching_quotes [] = []
strip_matching_quotes (c ∷ s) =
    if not (length s == 0) && is_quote c && last_or c s == c then take (length s - 1) s else c ∷ s

-- The key and the value of a line.
unfoldable pub key_value : Bytes → Option (Bytes × Bytes)
unfolding strip_inline_comment strip_matching_quotes
key_value line = elim (trim line) [
  | [] ↦ none
  | c ∷ s ↦ if c == b'#' then none else elim (strchr (c ∷ s) b'=') [
    | none ↦ none
    | some sep ↦
        (let lhs = trim (take_while (λ (d : ℕ). not (d == b'=')) (c ∷ s)) in
          let rhs = trim (strip_inline_comment (trim (drop 1 sep))) in
          some (lhs, strip_matching_quotes rhs))
  ]
]

unfoldable pub find_key : Bytes → List Bytes → Option Bytes
unfolding key_value
find_key key [] = none
find_key key (l ∷ ls) =
    let rest = find_key key ls in
    elim (key_value l) [ none ↦ rest | some (lhs, rhs) ↦ if equal lhs key then some rhs else rest ]

unfoldable pub read_key_value : Host → Bytes → Bytes → ℕ → Option Bytes
unfolding find_key
read_key_value host path key size = if size == 0 then none else elim (host.file path) [
  | none ↦ none
  | some bytes ↦ elim (find_key key (file_lines 1024 bytes)) [
    | none ↦ none
    | some rhs ↦ some (fit size rhs)
  ]
]
