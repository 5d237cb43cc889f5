-- ===== src/Json/Print.antt =====
-- `print_json_string` of src/output.c: the bytes that it puts out for a C string.
pub mod Read
pub mod RoundTrip
use bythos.Base.{
  ℕ, zero, suc, ◌+◌, ◌-◌, ◌/◌, ◌%◌, Option, none, some, [], ◌∷◌, ◌++◌, Bytes, length, take, drop,
  ltb, ◌==◌, if◌then◌else◌, ◌>>=◌,
}
use bythos.Json.Utf8.{utf8_valid_len}

-- A digit of `%x`.
unfoldable pub hex_digit : ℕ → ℕ
hex_digit d = if ltb d 10 then b'0' + d else b'a' + d - 10

-- What a byte below 0x80 is put out as; `\u%04x` of such a byte has two zeros in front.
unfoldable pub escape_ascii : ℕ → Bytes
unfolding hex_digit
escape_ascii c =
    if c == b'\\'
    then b'\\' ∷ b'\\' ∷ []
    else if c == b'"'
    then b'\\' ∷ b'"' ∷ []
    else if c == b'\n'
    then b'\\' ∷ b'n' ∷ []
    else if c == b'\r'
    then b'\\' ∷ b'r' ∷ []
    else if c == b'\t'
    then b'\\' ∷ b't' ∷ []
    else if ltb c 0x20
    then b'\\' ∷ b'u' ∷ b'0' ∷ b'0' ∷ hex_digit (c / 16) ∷ hex_digit (c % 16) ∷ []
    else c ∷ []

abbrev pub replacement : Bytes
replacement = 0xEF ∷ 0xBF ∷ 0xBD ∷ []

-- The loop; `none` is a read past the NUL, or fuel that ran out.
unfoldable pub print_from : ℕ → Bytes → Option Bytes
unfolding utf8_valid_len escape_ascii
print_from zero p = none
print_from (suc fuel) [] = some []
print_from (suc fuel) (c ∷ s) =
    if ltb c 0x80 then (do rest ← print_from fuel s; some (escape_ascii c ++ rest)) else (do
      seq ← utf8_valid_len (c ∷ s)
      if seq == 0
          then (do rest ← print_from fuel s; some (replacement ++ rest))
          else (do rest ← print_from fuel (drop seq (c ∷ s)); some (take seq (c ∷ s) ++ rest)))

unfoldable pub print_json_string : Bytes → Option Bytes
unfolding print_from
print_json_string text = do
  body ← print_from (suc (length text)) text
  some (b'"' ∷ (body ++ b'"' ∷ []))
