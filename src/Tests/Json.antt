-- ===== src/Tests/Json.antt =====
-- JSON strings at concrete bytes.
use bythos.Base.{ℕ, ◌≡◌, refl, some, [], ◌∷◌, arith, Bytes}
use bythos.Json.Utf8.{nil, one, two, Front, utf8_valid_len, utf8_valid_len-Front}
use bythos.Json.Print.{print_json_string}
use bythos.Json.Print.RoundTrip.{IsPrinted, print_json_string-IsPrinted, print_json_string-IsUtf8}

-- A quote, a control byte, a byte that starts no sequence, and an e with an acute accent.
abbrev mixed : Bytes
mixed = b'"' ∷ 1 ∷ 0xFF ∷ 0xC3 ∷ 0xA9 ∷ []

mixed_printed :
    print_json_string mixed
    ≡ some (
        b'"' ∷ b'\\' ∷ b'"' ∷ b'\\' ∷ b'u' ∷ b'0' ∷ b'0' ∷ b'0' ∷ b'1' ∷ 0xEF ∷ 0xBF ∷ 0xBD ∷ 0xC3
        ∷ 0xA9 ∷ b'"' ∷ [])
unfolding print_json_string
mixed_printed = refl

print_json_string-IsPrinted_example : (text : Bytes) × IsPrinted mixed text
print_json_string-IsPrinted_example = print_json_string-IsPrinted mixed

print_json_string-IsUtf8_example : IsPrinted (b'"' ∷ 0xC3 ∷ 0xA9 ∷ []) (b'"' ∷ 0xC3 ∷ 0xA9 ∷ [])
print_json_string-IsUtf8_example =
    print_json_string-IsUtf8 (b'"' ∷ 0xC3 ∷ 0xA9 ∷ [])
      (one b'"' (omega arith) (two 0xC3 0xA9 (omega arith) (omega arith) nil))

utf8_valid_len-Front_example :
    (n : ℕ) × (utf8_valid_len (0xC3 ∷ 0xA9 ∷ []) ≡ some n) × Front (0xC3 ∷ 0xA9 ∷ []) n
utf8_valid_len-Front_example = utf8_valid_len-Front 0xC3 (0xA9 ∷ [])
