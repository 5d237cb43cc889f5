-- ===== src/Json/Print/RoundTrip.antt =====
-- What `print_json_string` puts out is one JSON string in well-formed UTF-8, whatever the text is,
-- and it spells the text itself if that is well-formed.
use bythos.Base.{
  ℕ, zero, suc, ◌≤◌, ◌<◌, ◌≡◌, refl, ap, ◌∙◌, true, false, Option, some, [], ◌∷◌, ◌++◌,
  append_assoc, append-nil, arith, Bytes, All, length, length-append, take, drop, take_all,
  take_prefix, drop-append, ltb, ◌==◌, Bool-cases, inl, inr,
}
use bythos.Json.Utf8.{
  utf8_valid_len, utf8_valid_len-Front, utf8_valid_len-two, utf8_valid_len-three,
  utf8_valid_len-four, Front, bad, good, IsUtf8, nil, one, two, three, four, IsUtf8-append, IsHigh,
}
use bythos.Json.Print.{escape_ascii, replacement, print_from, print_json_string}
use bythos.Json.Print.Read.{read_string, plain, read_string-IsHigh, prepend, prepend_all}

read_string-escape_ascii :
    (c : ℕ) (rest : Bytes)
    → c < 0x80
    → read_string plain (escape_ascii c ++ rest) ≡ prepend c (read_string plain rest)
unfolding read_string escape_ascii
read_string-escape_ascii c rest h = ground arith

abbrev IsAscii : ℕ → Type 0
IsAscii c = c < 0x80

All-IsUtf8 : (s : Bytes) → All IsAscii s → IsUtf8 s
All-IsUtf8 [] h = nil
All-IsUtf8 (c ∷ s) (h, hs) = one c h (All-IsUtf8 s hs)

escape_ascii-IsAscii : (c : ℕ) → c < 0x80 → All IsAscii (escape_ascii c)
unfolding escape_ascii
escape_ascii-IsAscii c h = ground arith

escape_ascii-IsUtf8 : (c : ℕ) → c < 0x80 → IsUtf8 (escape_ascii c)
escape_ascii-IsUtf8 c h = All-IsUtf8 (escape_ascii c) (escape_ascii-IsAscii c h)

-- A piece of the output: UTF-8 that the reader takes for `text`, whatever stands behind it.
record Spells (piece text : Bytes) : Type 0 where
  utf8 : IsUtf8 piece
  reads :
      (rest : Bytes) → read_string plain (piece ++ rest) ≡ prepend_all text (read_string plain rest)

prepend_all-append :
    (s t : Bytes) (m : Option (Bytes × Bytes))
    → prepend_all (s ++ t) m ≡ prepend_all s (prepend_all t m)
prepend_all-append [] t m = refl
prepend_all-append (c ∷ s) t m = ap (prepend c) (prepend_all-append s t m)

Spells-append : {a b s t : Bytes} → Spells a s → Spells b t → Spells (a ++ b) (s ++ t)
Spells-append {a} {b} {s} {t} h k = record {
  utf8 = IsUtf8-append h.utf8 k.utf8;
  reads =
      λ rest. rw (append_assoc a b rest, h.reads (b ++ rest), k.reads rest, prepend_all-append s t);
}

escape_ascii-Spells : (c : ℕ) → c < 0x80 → Spells (escape_ascii c) (c ∷ [])
escape_ascii-Spells c h = record {
  utf8 = escape_ascii-IsUtf8 c h;
  reads = λ rest. read_string-escape_ascii c rest h;
}

IsHigh-Spells : {seq : Bytes} → IsUtf8 seq → All IsHigh seq → Spells seq seq
IsHigh-Spells {seq} u h = record { utf8 = u; reads = λ rest. read_string-IsHigh seq rest h }

replacement-IsUtf8 : IsUtf8 replacement
replacement-IsUtf8 = three 0xEF 0xBF 0xBD (inr (inr (inr (omega arith)))) (omega arith) nil

-- The loop puts out a body that spells some text.
record Body (m : Option Bytes) (text : Bytes) : Type 0 where
  body : Bytes
  given : m ≡ some body
  spells : Spells body text

print_from-ascii :
    (fuel c : ℕ) (s : Bytes) {text : Bytes}
    → c < 0x80
    → Body (print_from fuel s) text
    → Body (print_from (suc fuel) (c ∷ s)) (c ∷ text)
unfolding print_from
print_from-ascii fuel c s h r = record {
  body = escape_ascii c ++ r.body;
  given = let low : ltb c 0x80 ≡ true = ground arith in rw (low, r.given);
  spells = Spells-append (escape_ascii-Spells c h) r.spells;
}

print_from-bad :
    (fuel c : ℕ) (s : Bytes) {text : Bytes}
    → 0x80 ≤ c
    → utf8_valid_len (c ∷ s) ≡ some 0
    → Body (print_from fuel s) text
    → Body (print_from (suc fuel) (c ∷ s)) (replacement ++ text)
unfolding print_from
print_from-bad fuel c s h e r = record {
  body = replacement ++ r.body;
  given = let high : ltb c 0x80 ≡ false = ground arith in rw (high, e, r.given);
  spells = Spells-append (IsHigh-Spells replacement-IsUtf8 (omega arith)) r.spells;
}

print_from-seq :
    (fuel c : ℕ) (s seq rest : Bytes) {text : Bytes}
    → 0x80 ≤ c
    → c ∷ s ≡ seq ++ rest
    → 0 < length seq
    → utf8_valid_len (c ∷ s) ≡ some (length seq)
    → IsUtf8 seq
    → All IsHigh seq
    → Body (print_from fuel rest) text
    → Body (print_from (suc fuel) (c ∷ s)) (seq ++ text)
unfolding print_from
print_from-seq fuel c s seq rest h e pos n u a r = record {
  body = seq ++ r.body;
  given =
      let high : ltb c 0x80 ≡ false = ground arith in
      let more : (length seq == 0) ≡ false = ground arith in
      let front : take (length seq) (c ∷ s) ≡ seq = rw e (
        take_prefix (length seq) seq rest (omega arith)
        ∙ take_all (length seq) seq (omega arith)) in
      let behind : drop (length seq) (c ∷ s) ≡ rest = rw e (drop-append seq rest) in
      rw (high, n, more, front, behind, r.given);
  spells = Spells-append (IsHigh-Spells u a) r.spells;
}

nil-Body : (fuel : ℕ) → Body (print_from (suc fuel) []) []
unfolding print_from
nil-Body fuel = record {
  body = [];
  given = refl;
  spells = record { utf8 = nil; reads = λ rest. refl };
}

-- Every text is printed, and what is printed spells some text.
print_from-Body :
    (fuel : ℕ) (p : Bytes) → length p < fuel → (text : Bytes) × Body (print_from fuel p) text
print_from-Body zero p h = absurd (omega arith)
print_from-Body (suc fuel) [] h = ([], nil-Body fuel)
print_from-Body (suc fuel) (c ∷ s) h = elim (Bool-cases (ltb c 0x80)) [
  | inl low ↦
      let (text, r) = print_from-Body fuel s (omega arith) in
      (c ∷ text, print_from-ascii fuel c s (ground arith) r)
  | inr high ↦
      let (n, e, front) = utf8_valid_len-Front c s in
      after (λ q small. print_from-Body fuel q small) n e front (ground arith)
]
  where
    after :
        ((q : Bytes) → length q < fuel → (text : Bytes) × Body (print_from fuel q) text)
        → (n : ℕ) → utf8_valid_len (c ∷ s) ≡ some n
        → Front (c ∷ s) n
        → 0x80 ≤ c
        → (text : Bytes) × Body (print_from (suc fuel) (c ∷ s)) text
    after go n e (bad z) high =
        let (text, r) = go s (omega arith) in
        (replacement ++ text, print_from-bad fuel c s high (rw z at e) r)
    after go n e (good seq rest split size pos u a) high =
        let (text, r) = go rest (omega (arith, ap length split, length-append seq rest)) in
        (seq ++ text, print_from-seq fuel c s seq rest high split pos (rw size at e) u a r)

-- Well-formed text is spelt as it is.
print_from-IsUtf8 : {p : Bytes} (fuel : ℕ) → IsUtf8 p → length p < fuel → Body (print_from fuel p) p
print_from-IsUtf8 zero u h = absurd (omega arith)
print_from-IsUtf8 (suc fuel) nil h = nil-Body fuel
print_from-IsUtf8 (suc fuel) (one {s} a low u) h =
    print_from-ascii fuel a s low (print_from-IsUtf8 fuel u (omega arith))
print_from-IsUtf8 (suc fuel) (two {s} a b x y u) h =
    print_from-seq fuel a (b ∷ s) (a ∷ b ∷ []) s (omega arith) refl (omega arith)
      (utf8_valid_len-two a b s x y) (two a b x y nil) (omega arith)
      (print_from-IsUtf8 fuel u (omega arith))
print_from-IsUtf8 (suc fuel) (three {s} a b c x y u) h =
    print_from-seq fuel a (b ∷ c ∷ s) (a ∷ b ∷ c ∷ []) s (omega arith) refl (omega arith)
      (utf8_valid_len-three a b c s x y) (three a b c x y nil) (omega arith)
      (print_from-IsUtf8 fuel u (omega arith))
print_from-IsUtf8 (suc fuel) (four {s} a b c d x y z u) h =
    print_from-seq fuel a (b ∷ c ∷ d ∷ s) (a ∷ b ∷ c ∷ d ∷ []) s (omega arith) refl (omega arith)
      (utf8_valid_len-four a b c d s x y z) (four a b c d x y z nil) (omega arith)
      (print_from-IsUtf8 fuel u (omega arith))

read_string_end : (rest : Bytes) → read_string plain (b'"' ∷ rest) ≡ some ([], rest)
unfolding read_string
read_string_end rest = refl

prepend_all-some : (s t rest : Bytes) → prepend_all s (some (t, rest)) ≡ some (s ++ t, rest)
prepend_all-some [] t rest = refl
prepend_all-some (c ∷ s) t rest = ap (prepend c) (prepend_all-some s t rest)

-- The string is put out as a quote and what follows it, is well-formed UTF-8, and read back it is
-- `text`, with what stands behind its closing quote left over.
pub record IsPrinted (string text : Bytes) : Type 0 where
  pub after_quote : Bytes
  pub given : print_json_string string ≡ some (b'"' ∷ after_quote)
  pub utf8 : IsUtf8 after_quote
  pub reads : (rest : Bytes) → read_string plain (after_quote ++ rest) ≡ some (text, rest)

Body-IsPrinted :
    (string text : Bytes)
    → Body (print_from (suc (length string)) string) text
    → IsPrinted string text
unfolding print_json_string
Body-IsPrinted string text r = record {
  after_quote = r.body ++ b'"' ∷ [];
  given = rw r.given;
  utf8 = IsUtf8-append r.spells.utf8 (one b'"' (omega arith) nil);
  reads = λ rest. rw (
    append_assoc r.body (b'"' ∷ []) rest,
    r.spells.reads (b'"' ∷ rest),
    read_string_end rest,
    prepend_all-some text [] rest,
    append-nil,
  );
}

-- Every C string is printed as one JSON string in UTF-8, whatever bytes it holds: a reader comes
-- to its end at its closing quote, and not before.
pub print_json_string-IsPrinted : (string : Bytes) → (text : Bytes) × IsPrinted string text
print_json_string-IsPrinted string =
    let (text, r) = print_from-Body (suc (length string)) string (omega arith) in
    (text, Body-IsPrinted string text r)

-- A C string in well-formed UTF-8 is read back as it was.
pub print_json_string-IsUtf8 : (string : Bytes) → IsUtf8 string → IsPrinted string string
print_json_string-IsUtf8 string u =
    Body-IsPrinted string string (print_from-IsUtf8 (suc (length string)) u (omega arith))
