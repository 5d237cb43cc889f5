-- ===== src/Json/Utf8.antt =====
-- `utf8_valid_len` of src/output.c, and well-formed UTF-8 as the Unicode standard's table 3-7 has it.
use bythos.Base.{
  ℕ, ◌+◌, ◌≤◌, ◌<◌, ◌≡◌, ◌≢◌, refl, Bool, true, false, ◌||◌, ◌⊎◌, inl, inr, Option, none, some,
  List, [], ◌∷◌, ◌++◌, arith, Bytes, All, length, get_elem?, within, ◌==◌, if◌then◌else◌, ◌>>=◌,
  Option-cases,
}

-- `p[i]` of a C string: the NUL behind it can be read, and nothing after that.
unfoldable pub char_at : Bytes → ℕ → Option ℕ
char_at p i = get_elem? (p ++ 0 ∷ []) i

-- `p[i] >= lo && p[i] <= hi && …`: the later bytes are read only if the earlier ones pass.
unfoldable pub in_ranges : Bytes → ℕ → List (ℕ × ℕ) → Option Bool
unfolding char_at
in_ranges p i [] = some true
in_ranges p i ((lo, hi) ∷ ranges) = do
  c ← char_at p i
  if within lo hi c then in_ranges p (i + 1) ranges else some false

abbrev tail : ℕ × ℕ
tail = (0x80, 0xBF)

-- `n` if the bytes behind the first lie in the ranges, and 0 otherwise
unfoldable pub sequence_len : Bytes → ℕ → List (ℕ × ℕ) → Option ℕ
unfolding in_ranges
sequence_len p n ranges = do ok ← in_ranges p 1 ranges; some (if ok then n else 0)

unfoldable pub utf8_valid_len : Bytes → Option ℕ
unfolding sequence_len
utf8_valid_len p = do
  c ← char_at p 0
  if within 0xC2 0xDF c
      then sequence_len p 2 (tail ∷ [])
      else if c == 0xE0
      then sequence_len p 3 ((0xA0, 0xBF) ∷ tail ∷ [])
      else if within 0xE1 0xEC c || c == 0xEE || c == 0xEF
      then sequence_len p 3 (tail ∷ tail ∷ [])
      else if c == 0xED
      then sequence_len p 3 ((0x80, 0x9F) ∷ tail ∷ [])
      else if c == 0xF0
      then sequence_len p 4 ((0x90, 0xBF) ∷ tail ∷ tail ∷ [])
      else if within 0xF1 0xF3 c
      then sequence_len p 4 (tail ∷ tail ∷ tail ∷ [])
      else if c == 0xF4
      then sequence_len p 4 ((0x80, 0x8F) ∷ tail ∷ tail ∷ [])
      else some 0

-- The table: which second byte goes with a first byte, in sequences of three and of four bytes.
abbrev pub InRange : ℕ → ℕ → ℕ → Type 0
InRange lo hi c = (lo ≤ c) × (c ≤ hi)

abbrev pub IsTail : ℕ → Type 0
IsTail = InRange 0x80 0xBF

abbrev pub StartsThree : ℕ → ℕ → Type 0
StartsThree a b =
    (a ≡ 0xE0) × InRange 0xA0 0xBF b
    ⊎ (InRange 0xE1 0xEC a × IsTail b
        ⊎ ((a ≡ 0xED) × InRange 0x80 0x9F b ⊎ InRange 0xEE 0xEF a × IsTail b))

abbrev pub StartsFour : ℕ → ℕ → Type 0
StartsFour a b =
    (a ≡ 0xF0) × InRange 0x90 0xBF b
    ⊎ (InRange 0xF1 0xF3 a × IsTail b ⊎ (a ≡ 0xF4) × InRange 0x80 0x8F b)

pub data IsUtf8 : Bytes → Type 0 where
  nil : IsUtf8 []
  one : {s : Bytes} (a : ℕ) → a < 0x80 → IsUtf8 s → IsUtf8 (a ∷ s)
  two : {s : Bytes} (a b : ℕ) → InRange 0xC2 0xDF a → IsTail b → IsUtf8 s → IsUtf8 (a ∷ b ∷ s)
  three : {s : Bytes} (a b c : ℕ) → StartsThree a b → IsTail c → IsUtf8 s → IsUtf8 (a ∷ b ∷ c ∷ s)
  four :
      {s : Bytes} (a b c d : ℕ)
      → StartsFour a b
      → IsTail c
      → IsTail d
      → IsUtf8 s
      → IsUtf8 (a ∷ b ∷ c ∷ d ∷ s)

pub IsUtf8-append : {s t : Bytes} → IsUtf8 s → IsUtf8 t → IsUtf8 (s ++ t)
IsUtf8-append nil u = u
IsUtf8-append (one a h v) u = one a h (IsUtf8-append v u)
IsUtf8-append (two a b h k v) u = two a b h k (IsUtf8-append v u)
IsUtf8-append (three a b c h k v) u = three a b c h k (IsUtf8-append v u)
IsUtf8-append (four a b c d h k l v) u = four a b c d h k l (IsUtf8-append v u)

-- On a sequence of the table, the length is the table's.
pub utf8_valid_len-two :
    (a b : ℕ) (s : Bytes) → InRange 0xC2 0xDF a → IsTail b → utf8_valid_len (a ∷ b ∷ s) ≡ some 2
unfolding utf8_valid_len
utf8_valid_len-two a b s h k = ground arith

pub utf8_valid_len-three :
    (a b c : ℕ) (s : Bytes) → StartsThree a b → IsTail c → utf8_valid_len (a ∷ b ∷ c ∷ s) ≡ some 3
unfolding utf8_valid_len
utf8_valid_len-three a b c s h k = ground arith

pub utf8_valid_len-four :
    (a b c d : ℕ) (s : Bytes)
    → StartsFour a b
    → IsTail c
    → IsTail d
    → utf8_valid_len (a ∷ b ∷ c ∷ d ∷ s) ≡ some 4
unfolding utf8_valid_len
utf8_valid_len-four a b c d s h k l = ground arith

-- Reading a length never goes past the NUL.
pub utf8_valid_len-ne-none : (c : ℕ) (s : Bytes) → utf8_valid_len (c ∷ s) ≢ none
unfolding utf8_valid_len
utf8_valid_len-ne-none c [] = ground arith
utf8_valid_len-ne-none c (b ∷ []) = ground arith
utf8_valid_len-ne-none c (b ∷ d ∷ []) = ground arith
utf8_valid_len-ne-none c (b ∷ d ∷ e ∷ s) = ground arith

-- What a length other than 0 says of the bytes in front.
abbrev Two : Bytes → Type 0
Two (a ∷ b ∷ s) = InRange 0xC2 0xDF a × IsTail b
Two _ = ⊥

abbrev Three : Bytes → Type 0
Three (a ∷ b ∷ c ∷ s) = StartsThree a b × IsTail c
Three _ = ⊥

abbrev Four : Bytes → Type 0
Four (a ∷ b ∷ c ∷ d ∷ s) = StartsFour a b × IsTail c × IsTail d
Four _ = ⊥

abbrev Tells : ℕ → Bytes → Type 0
Tells n p = (n ≡ 0) ⊎ ((n ≡ 2) × Two p ⊎ ((n ≡ 3) × Three p ⊎ (n ≡ 4) × Four p))

utf8_valid_len-Tells :
    (c : ℕ) (s : Bytes) (n : ℕ) → utf8_valid_len (c ∷ s) ≡ some n → Tells n (c ∷ s)
unfolding utf8_valid_len
utf8_valid_len-Tells c [] n h = ground arith
utf8_valid_len-Tells c (b ∷ []) n h = ground arith
utf8_valid_len-Tells c (b ∷ d ∷ []) n h = ground arith
utf8_valid_len-Tells c (b ∷ d ∷ e ∷ s) n h = ground arith

abbrev pub IsHigh : ℕ → Type 0
IsHigh c = (0x80 ≤ c) × (c < 256)

-- The bytes that a length of `n` at `p` stands for.
pub data Front (p : Bytes) (n : ℕ) : Type 0 where
  bad : n ≡ 0 → Front p n
  good :
      (seq rest : Bytes)
      → p ≡ seq ++ rest
      → n ≡ length seq
      → 0 < length seq
      → IsUtf8 seq
      → All IsHigh seq
      → Front p n

Two-Front : (p : Bytes) (n : ℕ) → n ≡ 2 → Two p → Front p n
Two-Front [] n e t = elim t [ ]
Two-Front (a ∷ []) n e t = elim t [ ]
Two-Front (a ∷ b ∷ s) n e (h, k) =
    good (a ∷ b ∷ []) s refl e (omega arith) (two a b h k nil) (omega arith)

Three-Front : (p : Bytes) (n : ℕ) → n ≡ 3 → Three p → Front p n
Three-Front [] n e t = elim t [ ]
Three-Front (a ∷ []) n e t = elim t [ ]
Three-Front (a ∷ b ∷ []) n e t = elim t [ ]
Three-Front (a ∷ b ∷ c ∷ s) n e (h, k) =
    good (a ∷ b ∷ c ∷ []) s refl e (omega arith) (three a b c h k nil) (omega arith)

Four-Front : (p : Bytes) (n : ℕ) → n ≡ 4 → Four p → Front p n
Four-Front [] n e t = elim t [ ]
Four-Front (a ∷ []) n e t = elim t [ ]
Four-Front (a ∷ b ∷ []) n e t = elim t [ ]
Four-Front (a ∷ b ∷ c ∷ []) n e t = elim t [ ]
Four-Front (a ∷ b ∷ c ∷ d ∷ s) n e (h, k, l) =
    good (a ∷ b ∷ c ∷ d ∷ []) s refl e (omega arith) (four a b c d h k l nil) (omega arith)

Tells-Front : (p : Bytes) (n : ℕ) → Tells n p → Front p n
Tells-Front p n (inl e) = bad e
Tells-Front p n (inr (inl (e, t))) = Two-Front p n e t
Tells-Front p n (inr (inr (inl (e, t)))) = Three-Front p n e t
Tells-Front p n (inr (inr (inr (e, t)))) = Four-Front p n e t

-- At every byte of a C string the length is read without going past the NUL, and what is in front
-- is a well-formed sequence of that length, or the length is 0.
pub utf8_valid_len-Front :
    (c : ℕ) (s : Bytes) → (n : ℕ) × (utf8_valid_len (c ∷ s) ≡ some n) × Front (c ∷ s) n
utf8_valid_len-Front c s = elim (Option-cases (utf8_valid_len (c ∷ s))) [
  | inl fault ↦ absurd (utf8_valid_len-ne-none c s fault)
  | inr (n, e) ↦ (n, e, Tells-Front (c ∷ s) n (utf8_valid_len-Tells c s n e))
]
