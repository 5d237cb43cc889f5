-- ===== src/Efi/Reads.antt =====
-- Little-endian words in a buffer, of src/efi_boot_parsers.c and of src/firmware_parsers.c.
use Prim.Native.Nat.{bit_or}
use native.Mathlib.Nat.{add_assoc}
use bythos.Base.{
  get_elem?-append, ℕ, ◌+◌, ◌*◌, ◌<◌, ◌≡◌, Option, some, ◌++◌, ◌∷◌, [], arith, Bytes, length,
  get_elem?, get_elem?-lt, get_elem?-append_left, ◌>>=◌, bit_or-eight, ◌%◌, ◌/◌, take,
  get_elem?-take,
}

-- `p[0] | (p[1] << 8)` at `p = buf + offset`
unfoldable pub read_le16 : Bytes → ℕ → Option ℕ
read_le16 buf offset = do
  b0 ← get_elem? buf offset
  b1 ← get_elem? buf (offset + 1)
  some (bit_or b0 (b1 * 256))

unfoldable pub read_le32 : Bytes → ℕ → Option ℕ
read_le32 buf offset = do
  b0 ← get_elem? buf offset
  b1 ← get_elem? buf (offset + 1)
  b2 ← get_elem? buf (offset + 2)
  b3 ← get_elem? buf (offset + 3)
  some (bit_or (bit_or (bit_or b0 (b1 * 256)) (b2 * 65536)) (b3 * 16777216))

-- A word that lies inside the buffer is read.
pub read_le16-some :
    (buf : Bytes) (offset : ℕ) → offset + 1 < length buf → (v : ℕ) × (read_le16 buf offset ≡ some v)
unfolding read_le16
read_le16-some buf offset h =
    let (b0, e0) = get_elem?-lt buf offset (omega arith) in
    let (b1, e1) = get_elem?-lt buf (offset + 1) h in (bit_or b0 (b1 * 256), rw (e0, e1))

pub read_le32-some :
    (buf : Bytes) (offset : ℕ) → offset + 3 < length buf → (v : ℕ) × (read_le32 buf offset ≡ some v)
unfolding read_le32
read_le32-some buf offset h =
    let (b0, e0) = get_elem?-lt buf offset (omega arith) in
    let (b1, e1) = get_elem?-lt buf (offset + 1) (omega arith) in
    let (b2, e2) = get_elem?-lt buf (offset + 2) (omega arith) in
    let (b3, e3) = get_elem?-lt buf (offset + 3) h in
    (bit_or (bit_or (bit_or b0 (b1 * 256)) (b2 * 65536)) (b3 * 16777216), rw (e0, e1, e2, e3))

-- What lies behind the word does not matter.
pub read_le32-append :
    (buf rest : Bytes) (offset : ℕ)
    → offset + 3 < length buf
    → read_le32 (buf ++ rest) offset ≡ read_le32 buf offset
unfolding read_le32
read_le32-append buf rest offset h = rw (
  get_elem?-append_left buf rest offset (omega arith),
  get_elem?-append_left buf rest (offset + 1) (omega arith),
  get_elem?-append_left buf rest (offset + 2) (omega arith),
  get_elem?-append_left buf rest (offset + 3) h,
)

pub read_le32-take :
    (n : ℕ) (buf : Bytes) (offset : ℕ)
    → offset + 3 < n
    → read_le32 (take n buf) offset ≡ read_le32 buf offset
unfolding read_le32
read_le32-take n buf offset h = rw (
  get_elem?-take n buf offset (omega arith),
  get_elem?-take n buf (offset + 1) (omega arith),
  get_elem?-take n buf (offset + 2) (omega arith),
  get_elem?-take n buf (offset + 3) h,
)

-- The bytes of a 16-bit word, the low one first.
abbrev pub encode_le16 : ℕ → Bytes
encode_le16 v = v % 256 ∷ (v / 256) ∷ []

pub read_le16-encode_le16 : (v : ℕ) (rest : Bytes) → read_le16 (encode_le16 v ++ rest) 0 ≡ some v
unfolding read_le16
read_le16-encode_le16 v rest = ground (arith, bit_or-eight (v % 256) (v / 256))

-- A word behind a prefix.
pub read_le16_behind :
    (front buf : Bytes) (offset : ℕ)
    → read_le16 (front ++ buf) (length front + offset) ≡ read_le16 buf offset
unfolding read_le16
read_le16_behind front buf offset = rw (
  add_assoc (length front) offset 1,
  get_elem?-append front buf offset,
  get_elem?-append front buf (offset + 1),
)

pub read_le32_behind :
    (front buf : Bytes) (offset : ℕ)
    → read_le32 (front ++ buf) (length front + offset) ≡ read_le32 buf offset
unfolding read_le32
read_le32_behind front buf offset = rw (
  add_assoc (length front) offset 1,
  add_assoc (length front) offset 2,
  add_assoc (length front) offset 3,
  get_elem?-append front buf offset,
  get_elem?-append front buf (offset + 1),
  get_elem?-append front buf (offset + 2),
  get_elem?-append front buf (offset + 3),
)
