-- ===== src/Efi/Order/RoundTrip.antt =====
-- A boot order is read back from the bytes that spell it.
use bythos.Base.{
  ℕ, zero, suc, ◌+◌, ◌-◌, ◌*◌, ◌/◌, ◌≤◌, ◌<◌, ◌≡◌, refl, sym, ap, ◌∙◌, Bool, true, false, some,
  List, [], ◌∷◌, ◌++◌, append_assoc, arith, Bytes, length, length-append, length-take, length-drop,
  take, drop, take-append-drop, drop-append, ltb, if◌then◌else◌, Bool-cases, inl, inr,
}
use bythos.Efi.Reads.{
  read_le16, read_le16-some, encode_le16, read_le16-encode_le16, read_le16_behind,
}
use bythos.Efi.Order.{BootOrder, empty_order, boot_max_entries, read_numbers, parse_efi_boot_order}

-- The bytes of a list of 16-bit words.
abbrev pub encode_words : List ℕ → Bytes
encode_words [] = []
encode_words (n ∷ ns) = encode_le16 n ++ encode_words ns

encode_words-append :
    (ms ns : List ℕ) → encode_words (ms ++ ns) ≡ encode_words ms ++ encode_words ns
encode_words-append [] ns = refl
encode_words-append (m ∷ ms) ns = ap (λ r. encode_le16 m ++ r) (encode_words-append ms ns)

length-encode_words : (ns : List ℕ) → length (encode_words ns) ≡ length ns * 2
length-encode_words [] = refl
length-encode_words (n ∷ ns) = omega (arith, length-encode_words ns)

read_numbers-encode_words :
    (ns : List ℕ) (front rest : Bytes) (i : ℕ)
    → length front ≡ i * 2
    → read_numbers (length ns) (front ++ (encode_words ns ++ rest)) i ≡ some ns
unfolding read_numbers
read_numbers-encode_words [] front rest i h = refl
read_numbers-encode_words (n ∷ ns) front rest i h =
    let here : read_le16 (front ++ (encode_words (n ∷ ns) ++ rest)) (i * 2) ≡ some n =
      ap (read_le16 (front ++ (encode_words (n ∷ ns) ++ rest))) (omega (arith, h))
      ∙ read_le16_behind front (encode_words (n ∷ ns) ++ rest) 0
      ∙ read_le16-encode_le16 n (encode_words ns ++ rest) in
    let there =
      read_numbers-encode_words ns (front ++ encode_le16 n) rest (i + 1)
        (omega (arith, length-append front (encode_le16 n))) in
    rw (here, ← append_assoc front (encode_le16 n) (encode_words ns ++ rest), there)

read_first :
    (ns : List ℕ)
    → read_numbers (length (take boot_max_entries ns)) (encode_words ns) 0
      ≡ some (take boot_max_entries ns)
read_first ns =
    let first = take boot_max_entries ns in
    let later = encode_words (drop boot_max_entries ns) in
    let split : encode_words first ++ later ≡ encode_words ns =
      sym (encode_words-append first (drop boot_max_entries ns))
      ∙ ap encode_words (take-append-drop boot_max_entries ns) in
    rw split at (read_numbers-encode_words first [] later 0 refl)

-- The bytes of a boot order behind its attributes are read back: the first 32 numbers, in order,
-- and a mark if there are more.
pub parse_efi_boot_order-encode_words :
    (attributes : Bytes) (ns : List ℕ)
    → length attributes ≡ 4
    → 0 < length ns
    → parse_efi_boot_order (attributes ++ encode_words ns)
      ≡ some (
        true,
        record {
          order = take boot_max_entries ns;
          order_count = length (take boot_max_entries ns);
          truncated = ltb boot_max_entries (length ns);
        },
      )
unfolding parse_efi_boot_order
parse_efi_boot_order-encode_words attributes ns h pos =
    let buf = attributes ++ encode_words ns in
    let size : length buf ≡ 4 + length ns * 2 =
      omega (arith, length-append attributes (encode_words ns), length-encode_words ns) in
    let long : ltb (length buf) 6 ≡ false = ground arith in
    let listed : (length buf - 4) / 2 ≡ length ns = omega arith in
    let payload : drop 4 buf ≡ encode_words ns =
      ap (λ n. drop n buf) (sym h) ∙ drop-append attributes (encode_words ns) in
    let count : (if ltb boot_max_entries (length ns) then boot_max_entries else length ns)
        ≡ length (take boot_max_entries ns) =
      ground (arith, length-take boot_max_entries ns) in
    rw (long, listed, payload, count, read_first ns)

read_numbers-some :
    (count : ℕ) (payload : Bytes) (i : ℕ)
    → (i + count) * 2 ≤ length payload
    → (ns : List ℕ) × (read_numbers count payload i ≡ some ns) × (length ns ≡ count)
unfolding read_numbers
read_numbers-some zero payload i h = ([], refl, refl)
read_numbers-some (suc count) payload i h =
    let (n, e) = read_le16-some payload (i * 2) (omega arith) in
    let (ns, es, l) = read_numbers-some count payload (i + 1) (omega arith) in
    rw (e, es) (n ∷ ns, refl, ap suc l)

-- Whatever the variable holds, reading a boot order stays inside it, and the order has as many
-- numbers as it says, at most 32.
pub parse_efi_boot_order-some :
    (buf : Bytes)
    → (r : Bool × BootOrder) × (parse_efi_boot_order buf ≡ some r)
      × (length r.1.order ≡ r.1.order_count)
      × (r.1.order_count ≤ boot_max_entries)
unfolding parse_efi_boot_order
parse_efi_boot_order-some buf = elim (Bool-cases (ltb (length buf) 6)) [
  | inl short ↦ rw short ((false, empty_order), refl, refl, omega arith)
  | inr long ↦
      let listed = (length buf - 4) / 2 in
      let count = if ltb boot_max_entries listed then boot_max_entries else listed in
      let fits : count ≤ listed = ground arith in
      let small : count ≤ boot_max_entries = ground arith in
      let (ns, e, l) = read_numbers-some count (drop 4 buf) 0 (omega (arith, length-drop 4 buf)) in
      rw (long, e) (_, refl, l, small)
]
