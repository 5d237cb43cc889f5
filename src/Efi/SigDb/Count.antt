-- ===== src/Efi/SigDb/Count.antt =====
-- The count is that of the lists that the database is made of, and 0 if it is not made of lists.
use native.Mathlib.Nat.{zero-add, div-add-mod', mul-mod_left}
use bythos.Base.{
  ℕ, zero, suc, ◌+◌, ◌-◌, ◌*◌, ◌/◌, ◌%◌, ◌≤◌, ◌<◌, ◌≡◌, ◌≢◌, refl, sym, ap, ◌∙◌, false, Option,
  none, some, [], ◌∷◌, ◌++◌, arith, Bytes, length, length-append, length-drop, length-take, take,
  drop, take-append-drop, drop-append, ltb, leb, ◌==◌, leb→le, Bool-cases, inl, inr,
}
use bythos.Efi.Reads.{read_le32, read_le32-some, read_le32-append, read_le32-take}
use bythos.Efi.SigDb.{sigdb_list, sigdb_loop, count_efi_sigdb_lists}

-- An EFI_SIGNATURE_LIST: its size, that of its header and that of one signature stand behind the
-- type's GUID; behind the header there are one or more signatures, each longer than an owner GUID.
pub record IsSigList (l : Bytes) : Type 0 where
  pub header_size : ℕ
  pub signature_size : ℕ
  pub signatures : ℕ
  pub size_field : read_le32 l 16 ≡ some (length l)
  pub header_field : read_le32 l 20 ≡ some header_size
  pub signature_field : read_le32 l 24 ≡ some signature_size
  pub whole : length l ≡ 28 + header_size + signatures * signature_size
  pub nonempty : 0 < signatures
  pub owned : 16 < signature_size

-- A database of `n` lists, one behind the other.
pub data SigDb : Bytes → ℕ → Type 0 where
  end : SigDb [] 0
  list :
      {buf : Bytes} {n : ℕ} (l rest : Bytes)
      → buf ≡ l ++ rest
      → IsSigList l
      → SigDb rest n
      → SigDb buf (suc n)

quotient_pos : (n d q : ℕ) → q * d ≡ n → 0 < d → d ≤ n → 0 < q
quotient_pos n d zero e pos h = absurd (omega arith)
quotient_pos n d (suc q) e pos h = omega arith

-- A list in front is accepted, whatever lies behind it.
sigdb_list-IsSigList :
    (l rest : Bytes)
    → IsSigList l
    → sigdb_list (l ++ rest) (length (l ++ rest)) ≡ some (some (length l))
unfolding sigdb_list
sigdb_list-IsSigList l rest s =
    let payload : length l - 28 - s.header_size ≡ s.signatures * s.signature_size =
      omega (arith, s.whole) in
    let least : s.signature_size ≤ s.signatures * s.signature_size = grind (arith, s.nonempty) in
    rw
      (
        read_le32-append l rest 16 (omega (arith, s.whole)),
        read_le32-append l rest 20 (omega (arith, s.whole)),
        read_le32-append l rest 24 (omega (arith, s.whole)),
        s.size_field,
        s.header_field,
        s.signature_field,
        payload,
        mul-mod_left s.signatures s.signature_size,
      )
      (ground (arith, s.whole, s.owned, length-append l rest))

sigdb_list-some : (p : Bytes) → (r : Option ℕ) × (sigdb_list p (length p) ≡ some r)
unfolding sigdb_list
sigdb_list-some p = elim (Bool-cases (ltb (length p) 28)) [
  | inl short ↦ rw short (none, refl)
  | inr long ↦
      let (size, e0) = read_le32-some p 16 (ground arith) in
      let (header, e1) = read_le32-some p 20 (ground arith) in
      let (signature, e2) = read_le32-some p 24 (ground arith) in rw (long, e0, e1, e2) (_, refl)
]

-- An accepted list is what its own fields say.
sigdb_list_sound :
    (p : Bytes) (n : ℕ)
    → sigdb_list p (length p) ≡ some (some n)
    → (28 ≤ n) × (n ≤ length p) × IsSigList (take n p)
unfolding sigdb_list
sigdb_list_sound p n h = elim (Bool-cases (ltb (length p) 28)) [
  | inl short ↦ absurd (ground arith)
  | inr long ↦
      let (size, e0) = read_le32-some p 16 (ground arith) in
      let (header, e1) = read_le32-some p 20 (ground arith) in
      let (signature, e2) = read_le32-some p 24 (ground arith) in
      let payload = size - 28 - header in
      let same : size ≡ n = ground arith in
      let bounds : (28 ≤ size)
          × (size ≤ length p)
          × (header ≤ size - 28)
          × (16 < signature)
          × (signature ≤ payload)
          × (payload % signature ≡ 0) =
        ground arith in
      let all : payload / signature * signature ≡ payload =
        omega (arith, div-add-mod' payload signature) in
      let size_is : length (take size p) ≡ size = omega (arith, length-take size p) in
      rw (← same) (
        bounds.0,
        bounds.1,
        record {
          header_size = header;
          signature_size = signature;
          signatures = payload / signature;
          size_field = rw (read_le32-take size p 16 (omega arith), size_is) e0;
          header_field = rw (read_le32-take size p 20 (omega arith)) e1;
          signature_field = rw (read_le32-take size p 24 (omega arith)) e2;
          whole = rw size_is (omega arith);
          nonempty =
              quotient_pos payload signature (payload / signature) all (omega arith) (omega arith);
          owned = bounds.3;
        },
      )
]

-- The loop counts the lists in front of it.
sigdb_loop-SigDb :
    {p : Bytes} {n : ℕ} (fuel count : ℕ)
    → SigDb p n
    → length p < fuel
    → sigdb_loop fuel p (length p) count ≡ some (count + n)
unfolding sigdb_loop
sigdb_loop-SigDb zero count d h = absurd (omega arith)
sigdb_loop-SigDb (suc fuel) count end h = ap some (omega arith)
sigdb_loop-SigDb (suc fuel) count (list {buf} {n} l rest e s d) h =
    let sizes : length buf ≡ length l + length rest = ap length e ∙ length-append l rest in
    let more : (length buf == 0) ≡ false = ground (arith, s.whole) in
    let this : sigdb_list buf (length buf) ≡ some (some (length l)) =
      rw e (sigdb_list-IsSigList l rest s) in
    let left : length buf - length l ≡ length rest = omega arith in
    let behind : drop (length l) buf ≡ rest = rw e (drop-append l rest) in
    rw (more, this, left, behind, sigdb_loop-SigDb fuel (count + 1) d (omega (arith, s.whole)))
      (ap some (omega arith))

-- What the loop may answer: 0, or the number of the lists that the bytes are made of.
record LoopAnswer (p : Bytes) (count : ℕ) (m : Option ℕ) : Type 0 where
  answer : ℕ
  given : m ≡ some answer
  counts : answer ≢ 0 → (n : ℕ) × SigDb p n × (answer ≡ count + n)

LoopAnswer-list :
    (p : Bytes) (count size : ℕ) {m : Option ℕ}
    → size ≤ length p
    → IsSigList (take size p)
    → LoopAnswer (drop size p) (count + 1) m
    → LoopAnswer p count m
LoopAnswer-list p count size inside s r = record {
  answer = r.answer;
  given = r.given;
  counts = λ ne.
      let (n, d, e) = r.counts ne in
      (suc n, list (take size p) (drop size p) (sym (take-append-drop size p)) s d, omega arith);
}

sigdb_loop-LoopAnswer :
    (fuel : ℕ) (p : Bytes) (count : ℕ)
    → length p < fuel
    → LoopAnswer p count (sigdb_loop fuel p (length p) count)
unfolding sigdb_loop
sigdb_loop-LoopAnswer zero p count h = absurd (omega arith)
sigdb_loop-LoopAnswer (suc fuel) [] count h = record {
  answer = count;
  given = refl;
  counts = λ ne. (0, end, omega arith);
}
sigdb_loop-LoopAnswer (suc fuel) (b ∷ p) count h =
    let buf = b ∷ p in
    let more : (length buf == 0) ≡ false = ground arith in
    let (listed, e) = sigdb_list-some buf in
    rw (more, e) (after (λ q small. sigdb_loop-LoopAnswer fuel q (count + 1) small) listed e)
  where
    after :
        ((q : Bytes)
          → length q < fuel
          → LoopAnswer q (count + 1) (sigdb_loop fuel q (length q) (count + 1)))
        → (listed : Option ℕ) → sigdb_list (b ∷ p) (length (b ∷ p)) ≡ some listed
        → LoopAnswer (b ∷ p) count (elim listed [
          | none ↦ some 0
          | some size ↦ sigdb_loop fuel (drop size (b ∷ p)) (length (b ∷ p) - size) (count + 1)
        ])
    after go none e = record { answer = 0; given = refl; counts = λ ne. absurd (ne refl) }
    after go (some size) e =
        let buf = b ∷ p in
        let (least, inside, s) = sigdb_list_sound buf size e in
        let left : length buf - size ≡ length (drop size buf) =
          omega (arith, length-drop size buf) in
        rw left (
          LoopAnswer-list buf count size inside s
            (go (drop size buf) (omega (arith, length-drop size buf))))

sigdb_loop_done : (p : Bytes) → length p ≡ 0 → sigdb_loop (suc (length p)) p (length p) 0 ≡ some 0
unfolding sigdb_loop
sigdb_loop_done [] h = refl
sigdb_loop_done (b ∷ p) h = absurd (omega arith)

count_efi_sigdb_lists-loop :
    (attributes p : Bytes)
    → length attributes ≡ 4
    → count_efi_sigdb_lists (attributes ++ p) ≡ sigdb_loop (suc (length p)) p (length p) 0
unfolding count_efi_sigdb_lists
count_efi_sigdb_lists-loop attributes p h =
    let size : length (attributes ++ p) ≡ 4 + length p =
      omega (arith, length-append attributes p) in
    let left : length (attributes ++ p) - 4 ≡ length p = omega arith in
    let behind : drop 4 (attributes ++ p) ≡ p =
      ap (λ k. drop k (attributes ++ p)) (sym h) ∙ drop-append attributes p in
    elim (Bool-cases (leb (4 + length p) 4)) [
      | inl nothing ↦
          rw (size, nothing)
            (sym (sigdb_loop_done p (ground (arith, leb→le (4 + length p) 4 nothing))))
      | inr more ↦ rw (left, behind, size, more)
    ]

-- A database of `n` lists behind its attributes is counted as `n`.
pub count_efi_sigdb_lists-SigDb :
    (attributes : Bytes) {p : Bytes} {n : ℕ}
    → length attributes ≡ 4
    → SigDb p n
    → count_efi_sigdb_lists (attributes ++ p) ≡ some n
count_efi_sigdb_lists-SigDb attributes {p} {n} h d =
    count_efi_sigdb_lists-loop attributes p h
    ∙ sigdb_loop-SigDb (suc (length p)) 0 d (omega arith)
    ∙ ap some (zero-add n)

-- Counting stays inside the variable and ends. If it answers other than 0, the bytes behind the
-- attributes are exactly that many signature lists.
pub count_efi_sigdb_lists_sound :
    (attributes p : Bytes)
    → length attributes ≡ 4
    → (answer : ℕ) × (count_efi_sigdb_lists (attributes ++ p) ≡ some answer)
      × (answer ≢ 0 → SigDb p answer)
count_efi_sigdb_lists_sound attributes p h =
    let r = sigdb_loop-LoopAnswer (suc (length p)) p 0 (omega arith) in
    (
      r.answer,
      count_efi_sigdb_lists-loop attributes p h ∙ r.given,
      λ ne. let (n, d, e) = r.counts ne in rw (e ∙ zero-add n) d,
    )
