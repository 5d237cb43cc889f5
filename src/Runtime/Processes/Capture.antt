-- ===== src/Runtime/Processes/Capture.antt =====
-- What is kept of a program's output.
use bythos.Base.{
  ℕ, ◌+◌, ◌-◌, ◌≤◌, ◌<◌, ◌≡◌, refl, sym, ap, ◌∙◌, Bool, true, ◌||◌, List, [], ◌∷◌, ◌++◌, arith,
  Bytes, All, length, take, ltb, if◌then◌else◌, concat, append_assoc, append-nil, length-append,
  length-take, take_all, take_prefix, take-append, Bool-cases, inl, inr,
}
use bythos.Runtime.Processes.{capture_from}

abbrev pub IsRead : Bytes → Type 0
IsRead chunk = 0 < length chunk

-- The first bytes of a text behind one that leaves room for `r` of them.
take_behind :
    (n r : ℕ) (text rest : Bytes)
    → length text + r ≡ n
    → take n (text ++ rest) ≡ text ++ take r rest
take_behind n r text rest h =
    let left : n - length text ≡ r = omega arith in
    take-append n text rest ∙ rw (left, take_all n text (omega arith)) refl

-- The buffer is full behind a part of the chunk.
take_cut :
    (n r : ℕ) (text chunk rest : Bytes)
    → length text + r ≡ n
    → r ≤ length chunk
    → take n ((text ++ take r chunk) ++ rest) ≡ take n (text ++ (chunk ++ rest))
take_cut n r text chunk rest h fits =
    let cut = text ++ take r chunk in
    let full : length cut ≡ n =
      omega (arith, length-append text (take r chunk), length-take r chunk) in
    take_prefix n cut rest (omega arith)
    ∙ take_all n cut (omega arith)
    ∙ sym (
        take_behind n r text (chunk ++ rest) h
        ∙ ap (λ (rest : Bytes). text ++ rest) (take_prefix r chunk rest fits))

pair_eq : {a b : Bytes} {p q : Bool} → a ≡ b → p ≡ q → ◌≡◌ {A = Bytes × Bool} (a, p) (b, q)
pair_eq e f i = (e i, f i)

module _ (size : ℕ) where
  -- What is kept are the first bytes that fit with a NUL, and there were more exactly where the output
  -- is said to be truncated.
  pub capture_from-take :
      (chunks : List Bytes) (text : Bytes) (truncated : Bool)
      → length text < size
      → All IsRead chunks
      → capture_from size chunks text truncated ≡ (
        take (size - 1) (text ++ concat chunks),
        truncated || ltb (size - 1) (length (text ++ concat chunks)),
      )
  unfolding capture_from
  capture_from-take [] text truncated h reads =
      pair_eq
        (sym (ap (take (size - 1)) (append-nil text) ∙ take_all (size - 1) text (omega arith)))
        (ground (arith, ap length (append-nil text)))
  capture_from-take (chunk ∷ chunks) text truncated h (read, reads) =
      elim (Bool-cases (ltb (length text + 1) size)) [
        | inl room ↦
            let r = size - length text - 1 in
            let kept = text ++ take r chunk in
            let fits : length kept < size =
              omega (arith, length-append text (take r chunk), length-take r chunk) in
            let rest = concat chunks in
            let ih =
              capture_from-take chunks kept (if ltb r (length chunk) then true else truncated) fits
                reads in
            elim (Bool-cases (ltb r (length chunk))) [
              | inl over ↦
                  rw (room, capture_from)
                    (ih
                      ∙ pair_eq (take_cut (size - 1) r text chunk rest (omega arith) (ground arith))
                          (ground (
                            arith,
                            length-append kept rest,
                            length-append text (take r chunk),
                            length-take r chunk,
                            length-append text (chunk ++ rest),
                            length-append chunk rest,
                          )))
              | inr whole ↦
                  rw (room, capture_from)
                    (ih
                      ∙ pair_eq
                          (ap (λ (t : Bytes). take (size - 1) ((text ++ t) ++ rest))
                              (take_all r chunk (ground arith))
                            ∙ ap (take (size - 1)) (append_assoc text chunk rest))
                          (ground (
                            arith,
                            length-append kept rest,
                            length-append text (take r chunk),
                            length-take r chunk,
                            length-append text (chunk ++ rest),
                            length-append chunk rest,
                          )))
            ]
        | inr full ↦
            let full_text : size - 1 ≡ length text = ground arith in
            rw (full, capture_from)
              (capture_from-take chunks text true h reads
                ∙ pair_eq
                    (take_prefix (size - 1) text (concat chunks) (omega arith)
                      ∙ sym (take_prefix (size - 1) text (chunk ++ concat chunks) (omega arith)))
                    (ground (
                      arith,
                      length-append text (concat chunks),
                      length-append text (chunk ++ concat chunks),
                      length-append chunk (concat chunks),
                    )))
      ]
