-- ===== src/Checks/Room.antt =====
-- What a check writes of all that it has to report: the first results that there is room for.
use bythos.Base.{
  ◌∷◌, [], ℕ, zero, suc, ◌-◌, ◌≡◌, refl, sym, ◌++◌, arith, length, take, leb, take-append,
  length-take, false, Option, some,
}
use bythos.Posture.Types.{CheckResult, Results, emit_all-nil}
use bythos.Checks.Tools.{emit_guarded, behind_written, with_row}

-- There is an answer: no read went outside its buffer.
abbrev pub Answers {ℓ} : {A : Type ℓ} → Option A → Type ℓ
Answers {A = A} o = (a : A) × (o ≡ some a)

-- A guard in front of an emission changes nothing.
pub emit_guarded-take :
    (max_results : ℕ) (todo : Results) → emit_guarded max_results todo ≡ take max_results todo
unfolding emit_guarded
emit_guarded-take zero todo = refl
emit_guarded-take (suc n) todo =
    let room : leb (suc n) 0 ≡ false = ground arith in rw room (emit_all-nil (suc n) todo)

-- The second part of a report in the room that the first has left.
pub take_behind_written :
    (n : ℕ) (xs ys : Results) → take n xs ++ take (n - length (take n xs)) ys ≡ take n (xs ++ ys)
take_behind_written n xs ys =
    let left : n - length (take n xs) ≡ n - length xs = omega (arith, length-take n xs) in
    rw left (sym (take-append n xs ys))

-- The same for a part that keeps to its room, and for one row.
pub behind_written-take :
    (n : ℕ) (written xs ys : Results) (part : ℕ → Results)
    → written ≡ take n xs
    → ((m : ℕ) → part m ≡ take m ys)
    → behind_written n written part ≡ take n (xs ++ ys)
behind_written-take n written xs ys part e p =
    rw (e, p (n - length (take n xs))) (take_behind_written n xs ys)

pub with_row-take :
    (n : ℕ) (row : CheckResult) (written rows : Results)
    → written ≡ take n rows
    → with_row n row written ≡ take n (rows ++ row ∷ [])
with_row-take n row written rows e =
    behind_written-take n written rows (row ∷ []) (λ room. emit_guarded room (row ∷ [])) e
      (λ m. emit_guarded-take m (row ∷ []))
