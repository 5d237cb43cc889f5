-- ===== src/Silicon/Cpu/Fuel.antt =====
-- The loop over the lines of the PCR bank comes to its end: more fuel than bytes changes nothing.
use bythos.Base.{
  ℕ, zero, suc, ◌≤◌, ◌≡◌, refl, [], ◌∷◌, arith, Bytes, length, drop, length-drop, drop_while,
  length-drop_while,
}
use bythos.Silicon.Cpu.{not_newline, pcr_from}

-- Fuel of at least the bytes that are left gives the answer of the whole bank.
pub pcr_from_enough :
    (f g : ℕ) (text prefix : Bytes)
    → length text ≤ f
    → length text ≤ g
    → pcr_from f text prefix ≡ pcr_from g text prefix
unfolding pcr_from
pcr_from_enough zero zero text prefix hf hg = refl
pcr_from_enough zero (suc g) [] prefix hf hg = refl
pcr_from_enough (suc f) zero [] prefix hf hg = refl
pcr_from_enough (suc f) (suc g) [] prefix hf hg = refl
pcr_from_enough zero (suc g) (c ∷ s) prefix hf hg = absurd (omega arith)
pcr_from_enough (suc f) zero (c ∷ s) prefix hf hg = absurd (omega arith)
pcr_from_enough (suc f) (suc g) (c ∷ s) prefix hf hg =
    let rest = drop 1 (drop_while not_newline (c ∷ s)) in
    let shorter : length rest ≤ length s = omega (
      arith,
      length-drop 1 (drop_while not_newline (c ∷ s)),
      length-drop_while not_newline (c ∷ s),
    ) in
    rw (pcr_from_enough f g rest prefix (omega arith) (omega arith), pcr_from) refl
