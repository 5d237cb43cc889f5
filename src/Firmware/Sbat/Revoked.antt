-- ===== src/Firmware/Sbat/Revoked.antt =====
-- The verdict on the installed generations against the revoked minimums.
use bythos.Base.{
  ℕ, ◌≤◌, ◌≡◌, ◌↔◌, refl, Bool, true, false, none, List, [], ◌∷◌, arith, All, ltb, if◌then◌else◌,
  Bool-cases, inl, inr, equal, equal_sound, equal_refl,
}
use bythos.Firmware.Sbat.{SbatEntry, worst_revoked, below_minimum, first_revoked}

-- The entry meets every revocation of its component.
abbrev pub Satisfies : List SbatEntry → SbatEntry → Type 0
Satisfies revoked e = All (λ r. e.component ≡ r.component → r.generation ≤ e.generation) revoked

worst_revoked-Satisfies :
    (e : SbatEntry) (revoked : List SbatEntry) (any : Bool) (worst : ℕ)
    → below_minimum e (worst_revoked e revoked any worst) ≡ false
    → Satisfies revoked e × (any ≡ true → worst ≤ e.generation)
unfolding worst_revoked
worst_revoked-Satisfies e [] any worst h = (tt, ground arith)
worst_revoked-Satisfies e (r ∷ revoked) any worst h =
    elim (Bool-cases (equal e.component r.component)) [
      | inl same ↦
          let worse = if ltb worst r.generation then r.generation else worst in
          let (rest, bound) =
            worst_revoked-Satisfies e revoked true worse (rw (same, worst_revoked) at h) in
          let most : worse ≤ e.generation = bound refl in
          (((λ _. ground arith), rest), λ _. ground arith)
      | inr other ↦
          let (rest, bound) =
            worst_revoked-Satisfies e revoked any worst (rw (other, worst_revoked) at h) in
          (((λ eq. absurd (ground (arith, equal_refl e.component))), rest), bound)
    ]

Satisfies-worst_revoked :
    (e : SbatEntry) (revoked : List SbatEntry) (any : Bool) (worst : ℕ)
    → Satisfies revoked e
    → worst ≤ e.generation
    → below_minimum e (worst_revoked e revoked any worst) ≡ false
unfolding worst_revoked
Satisfies-worst_revoked e [] any worst h bound = ground arith
Satisfies-worst_revoked e (r ∷ revoked) any worst (h, hs) bound =
    elim (Bool-cases (equal e.component r.component)) [
      | inl same ↦
          let worse = if ltb worst r.generation then r.generation else worst in
          let least : r.generation ≤ e.generation = h (equal_sound e.component r.component same) in
          rw (same, worst_revoked) (Satisfies-worst_revoked e revoked true worse hs (ground arith))
      | inr other ↦ rw (other, worst_revoked) (Satisfies-worst_revoked e revoked any worst hs bound)
    ]

none-Satisfies :
    (installed revoked : List SbatEntry)
    → first_revoked installed revoked ≡ none
    → All (Satisfies revoked) installed
unfolding first_revoked
none-Satisfies [] revoked h = tt
none-Satisfies (e ∷ installed) revoked h =
    elim (Bool-cases (below_minimum e (worst_revoked e revoked false 0))) [
      | inl below ↦ absurd (ground arith)
      | inr above ↦ (
        (worst_revoked-Satisfies e revoked false 0 above).0,
        none-Satisfies installed revoked (rw (above, first_revoked) at h),
      )
    ]

Satisfies-none :
    (installed revoked : List SbatEntry)
    → All (Satisfies revoked) installed
    → first_revoked installed revoked ≡ none
unfolding first_revoked
Satisfies-none [] revoked h = refl
Satisfies-none (e ∷ installed) revoked (h, hs) =
    rw (Satisfies-worst_revoked e revoked false 0 h (omega arith), first_revoked)
      (Satisfies-none installed revoked hs)

-- No installed entry is reported exactly when each has at least the generation of every revocation
-- of its component.
pub first_revoked-none :
    (installed revoked : List SbatEntry)
    → (first_revoked installed revoked ≡ none) ↔ All (Satisfies revoked) installed
first_revoked-none installed revoked =
    (none-Satisfies installed revoked, Satisfies-none installed revoked)
