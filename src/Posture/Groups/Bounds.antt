-- ===== src/Posture/Groups/Bounds.antt =====
-- The table of a subgroup is never overrun, and its counts are those of the results kept.
use bythos.Base.{
  ℕ, zero, suc, ◌+◌, ◌-◌, ◌≤◌, ◌≡◌, refl, List, [], ◌∷◌, arith, All, All-take, length, take,
  length-append, length-take,
}
use bythos.Posture.Types.{Results}
use bythos.Posture.Summary.{no_counts, CountsOf, add_all-CountsOf}
use bythos.Posture.Groups.{
  run_check, max_subgroup_results, subgroup_max_fns, CheckSubgroup, SubgroupCheckFn, SubgroupDef,
  subgroup_init, run_check, run_checks, run_subgroup, run_subgroups,
}

-- A check writes no more results than it was given room for.
abbrev pub StaysInside : SubgroupCheckFn → Type 0
StaysInside fn = (n : ℕ) → length (fn n) ≤ n

pub record InTable (sg : CheckSubgroup) : Type 0 where
  pub counted : sg.result_count ≤ max_subgroup_results
  pub written : sg.result_count ≤ length sg.results
  pub in_array : length sg.results ≤ max_subgroup_results + 1

run_check-InTable :
    (fn : SubgroupCheckFn) (sg : CheckSubgroup)
    → StaysInside fn
    → InTable sg
    → InTable (run_check fn sg)
unfolding run_check
run_check-InTable fn sg inside t =
    let written = fn (max_subgroup_results - sg.result_count + 1) in
    ground (
      arith,
      inside (max_subgroup_results - sg.result_count + 1),
      length-append (take sg.result_count sg.results) written,
      length-take sg.result_count sg.results,
    )

run_checks-InTable :
    (fns : List SubgroupCheckFn) (sg : CheckSubgroup)
    → All StaysInside fns
    → InTable sg
    → InTable (run_checks fns sg)
unfolding run_checks
run_checks-InTable [] sg h t = t
run_checks-InTable (fn ∷ fns) sg (h, hs) t =
    ground (arith, run_checks-InTable fns (run_check fn sg) hs (run_check-InTable fn sg h t))

run_subgroup-InTable : (def : SubgroupDef) → All StaysInside def.fns → InTable (run_subgroup def)
unfolding run_subgroup
run_subgroup-InTable def h =
    let fns = take subgroup_max_fns def.fns in
    let hs = All-take StaysInside subgroup_max_fns def.fns h in
    let t = run_checks-InTable fns (subgroup_init def.name) hs (omega arith) in
    record { counted = t.counted; written = t.written; in_array = t.in_array }

-- What `run_subgroups` returns: every table is within bounds.
pub run_subgroups-InTable :
    (defs : List SubgroupDef) (max_subgroups : ℕ)
    → All (λ def. All StaysInside def.fns) defs
    → All InTable (run_subgroups defs max_subgroups)
unfolding run_subgroups
run_subgroups-InTable defs zero h = tt
run_subgroups-InTable [] (suc n) h = tt
run_subgroups-InTable (def ∷ defs) (suc n) (h, hs) =
    (run_subgroup-InTable def h, run_subgroups-InTable defs n hs)

-- The results that a subgroup shows.
abbrev pub kept_results : CheckSubgroup → Results
kept_results sg = take sg.result_count sg.results

run_checks-summary :
    (fns : List SubgroupCheckFn) (sg : CheckSubgroup) → (run_checks fns sg).summary ≡ sg.summary
unfolding run_checks
run_checks-summary [] sg = refl
run_checks-summary (fn ∷ fns) sg = ground (arith, run_checks-summary fns (run_check fn sg))

run_subgroup-CountsOf :
    (def : SubgroupDef)
    → CountsOf no_counts (run_subgroup def).summary (kept_results (run_subgroup def))
unfolding run_subgroup
run_subgroup-CountsOf def =
    let sg = run_checks (take subgroup_max_fns def.fns) (subgroup_init def.name) in
    rw (run_checks-summary (take subgroup_max_fns def.fns) (subgroup_init def.name))
      (add_all-CountsOf (take sg.result_count sg.results) no_counts)

-- The counts of every subgroup are those of the results that it shows.
pub run_subgroups-CountsOf :
    (defs : List SubgroupDef) (max_subgroups : ℕ)
    → All (λ sg. CountsOf no_counts sg.summary (kept_results sg)) (run_subgroups defs max_subgroups)
unfolding run_subgroups
run_subgroups-CountsOf defs zero = tt
run_subgroups-CountsOf [] (suc n) = tt
run_subgroups-CountsOf (def ∷ defs) (suc n) =
    (run_subgroup-CountsOf def, run_subgroups-CountsOf defs n)
