-- ===== src/Posture/Groups/Order.antt =====
-- A subgroup keeps the reports of its checks in order, up to the size of the table.
use bythos.Base.{
  ℕ, ◌+◌, ◌-◌, ◌≤◌, ◌<◌, ◌≡◌, refl, sym, ◌∙◌, true, List, [], ◌∷◌, ◌++◌, arith, length, take,
  append_assoc, append-nil, length-append, length-take, take-append, take-take, take_prefix,
  take_all, min, ltb, leb, if◌then◌else◌, Bool-cases, inl, inr, take_past, leb→le,
}
use bythos.Posture.Types.{Results}
use bythos.Posture.Groups.{
  max_subgroup_results, subgroup_max_fns, CheckSubgroup, SubgroupCheckFn, SubgroupDef,
  subgroup_init, run_check, run_checks, run_subgroup,
}

-- A check has `all` to report, and writes as much of it as it is given room for.
abbrev pub Reports : SubgroupCheckFn → Results → Type 0
Reports fn all = (n : ℕ) → fn n ≡ take n all

abbrev pub ReportsInOrder : List SubgroupCheckFn → List Results → Type 0
ReportsInOrder [] [] = Unit
ReportsInOrder (fn ∷ fns) (all ∷ alls) = Reports fn all × ReportsInOrder fns alls
ReportsInOrder _ _ = ⊥

abbrev pub concat : List Results → Results
concat [] = []
concat (rs ∷ rss) = rs ++ concat rss

pub record Keeps (sg : CheckSubgroup) (reported : Results) : Type 0 where
  pub kept : take sg.result_count sg.results ≡ take max_subgroup_results reported
  pub counted : sg.result_count ≡ min max_subgroup_results (length reported)
  pub marked : max_subgroup_results < length reported → sg.truncated ≡ true
  pub not_marked : sg.truncated ≡ true → max_subgroup_results ≤ length reported

-- What one check adds, cut to the room that is left.
take_written :
    (room : ℕ) (all : Results)
    → take
        (if ltb room (length (take (room + 1) all)) then room else length (take (room + 1) all))
        (take (room + 1) all)
      ≡ take room all
take_written room all = elim (Bool-cases (ltb room (length (take (room + 1) all)))) [
  | inl over ↦ rw over (take-take room (room + 1) all (omega arith))
  | inr fits ↦
      let short : length all ≤ room = ground (arith, length-take (room + 1) all) in
      rw (fits, take_all (room + 1) all (omega arith), take_all room all short)
        (take_all (length all) all (omega arith))
]

module _ (fn : SubgroupCheckFn) (sg : CheckSubgroup) (reported all : Results) (r : Reports fn all)
    (free : sg.result_count < max_subgroup_results) (k : Keeps sg reported) where
  abbrev room : ℕ
  room = max_subgroup_results - sg.result_count

  length-written : length (fn (room + 1)) ≡ min (room + 1) (length all)
  length-written = rw (r (room + 1)) (length-take (room + 1) all)

  length-kept : length (take sg.result_count sg.results) ≡ sg.result_count
  length-kept = rw k.kept (omega (arith, k.counted, length-take max_subgroup_results reported))

  run_check-kept :
      take (run_check fn sg).result_count (run_check fn sg).results
      ≡ take max_subgroup_results (reported ++ all)
  unfolding run_check
  run_check-kept =
      let left : max_subgroup_results - length reported ≡ room = omega (arith, k.counted) in
      rw (
        take_past sg.result_count _ (take sg.result_count sg.results) (fn (room + 1)) length-kept,
        k.kept,
        r (room + 1),
        take_written room all,
        take-append max_subgroup_results reported all,
        left,
      )

  run_check-Keeps : Keeps (run_check fn sg) (reported ++ all)
  unfolding run_check
  run_check-Keeps = record {
    kept = run_check-kept;
    counted = ground (arith, k.counted, length-written, length-append reported all);
    marked = λ h. ground (arith, k.counted, length-written, length-append reported all);
    not_marked =
        λ h. ground (arith, k.counted, k.not_marked, length-written, length-append reported all);
  }

-- A full table: what comes later is left out.
full-Keeps :
    (sg : CheckSubgroup) (reported more : Results)
    → max_subgroup_results ≤ sg.result_count
    → Keeps sg reported
    → Keeps (record sg { truncated = true }) (reported ++ more)
full-Keeps sg reported more full k =
    let long : max_subgroup_results ≤ length reported = omega (arith, k.counted) in
    let sum = length-append reported more in
    record {
      kept = k.kept ∙ sym (take_prefix max_subgroup_results reported more long);
      counted = omega (arith, k.counted, sum);
      marked = λ _. refl;
      not_marked = λ _. omega (arith, sum);
    }

run_checks-Keeps :
    (fns : List SubgroupCheckFn) (alls : List Results) (sg : CheckSubgroup) (reported : Results)
    → ReportsInOrder fns alls
    → Keeps sg reported
    → Keeps (run_checks fns sg) (reported ++ concat alls)
unfolding run_checks
run_checks-Keeps [] [] sg reported r k = rw append-nil k
run_checks-Keeps [] (all ∷ alls) sg reported r k = elim r [ ]
run_checks-Keeps (fn ∷ fns) [] sg reported r k = elim r [ ]
run_checks-Keeps (fn ∷ fns) (all ∷ alls) sg reported (r, rs) k =
    elim (Bool-cases (leb max_subgroup_results sg.result_count)) [
      | inl full ↦ rw full (full-Keeps sg reported (concat (all ∷ alls)) (leb→le _ _ full) k)
      | inr free ↦
          let k' = run_check-Keeps fn sg reported all r (ground arith) k in
          rw (free, ← append_assoc reported all (concat alls))
            (run_checks-Keeps fns alls (run_check fn sg) (reported ++ all) rs k')
    ]

-- The results that a subgroup ends with are the first of all that its checks report, in order, and
-- it is marked as truncated if some of them are left out.
pub run_subgroup-Keeps :
    (def : SubgroupDef) (alls : List Results)
    → length def.fns ≤ subgroup_max_fns
    → ReportsInOrder def.fns alls
    → Keeps (run_subgroup def) (concat alls)
unfolding run_subgroup
run_subgroup-Keeps def alls fits r =
    let start : Keeps (subgroup_init def.name) [] = record {
      kept = refl;
      counted = refl;
      marked = λ h. absurd (omega arith);
      not_marked = λ h. cc;
    } in
    let k = run_checks-Keeps def.fns alls (subgroup_init def.name) [] r start in
    rw (take_all subgroup_max_fns def.fns fits)
      (record { kept = k.kept; counted = k.counted; marked = k.marked; not_marked = k.not_marked })
