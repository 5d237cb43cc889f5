-- ===== src/Tests/Posture.antt =====
-- Subgroups, their counts and the exit code, at concrete checks.
use bythos.Base.{
  ◌≡◌, refl, false, some, [], ◌∷◌, arith, All, codes, take, length-take, ltb, if◌then◌else◌,
}
use bythos.Posture.Types.{Results, make_result, check_ok, check_fail}
use bythos.Posture.Summary.{no_counts, CountsOf, count_in}
use bythos.Posture.Groups.{SubgroupCheckFn, SubgroupDef, run_subgroup, run_subgroups}
use bythos.Posture.Groups.Bounds.{InTable, run_subgroups-InTable}
use bythos.Posture.Groups.Order.{Keeps, concat, run_subgroup-Keeps}
use bythos.Posture.Main.{
  opt_json, merge_all, shown, run_main, exit_code, max_group_subgroups, run_report-CountsOf,
  exit_code-run_main,
}

abbrev passes : Results
passes = make_result (codes "TPM presence") check_ok (some (codes "TPM 2.0 device visible")) ∷ []

abbrev fails : Results
fails = make_result (codes "Intel DCI") check_fail (some (codes "DCI enabled")) ∷ []

abbrev reporter : Results → SubgroupCheckFn
reporter all n = take n all

abbrev two_checks : SubgroupDef
two_checks = record { name = codes "tpm"; fns = reporter passes ∷ reporter fails ∷ [] }

run_subgroup-Keeps_example : Keeps (run_subgroup two_checks) (concat (passes ∷ fails ∷ []))
run_subgroup-Keeps_example =
    run_subgroup-Keeps two_checks (passes ∷ fails ∷ []) (omega arith)
      ((λ n. refl), ((λ n. refl), tt))

run_subgroups-InTable_example : All InTable (run_subgroups (two_checks ∷ []) 16)
run_subgroups-InTable_example = run_subgroups-InTable (two_checks ∷ []) 16 (
  ((λ n. omega (arith, length-take n passes)), ((λ n. omega (arith, length-take n fails)), tt)),
  tt,
)

run_report-CountsOf_example :
    CountsOf no_counts
      (merge_all no_counts (run_subgroups (two_checks ∷ []) max_group_subgroups))
      (shown (run_subgroups (two_checks ∷ []) max_group_subgroups))
run_report-CountsOf_example = run_report-CountsOf (two_checks ∷ [])

exit_code-run_main_example : exit_code (run_main (opt_json ∷ []) false (two_checks ∷ [])) ≡ (
    if ltb 0 (count_in check_fail (shown (run_subgroups (two_checks ∷ []) max_group_subgroups)))
    then 1
    else 0)
exit_code-run_main_example = exit_code-run_main (opt_json ∷ []) (two_checks ∷ []) (refl, tt)

failing_run : exit_code (run_main [] false (two_checks ∷ [])) ≡ 1
unfolding run_main run_subgroups make_result codes
failing_run = refl

passing_run :
    exit_code (run_main [] false (record { name = codes "tpm"; fns = reporter passes ∷ [] } ∷ []))
    ≡ 0
unfolding run_main run_subgroups make_result codes
passing_run = refl
