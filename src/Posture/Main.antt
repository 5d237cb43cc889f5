-- ===== src/Posture/Main.antt =====
-- src/main.c: the options, the overall counts, and the exit code.
use bythos.Base.{
  ℕ, ◌+◌, ◌≡◌, refl, Bool, false, List, [], ◌∷◌, ◌++◌, arith, All, ltb, if◌then◌else◌,
}
use bythos.Posture.Types.{Results, CheckState, check_ok, check_warn, check_fail, check_skip}
use bythos.Posture.Summary.{PostureSummary, no_counts, summary_merge, CountsOf, count_in}
use bythos.Posture.Groups.{CheckSubgroup, SubgroupDef, run_subgroups}
use bythos.Posture.Groups.Bounds.{kept_results, run_subgroups-CountsOf}

abbrev pub max_group_subgroups : ℕ
max_group_subgroups = 16

-- What `getopt_long` returns, one by one; `opt_bad` is its answer to an unknown option.
pub data Opt : Type 0 where
  opt_help opt_json opt_version opt_bad : Opt

pub data RenderMode : Type 0 where
  render_plain render_json : RenderMode

-- What the program shows, with its exit code.
pub data Outcome : Type 0 where
  usage_shown : ℕ → Outcome
  version_shown : Outcome
  rendered : RenderMode → List CheckSubgroup → PostureSummary → ℕ → Outcome

-- The loop over the options: it goes on with a mode, or returns.
pub data Parsed : Type 0 where
  go_on : RenderMode → Parsed
  stop : Outcome → Parsed

unfoldable pub parse_options : List Opt → RenderMode → Parsed
parse_options [] mode = go_on mode
parse_options (opt_help ∷ opts) mode = stop (usage_shown 0)
parse_options (opt_json ∷ opts) mode = parse_options opts render_json
parse_options (opt_version ∷ opts) mode = stop version_shown
parse_options (opt_bad ∷ opts) mode = stop (usage_shown 2)

unfoldable pub merge_all : PostureSummary → List CheckSubgroup → PostureSummary
unfolding summary_merge
merge_all summary [] = summary
merge_all summary (sg ∷ sgs) = merge_all (summary_merge summary sg.summary) sgs

unfoldable pub run_report : RenderMode → List SubgroupDef → Outcome
unfolding merge_all
run_report mode defs =
    let subgroups = run_subgroups defs max_group_subgroups in
    let overall = merge_all no_counts subgroups in
    rendered mode subgroups overall (if ltb 0 overall.fail_count then 1 else 0)

-- `operands` is `optind < argc`: something is left behind the options.
unfoldable pub run_main : List Opt → Bool → List SubgroupDef → Outcome
unfolding parse_options run_report
run_main opts operands defs = elim (parse_options opts render_plain) [
  | stop outcome ↦ outcome
  | go_on mode ↦ if operands then usage_shown 2 else run_report mode defs
]

abbrev pub exit_code : Outcome → ℕ
exit_code (usage_shown code) = code
exit_code version_shown = 0
exit_code (rendered mode subgroups overall code) = code

-- All that the report shows, in order.
abbrev pub shown : List CheckSubgroup → Results
shown [] = []
shown (sg ∷ sgs) = kept_results sg ++ shown sgs

count_in-append :
    (c : CheckState) (xs ys : Results) → count_in c (xs ++ ys) ≡ count_in c xs + count_in c ys
unfolding count_in
count_in-append c [] ys = omega arith
count_in-append c (x ∷ xs) ys = omega (arith, count_in-append c xs ys)

merge_all-CountsOf :
    (sgs : List CheckSubgroup) (s : PostureSummary)
    → All (λ sg. CountsOf no_counts sg.summary (kept_results sg)) sgs
    → CountsOf s (merge_all s sgs) (shown sgs)
unfolding merge_all count_in
merge_all-CountsOf [] s h = omega arith
merge_all-CountsOf (sg ∷ sgs) s (h, hs) = omega (
  arith,
  merge_all-CountsOf sgs (summary_merge s sg.summary) hs,
  count_in-append check_ok (kept_results sg) (shown sgs),
  count_in-append check_warn (kept_results sg) (shown sgs),
  count_in-append check_fail (kept_results sg) (shown sgs),
  count_in-append check_skip (kept_results sg) (shown sgs),
)

-- The overall counts are those of all results shown.
pub run_report-CountsOf :
    (defs : List SubgroupDef)
    → CountsOf no_counts
        (merge_all no_counts (run_subgroups defs max_group_subgroups))
        (shown (run_subgroups defs max_group_subgroups))
run_report-CountsOf defs =
    merge_all-CountsOf _ no_counts (run_subgroups-CountsOf defs max_group_subgroups)

abbrev pub IsJson : Opt → Type 0
IsJson opt = opt ≡ opt_json

parse_options-IsJson :
    (opts : List Opt) (mode : RenderMode)
    → All IsJson opts
    → (m : RenderMode) × (parse_options opts mode ≡ go_on m)
unfolding parse_options
parse_options-IsJson [] mode h = (mode, refl)
parse_options-IsJson (opt_json ∷ opts) mode (h, hs) = parse_options-IsJson opts render_json hs
parse_options-IsJson (opt_help ∷ opts) mode (h, hs) = cc
parse_options-IsJson (opt_version ∷ opts) mode (h, hs) = cc
parse_options-IsJson (opt_bad ∷ opts) mode (h, hs) = cc

-- With no option but `--json` and nothing behind it, the exit code is 1 if some result shown is a
-- failure, and 0 if none is.
pub exit_code-run_main :
    (opts : List Opt) (defs : List SubgroupDef)
    → All IsJson opts
    → exit_code (run_main opts false defs) ≡ (
        if ltb 0 (count_in check_fail (shown (run_subgroups defs max_group_subgroups)))
        then 1
        else 0)
unfolding run_main
exit_code-run_main opts defs h =
    let (m, e) = parse_options-IsJson opts render_plain h in
    rw (e, exit_code) (ground (arith, run_report-CountsOf defs))
