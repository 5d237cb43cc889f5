-- ===== src/Posture/Summary.antt =====
-- The counts of src/output.c and include/output.h: adding a result, merging, and the overall state.
use bythos.Base.{ℕ, ◌+◌, ◌≡◌, refl, [], ◌∷◌, arith, ltb, if◌then◌else◌}
use bythos.Posture.Types.{
  CheckState, check_ok, check_warn, check_fail, check_skip, CheckResult, Results,
}

pub record PostureSummary : Type 0 where
  pub ok_count : ℕ
  pub warn_count : ℕ
  pub fail_count : ℕ
  pub skip_count : ℕ

abbrev pub no_counts : PostureSummary
no_counts = record { ok_count = 0; warn_count = 0; fail_count = 0; skip_count = 0 }

unfoldable pub count_state : CheckState → PostureSummary → PostureSummary
count_state check_ok s = record s { ok_count = s.ok_count + 1 }
count_state check_warn s = record s { warn_count = s.warn_count + 1 }
count_state check_fail s = record s { fail_count = s.fail_count + 1 }
count_state check_skip s = record s { skip_count = s.skip_count + 1 }

unfoldable pub summary_add : PostureSummary → CheckResult → PostureSummary
unfolding count_state
summary_add summary result = count_state result.state summary

unfoldable pub summary_state : PostureSummary → CheckState
summary_state summary =
    if ltb 0 summary.fail_count
    then check_fail
    else if ltb 0 summary.warn_count
    then check_warn
    else if ltb 0 summary.ok_count
    then check_ok
    else check_skip

unfoldable pub summary_merge : PostureSummary → PostureSummary → PostureSummary
summary_merge dst src = record {
  ok_count = dst.ok_count + src.ok_count;
  warn_count = dst.warn_count + src.warn_count;
  fail_count = dst.fail_count + src.fail_count;
  skip_count = dst.skip_count + src.skip_count;
}

-- The loop of `subgroup_finalize`.
unfoldable pub add_all : PostureSummary → Results → PostureSummary
unfolding summary_add
add_all summary [] = summary
add_all summary (r ∷ rs) = add_all (summary_add summary r) rs

abbrev pub total : PostureSummary → ℕ
total s = s.ok_count + s.warn_count + s.fail_count + s.skip_count

-- How many results are in a state, counted one by one.
abbrev pub is_state : CheckState → CheckState → ℕ
is_state check_ok check_ok = 1
is_state check_warn check_warn = 1
is_state check_fail check_fail = 1
is_state check_skip check_skip = 1
is_state _ _ = 0

unfoldable pub count_in : CheckState → Results → ℕ
count_in c [] = 0
count_in c (r ∷ rs) = is_state c r.state + count_in c rs

abbrev pub CountsOf : PostureSummary → PostureSummary → Results → Type 0
CountsOf s t rs =
    (t.ok_count ≡ s.ok_count + count_in check_ok rs)
    × (t.warn_count ≡ s.warn_count + count_in check_warn rs)
    × (t.fail_count ≡ s.fail_count + count_in check_fail rs)
    × (t.skip_count ≡ s.skip_count + count_in check_skip rs)

add_one-CountsOf :
    (c : CheckState) (s : PostureSummary) (r : CheckResult)
    → r.state ≡ c
    → CountsOf s (summary_add s r) (r ∷ [])
unfolding summary_add count_in
add_one-CountsOf check_ok s r e = ground arith
add_one-CountsOf _ s r e = ground arith

-- The loop adds to each count the number of results in that state.
pub add_all-CountsOf : (rs : Results) (s : PostureSummary) → CountsOf s (add_all s rs) rs
unfolding add_all count_in
add_all-CountsOf [] s = omega arith
add_all-CountsOf (r ∷ rs) s =
    let step = add_one-CountsOf r.state s r refl in
    omega (arith, add_all-CountsOf rs (summary_add s r), step)
