-- ===== src/Posture/Groups.antt =====
-- src/check_groups.c: `run_subgroups` runs each subgroup's checks into a table of bounded size.
pub mod Bounds
pub mod Order
use bythos.Base.{
  ℕ, zero, suc, ◌+◌, ◌-◌, Bool, true, false, List, [], ◌∷◌, ◌++◌, Bytes, length, take, ltb, leb,
  if◌then◌else◌,
}
use bythos.Posture.Types.{Results}
use bythos.Posture.Summary.{PostureSummary, no_counts, add_all}

abbrev pub max_subgroup_results : ℕ
max_subgroup_results = 32

abbrev pub subgroup_max_fns : ℕ
subgroup_max_fns = 6

-- `results` is what has been written from the table's start on; its size is one more than
-- `max_subgroup_results`, and only the first `result_count` of them are the subgroup's.
pub record CheckSubgroup : Type 0 where
  pub name : Bytes
  pub results : Results
  pub result_count : ℕ
  pub truncated : Bool
  pub summary : PostureSummary

-- A check is given the number of results that it may write, and its result is what it wrote.
abbrev pub SubgroupCheckFn : Type 0
SubgroupCheckFn = ℕ → Results

pub record SubgroupDef : Type 0 where
  pub name : Bytes
  pub fns : List SubgroupCheckFn

unfoldable pub subgroup_init : Bytes → CheckSubgroup
subgroup_init name = record {
  name = name;
  results = [];
  result_count = 0;
  truncated = false;
  summary = no_counts;
}

unfoldable pub subgroup_finalize : CheckSubgroup → CheckSubgroup
unfolding add_all
subgroup_finalize sg = record sg { summary = add_all sg.summary (take sg.result_count sg.results) }

-- The body of the inner loop, behind the test for a full table.
unfoldable pub run_check : SubgroupCheckFn → CheckSubgroup → CheckSubgroup
run_check fn sg =
    let remaining = max_subgroup_results - sg.result_count in
    let written = fn (remaining + 1) in
    let over = ltb remaining (length written) in
    record sg {
      results = take sg.result_count sg.results ++ written;
      truncated = if over then true else sg.truncated;
      result_count = sg.result_count + (if over then remaining else length written);
    }

-- The inner loop.
unfoldable pub run_checks : List SubgroupCheckFn → CheckSubgroup → CheckSubgroup
unfolding run_check
run_checks [] sg = sg
run_checks (fn ∷ fns) sg =
    let rest = run_checks fns (run_check fn sg) in
    if leb max_subgroup_results sg.result_count then record sg { truncated = true } else rest

unfoldable pub run_subgroup : SubgroupDef → CheckSubgroup
unfolding subgroup_init run_checks subgroup_finalize
run_subgroup def =
    subgroup_finalize (run_checks (take subgroup_max_fns def.fns) (subgroup_init def.name))

-- The second argument is `max_subgroups`.
unfoldable pub run_subgroups : List SubgroupDef → ℕ → List CheckSubgroup
unfolding run_subgroup
run_subgroups defs zero = []
run_subgroups [] (suc max_subgroups) = []
run_subgroups (def ∷ defs) (suc max_subgroups) = run_subgroup def ∷ run_subgroups defs max_subgroups
