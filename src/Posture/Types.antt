-- ===== src/Posture/Types.antt =====
-- include/types.h: results, the ways to make one, and the emission macros.
use bythos.Base.{
  zero, suc, refl, ap, append-nil, append_assoc, ◌==◌, ℕ, ◌≤◌, ◌≡◌, Bool, true, false, Option, none,
  some, List, [], ◌∷◌, ◌++◌, arith, Bytes, codes, length, take, take_all, length-append,
  length-take, take_prefix, sym, ltb, if◌then◌else◌, fit, Bool-cases, inl, inr,
}

pub data CheckState : Type 0 where
  check_ok check_warn check_fail check_skip : CheckState

pub data SkipReason : Type 0 where
  skip_none skip_tool_absent skip_feature_absent skip_exec_failed : SkipReason
  skip_probe_indeterminate skip_report_field_absent skip_output_unparseable : SkipReason
  skip_not_configured skip_subject_absent skip_hw_absent skip_vendor_scope : SkipReason

abbrev pub detail_max : ℕ
detail_max = 256

pub record CheckResult : Type 0 where
  pub name : Bytes
  pub state : CheckState
  pub skip_reason : SkipReason
  pub detail : Bytes
  pub requires_root : Bool
  pub actionable : Bool

-- `none` is a NULL detail, which leaves the zeroed buffer.
unfoldable pub make_result : Bytes → CheckState → Option Bytes → CheckResult
make_result name state detail = record {
  name = name;
  state = state;
  skip_reason = skip_none;
  detail = elim detail [ none ↦ [] | some text ↦ fit detail_max text ];
  requires_root = false;
  actionable = false;
}

unfoldable pub make_skip : Bytes → SkipReason → Option Bytes → CheckResult
unfolding make_result
make_skip name reason detail = record (make_result name check_skip detail) { skip_reason = reason }

unfoldable pub make_skip_actionable : Bytes → SkipReason → Option Bytes → CheckResult
unfolding make_skip
make_skip_actionable name reason detail = record (make_skip name reason detail) {
  actionable = true;
}

unfoldable pub make_skip_root : Bytes → SkipReason → Option Bytes → CheckResult
unfolding make_skip
make_skip_root name reason detail = record (make_skip name reason detail) { requires_root = true }

-- The results written so far, and `used` is their number.
abbrev pub Results : Type 0
Results = List CheckResult

-- `if (used < max_results) results[used++] = r;`, the body that the macros share.
unfoldable pub emit_result : ℕ → CheckResult → Results → Results
emit_result max_results r rs = if ltb (length rs) max_results then rs ++ r ∷ [] else rs

-- One emission behind the other.
unfoldable pub emit_all : ℕ → Results → Results → Results
unfolding emit_result
emit_all max_results [] rs = rs
emit_all max_results (r ∷ todo) rs = emit_all max_results todo (emit_result max_results r rs)

-- What each macro emits under a name.
module _ (name : Bytes) where
  unfoldable pub emit : CheckState → Bytes → CheckResult
  unfolding make_result
  emit state detail = make_result name state (some detail)

  unfoldable pub emit_skip : SkipReason → Bytes → CheckResult
  unfolding make_skip
  emit_skip reason detail = make_skip name reason (some detail)

  unfoldable pub emit_skip_tool : Bytes → CheckResult
  unfolding make_skip
  emit_skip_tool tool = make_skip name skip_tool_absent (some (tool ++ codes " not found"))

  unfoldable pub emit_skip_tool_install : Bytes → CheckResult
  unfolding make_skip_actionable
  emit_skip_tool_install tool =
      make_skip_actionable name skip_tool_absent (some (codes "requires " ++ tool))

  unfoldable pub emit_skip_feature : Bytes → CheckResult
  unfolding make_skip
  emit_skip_feature feat =
      make_skip name skip_feature_absent (some (feat ++ codes " not available"))

  unfoldable pub emit_skip_exec : Bytes → CheckResult
  unfolding make_skip
  emit_skip_exec tool = make_skip name skip_exec_failed (some (tool ++ codes " query failed"))

  unfoldable pub emit_skip_exec_root : Bytes → CheckResult
  unfolding make_skip_root
  emit_skip_exec_root tool =
      make_skip_root name skip_exec_failed (some (tool ++ codes " query failed"))

  unfoldable pub emit_skip_probe : Bytes → CheckResult
  unfolding make_skip
  emit_skip_probe tool =
      make_skip name skip_probe_indeterminate (some (tool ++ codes " result indeterminate"))

  unfoldable pub emit_skip_field : Bytes → Bytes → CheckResult
  unfolding make_skip
  emit_skip_field field tool =
      make_skip name skip_report_field_absent
        (some (field ++ (codes " absent from " ++ (tool ++ codes " output"))))

  unfoldable pub emit_skip_parse : Bytes → CheckResult
  unfolding make_skip
  emit_skip_parse tool =
      make_skip name skip_output_unparseable (some (tool ++ codes " output not parseable"))

  unfoldable pub emit_skip_not_conf : Bytes → CheckResult
  unfolding make_skip_actionable
  emit_skip_not_conf tool =
      make_skip_actionable name skip_not_configured (some (tool ++ codes " not configured"))

  unfoldable pub emit_skip_subject : Bytes → CheckResult
  unfolding make_skip
  emit_skip_subject subj =
      make_skip name skip_subject_absent (some (subj ++ codes " not present on this host"))

  unfoldable pub emit_skip_subject_install : Bytes → CheckResult
  unfolding make_skip_actionable
  emit_skip_subject_install subj =
      make_skip_actionable name skip_subject_absent
        (some (subj ++ codes " not present on this host"))

  unfoldable pub emit_skip_hw : Bytes → CheckResult
  unfolding make_skip
  emit_skip_hw hw = make_skip name skip_hw_absent (some (hw ++ codes " not detected"))

  unfoldable pub emit_skip_vendor : Bytes → CheckResult
  unfolding make_skip
  emit_skip_vendor scope = make_skip name skip_vendor_scope (some scope)

-- `bythos_pl`
unfoldable pub pl : ℕ → Bytes → Bytes → Bytes
pl n singular plural = if n == 1 then singular else plural

-- An emission never writes past the capacity that the caller gave.
pub emit_result-le :
    (max_results : ℕ) (r : CheckResult) (rs : Results)
    → length rs ≤ max_results
    → length (emit_result max_results r rs) ≤ max_results
unfolding emit_result
emit_result-le max_results r rs h = ground (arith, length-append rs (r ∷ []))

-- Emitting under a capacity keeps the first results of emitting without one.
pub emit_result-take :
    (max_results : ℕ) (r : CheckResult) (rs : Results)
    → emit_result max_results r (take max_results rs) ≡ take max_results (rs ++ r ∷ [])
unfolding emit_result
emit_result-take max_results r rs = elim (Bool-cases (ltb (length rs) max_results)) [
  | inl room ↦
      rw (take_all max_results rs (ground arith), room)
        (sym (take_all max_results (rs ++ r ∷ []) (ground (arith, length-append rs (r ∷ [])))))
  | inr full ↦ ground (arith, length-take max_results rs, take_prefix max_results rs (r ∷ []))
]

-- Emissions into an empty table leave the first of them that there is room for.
pub emit_all-take :
    (max_results : ℕ) (todo rs : Results)
    → emit_all max_results todo (take max_results rs) ≡ take max_results (rs ++ todo)
unfolding emit_all
emit_all-take max_results [] rs = rw (append-nil rs) refl
emit_all-take max_results (r ∷ todo) rs =
    rw (emit_result-take max_results r rs, emit_all-take max_results todo (rs ++ r ∷ []))
      (ap (take max_results) (append_assoc rs (r ∷ []) todo))

pub emit_all-nil :
    (max_results : ℕ) (todo : Results) → emit_all max_results todo [] ≡ take max_results todo
emit_all-nil zero todo = emit_all-take zero todo []
emit_all-nil (suc n) todo = emit_all-take (suc n) todo []
