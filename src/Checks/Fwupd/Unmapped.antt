-- ===== src/Checks/Fwupd/Unmapped.antt =====
-- src/check_fwupd.c: the row on attributes that do not pass and have no row of their own, and the
-- check as a whole.
use bythos.Base.{
  ℕ, ◌-◌, ◌+◌, Bool, not, ◌&&◌, Option, none, some, List, [], ◌∷◌, ◌++◌, Bytes, codes, length, take,
  ltb, ◌==◌, if◌then◌else◌, decimal, fit,
}
use bythos.Posture.Types.{
  check_ok, check_warn, detail_max, CheckResult, Results, emit, emit_all, pl,
}
use bythos.Firmware.Hsi.{HsiNotPassing, nothing_found, hsi_collect_not_passing}
use bythos.Runtime.Host.{Host}
use bythos.Checks.Tools.{emit_guarded, host_vendor}
use bythos.Checks.Fwupd.{fwupd_results}
use bythos.Checks.Fwupd.Hsi.{
  HsiReported, none_reported, hsi_already_reported, HsiReport, hsi_json, hsi_report,
  emit_hsi_unavailable, HsiState, emit_hsi_rows,
}
use bythos.Checks.Fwupd.Rows.{universal_rows, emit_vendor_rows}

abbrev pub aside_of : ℕ → Bytes
aside_of inapplicable =
    if ltb 0 inapplicable
    then codes "; " ++ (decimal inapplicable ++ codes " more not-supported (inapplicable)")
    else []

abbrev pub attributes : ℕ → Bytes
attributes n = pl n (codes "attribute is") (codes "attributes are")

-- What is said of the names behind the count.
unfoldable pub named_text : ℕ → Bytes → ℕ → Bytes
named_text hidden names named =
    if named == 0
    then codes ", unidentified"
    else codes ": "
      ++ (names
          ++ (if named == hidden
              then []
              else codes " (+" ++ (decimal (hidden - named) ++ codes " unidentified)")))

unfoldable pub unmapped_text : ℕ → Bytes → ℕ → ℕ → Bytes
unfolding named_text pl
unmapped_text hidden names named inapplicable =
    decimal hidden
    ++ (codes " further fwupd "
        ++ (attributes hidden
            ++ (codes " not passing"
                ++ (named_text hidden names named
                    ++ (aside_of inapplicable ++ codes "; run: fwupdmgr security")))))

-- The text cut off at the buffer, and whether it is whole. The buffer of the aside takes 64 bytes,
-- enough for a number of 64 bits.
unfoldable pub hsi_unmapped_detail : ℕ → ℕ → Bytes → ℕ → ℕ → Bytes × Bool
unfolding unmapped_text
hsi_unmapped_detail size hidden names named inapplicable =
    let text = unmapped_text hidden names named inapplicable in
    (fit size text, ltb (length text) size)

-- The names, how many, and the detail with them.
pub record Naming : Type 0 where
  pub names : Bytes
  pub named : ℕ
  pub detail : Bytes

-- The names with one more, if they and the detail with them fit.
unfoldable pub name_next : ℕ → ℕ → Bytes → Naming → Option Naming
unfolding hsi_unmapped_detail
name_next hidden inapplicable appstream_id naming =
    let next_names =
      naming.names ++ ((if naming.named == 0 then [] else codes ", ") ++ appstream_id) in
    let (next_detail, is_whole) =
      hsi_unmapped_detail detail_max hidden next_names (naming.named + 1) inapplicable in
    if ltb (length next_names) detail_max && is_whole
    then some (record { names = next_names; named = naming.named + 1; detail = next_detail })
    else none

-- The loop over the attributes that the report names.
unfoldable pub name_hidden : ℕ → ℕ → HsiReported → List Bytes → Naming → Naming
unfolding name_next hsi_already_reported
name_hidden hidden inapplicable reported [] naming = naming
name_hidden hidden inapplicable reported (appstream_id ∷ ids) naming =
    if not (ltb naming.named hidden)
    then naming
    else if hsi_already_reported reported appstream_id
    then name_hidden hidden inapplicable reported ids naming
    else elim (name_next hidden inapplicable appstream_id naming) [
      | none ↦ naming
      | some next ↦ name_hidden hidden inapplicable reported ids next
    ]

unfoldable pub unnamed : ℕ → ℕ → Naming
unfolding hsi_unmapped_detail
unnamed hidden inapplicable =
    let (text, is_whole) = hsi_unmapped_detail detail_max hidden [] 0 inapplicable in
    record { names = []; named = 0; detail = text }

abbrev pub unmapped_name : Bytes
unmapped_name = codes "HSI: unmapped attributes"

-- The differences stop at 0, where the code tests before it subtracts.
unfoldable pub unmapped_verdict : HsiNotPassing → HsiReported → CheckResult
unfolding emit name_hidden unnamed
unmapped_verdict not_passing reported =
    let weak = not_passing.total - not_passing.not_supported in
    let reported_weak = reported.count - reported.not_supported in
    let inapplicable = not_passing.not_supported - reported.not_supported in
    let hidden = weak - reported_weak in
    if ltb reported_weak weak
    then emit unmapped_name check_warn (
        (name_hidden hidden inapplicable reported (take not_passing.named not_passing.id)
          (unnamed hidden inapplicable)).detail)
    else if ltb 0 inapplicable
    then emit unmapped_name check_ok (
        fit detail_max (
          decimal inapplicable
          ++ (codes " further fwupd "
              ++ (attributes inapplicable
                  ++ codes
                      " not-supported, so inapplicable; nothing else not passing is unreported"))))
    else emit unmapped_name check_ok (codes "every fwupd attribute not passing is reported above")

-- The fuel of the reader is enough for any report.
abbrev pub collected_or_nothing : Option HsiNotPassing → HsiNotPassing
collected_or_nothing none = nothing_found
collected_or_nothing (some out) = out

unfoldable pub unmapped_result : HsiReport → HsiReported → CheckResult
unfolding unmapped_verdict emit_hsi_unavailable hsi_collect_not_passing
unmapped_result (hsi_json json) reported =
    unmapped_verdict (collected_or_nothing (hsi_collect_not_passing json)) reported
unmapped_result report reported = emit_hsi_unavailable unmapped_name report

-- The last row, behind those in the state.
abbrev pub with_unmapped : ℕ → HsiReport → HsiState → Results
with_unmapped max_results report (results, reported) =
    results ++ emit_guarded (max_results - length results) (unmapped_result report reported ∷ [])

unfoldable pub first_state : Host → ℕ → HsiState
unfolding emit_all fwupd_results
first_state host max_results = (emit_all max_results (fwupd_results host) [], none_reported)

unfoldable pub check_fwupd : Host → ℕ → Results
unfolding first_state hsi_report emit_hsi_rows universal_rows emit_vendor_rows
check_fwupd host max_results =
    let report = hsi_report host in
    with_unmapped max_results report (
      emit_vendor_rows max_results report (host_vendor host)
        (emit_hsi_rows max_results report universal_rows (first_state host max_results)))
