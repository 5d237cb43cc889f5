-- ===== src/Checks/Fwupd/Hsi.antt =====
-- src/check_fwupd.c: the rows on attributes of fwupd's report on host security, with the state of
-- what has been reported.
use bythos.Base.{
  ℕ, ◌+◌, Bool, false, not, ◌&&◌, ◌||◌, Option, none, some, List, [], ◌∷◌, ◌++◌, Bytes, codes,
  length, ltb, ◌==◌, if◌then◌else◌, equal, fit,
}
use bythos.Posture.Types.{
  check_ok, check_warn, SkipReason, skip_tool_absent, skip_feature_absent, skip_exec_failed,
  skip_output_unparseable, detail_max, CheckResult, Results, make_result, make_skip,
  make_skip_actionable,
}
use bythos.Firmware.Hsi.{not_supported_text}
use bythos.Firmware.Hsi.Attribute.{
  HsiAction, action_none, action_oem, action_firmware, action_os, HsiAttribute, hsi_find_attribute,
}
use bythos.Runtime.Host.{Host}
use bythos.Runtime.Processes.{Captured, command_exists, command_untrusted, capture_argv_status_ex}
use bythos.Checks.Fwupd.{fwupdmgr}

abbrev pub hsi_reported_max : ℕ
hsi_reported_max = 48

pub record HsiReported : Type 0 where
  pub id : List Bytes
  pub count : ℕ
  pub not_supported : ℕ

abbrev pub none_reported : HsiReported
none_reported = record { id = []; count = 0; not_supported = 0 }

unfoldable pub hsi_mark_reported : Bytes → Bytes → HsiReported → HsiReported
unfolding not_supported_text
hsi_mark_reported appstream_id result reported = record {
  id =
      if ltb reported.count hsi_reported_max then reported.id ++ appstream_id ∷ [] else reported.id;
  count = reported.count + 1;
  not_supported =
      if equal result not_supported_text
      then reported.not_supported + 1
      else reported.not_supported;
}

unfoldable pub is_listed : List Bytes → Bytes → Bool
is_listed [] appstream_id = false
is_listed (x ∷ xs) appstream_id = equal x appstream_id || is_listed xs appstream_id

unfoldable pub hsi_already_reported : HsiReported → Bytes → Bool
unfolding is_listed
hsi_already_reported reported appstream_id = is_listed reported.id appstream_id

abbrev pub action_suffix : HsiAction → Bytes
action_suffix action_oem = codes "; OEM-controlled"
action_suffix action_firmware = codes "; configurable in BIOS"
action_suffix action_os = codes "; configurable in OS"
action_suffix action_none = []

unfoldable pub hsi_format_warn : HsiAttribute → Bytes
hsi_format_warn attribute = fit detail_max (attribute.result ++ action_suffix attribute.action)

-- The report, or why there is none.
pub data HsiReport : Type 0 where
  hsi_json : Bytes → HsiReport
  hsi_tool_untrusted : HsiReport
  hsi_skipped : SkipReason → Bytes → HsiReport

-- What fwupdmgr wrote is a report if it ended with status 0 and all of it fits.
unfoldable pub hsi_answer : Captured → HsiReport
hsi_answer captured =
    let unanswered =
      if captured.truncated
      then hsi_skipped skip_output_unparseable (codes "fwupdmgr output truncated")
      else hsi_skipped skip_exec_failed (codes "fwupdmgr query failed") in
    elim captured.answer [
      | none ↦ unanswered
      | some (status, json) ↦
          if status == 0 && not captured.truncated && not (length json == 0)
          then hsi_json json
          else unanswered
    ]

unfoldable pub hsi_report : Host → HsiReport
unfolding hsi_answer
hsi_report host =
    if command_exists host fwupdmgr
    then hsi_answer
        (capture_argv_status_ex host (fwupdmgr ∷ codes "security" ∷ codes "--json" ∷ []) 65536)
    else if command_untrusted host fwupdmgr
    then hsi_tool_untrusted
    else hsi_skipped skip_tool_absent (codes "requires fwupd")

-- EMIT_HSI_UNAVAILABLE; the clause on a report is not reached.
unfoldable pub emit_hsi_unavailable : Bytes → HsiReport → CheckResult
unfolding make_result make_skip make_skip_actionable
emit_hsi_unavailable name (hsi_json json) = make_result name check_warn none
emit_hsi_unavailable name hsi_tool_untrusted =
    make_result name check_warn
      (some (codes "fwupdmgr on PATH is not root-owned; refusing to run it as root"))
emit_hsi_unavailable name (hsi_skipped skip_tool_absent detail) =
    make_skip_actionable name skip_tool_absent (some detail)
emit_hsi_unavailable name (hsi_skipped reason detail) = make_skip name reason (some detail)

-- The fuel of the reader is enough for any report.
abbrev pub found_or_none : Option (Option HsiAttribute) → Option HsiAttribute
found_or_none none = none
found_or_none (some found) = found

unfoldable pub find_attribute : Bytes → Bytes → Option HsiAttribute
unfolding hsi_find_attribute
find_attribute json appstream_id = found_or_none (hsi_find_attribute json appstream_id)

-- Is the result the one that the report itself calls a success, or else the one of the table?
unfoldable pub is_positive : HsiAttribute → Bytes → Bool
is_positive attribute positive =
    if length attribute.success == 0
    then equal attribute.result positive
    else equal attribute.result attribute.success

unfoldable pub attribute_row : Bytes → Bytes → Bytes → HsiAttribute → CheckResult
unfolding make_skip make_result is_positive hsi_format_warn not_supported_text
attribute_row name positive ok_msg attribute =
    if equal attribute.result not_supported_text
    then make_skip name skip_feature_absent (some (codes "not supported"))
    else if is_positive attribute positive
    then make_result name check_ok (some ok_msg)
    else make_result name check_warn (some (hsi_format_warn attribute))

unfoldable pub mark_found : Bytes → Option HsiAttribute → HsiReported → HsiReported
unfolding hsi_mark_reported
mark_found appstream_id none reported = reported
mark_found appstream_id (some attribute) reported =
    if attribute.passing then reported else hsi_mark_reported appstream_id attribute.result reported

-- The rows written so far, and what has been reported.
abbrev pub HsiState : Type 0
HsiState = Results × HsiReported

-- One call of EMIT_HSI.
pub record HsiRow : Type 0 where
  pub name : Bytes
  pub id : Bytes
  pub positive : Bytes
  pub ok_msg : Bytes

unfoldable pub found_row : HsiRow → Option HsiAttribute → CheckResult
unfolding attribute_row make_skip
found_row row none = make_skip row.name skip_feature_absent (some (codes "not reported"))
found_row row (some attribute) = attribute_row row.name row.positive row.ok_msg attribute

unfoldable pub emit_hsi : ℕ → HsiReport → HsiRow → HsiState → HsiState
unfolding emit_hsi_unavailable find_attribute found_row mark_found
emit_hsi max_results report row (results, reported) =
    if not (ltb (length results) max_results) then (results, reported) else elim report [
      | hsi_json json ↦
          (let found = find_attribute json row.id in
            (results ++ found_row row found ∷ [], mark_found row.id found reported))
      | unavailable ↦ (results ++ emit_hsi_unavailable row.name unavailable ∷ [], reported)
    ]

unfoldable pub emit_hsi_rows : ℕ → HsiReport → List HsiRow → HsiState → HsiState
unfolding emit_hsi
emit_hsi_rows max_results report [] state = state
emit_hsi_rows max_results report (row ∷ rows) state =
    emit_hsi_rows max_results report rows (emit_hsi max_results report row state)
