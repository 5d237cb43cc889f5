-- ===== src/Checks/Fwupd/Room.antt =====
-- src/check_fwupd.c: the check writes no more than it has room for.
use mathlib.Core.Path.{subst}
use bythos.Base.{
  ℕ, ◌-◌, ◌≤◌, Bool-cases, List, [], ◌∷◌, ◌++◌, arith, length, length-append, length-take, ltb,
  ltb→lt, true, sym, ◌≡◌, inl, inr, take,
}
use bythos.Posture.Types.{Results, CheckResult, emit_all-nil}
use bythos.Runtime.Host.{Host}
use bythos.Silicon.Cpu.{CpuVendor, cpu_vendor_amd, cpu_vendor_intel, cpu_vendor_unknown}
use bythos.Checks.Tools.{emit_guarded, host_vendor}
use bythos.Checks.Room.{emit_guarded-take}
use bythos.Checks.Fwupd.{fwupd_results}
use bythos.Checks.Fwupd.Hsi.{
  HsiReport, hsi_json, hsi_tool_untrusted, hsi_skipped, HsiState, HsiRow, emit_hsi, emit_hsi_rows,
  hsi_report, HsiReported,
}
use bythos.Checks.Fwupd.Rows.{
  universal_rows, amd_rows, intel_rows, emit_boot_guard, emit_vendor_rows,
}
use bythos.Checks.Fwupd.Unmapped.{with_unmapped, first_state, check_fwupd}

module _ (max_results : ℕ) where
  abbrev InRoom : HsiState → Type 0
  InRoom (results, reported) = length results ≤ max_results

  one_row :
      (results : Results) (row : CheckResult)
      → length results ≤ max_results
      → length (results ++ emit_guarded (max_results - length results) (row ∷ [])) ≤ max_results
  one_row results row h =
      let kept = emit_guarded-take (max_results - length results) (row ∷ []) in
      rw (kept) (
        omega (
          arith,
          h,
          length-append results (take (max_results - length results) (row ∷ [])),
          length-take (max_results - length results) (row ∷ []),
        ))

  one_more :
      (results : Results) (row : CheckResult)
      → ltb (length results) max_results ≡ true
      → length (results ++ row ∷ []) ≤ max_results
  one_more results row room =
      let fewer = ltb→lt (length results) max_results room in
      omega (arith, fewer, length-append results (row ∷ []))

  row_with_room :
      (report : HsiReport) (row : HsiRow) (results : Results) (reported : HsiReported)
      → ltb (length results) max_results ≡ true
      → InRoom (emit_hsi max_results report row (results, reported))
  unfolding emit_hsi
  row_with_room (hsi_json json) row results reported room =
      rw (room, emit_hsi) (one_more results _ room)
  row_with_room hsi_tool_untrusted row results reported room =
      rw (room, emit_hsi) (one_more results _ room)
  row_with_room (hsi_skipped reason detail) row results reported room =
      rw (room, emit_hsi) (one_more results _ room)

  emit_hsi-InRoom :
      (report : HsiReport) (row : HsiRow) (state : HsiState)
      → InRoom state
      → InRoom (emit_hsi max_results report row state)
  unfolding emit_hsi
  emit_hsi-InRoom report row (results, reported) h =
      elim (Bool-cases (ltb (length results) max_results)) [
        | inr full ↦ rw (full, emit_hsi) h
        | inl room ↦ row_with_room report row results reported room
      ]

  emit_hsi_rows-InRoom :
      (report : HsiReport) (rows : List HsiRow) (state : HsiState)
      → InRoom state
      → InRoom (emit_hsi_rows max_results report rows state)
  unfolding emit_hsi_rows
  emit_hsi_rows-InRoom report [] state h = h
  emit_hsi_rows-InRoom report (row ∷ rows) state h =
      emit_hsi_rows-InRoom report rows _ (emit_hsi-InRoom report row state h)

  emit_boot_guard-InRoom :
      (report : HsiReport) (state : HsiState)
      → InRoom state
      → InRoom (emit_boot_guard max_results report state)
  unfolding emit_boot_guard
  emit_boot_guard-InRoom (hsi_json json) (results, reported) h = one_row results _ h
  emit_boot_guard-InRoom hsi_tool_untrusted (results, reported) h = one_row results _ h
  emit_boot_guard-InRoom (hsi_skipped reason detail) (results, reported) h = one_row results _ h

  emit_vendor_rows-InRoom :
      (report : HsiReport) (vendor : CpuVendor) (state : HsiState)
      → InRoom state
      → InRoom (emit_vendor_rows max_results report vendor state)
  unfolding emit_vendor_rows
  emit_vendor_rows-InRoom report cpu_vendor_amd state h =
      emit_hsi_rows-InRoom report amd_rows state h
  emit_vendor_rows-InRoom report cpu_vendor_intel state h =
      emit_boot_guard-InRoom report _ (emit_hsi_rows-InRoom report intel_rows state h)
  emit_vendor_rows-InRoom report cpu_vendor_unknown state h = h

  with_unmapped-le :
      (report : HsiReport) (state : HsiState)
      → InRoom state
      → length (with_unmapped max_results report state) ≤ max_results
  with_unmapped-le report (results, reported) h = one_row results _ h

first_state-InRoom :
    (host : Host) (max_results : ℕ) → InRoom max_results (first_state host max_results)
unfolding first_state
first_state-InRoom host max_results =
    let rows = fwupd_results host in
    subst (λ (written : Results). length written ≤ max_results)
      (sym (emit_all-nil max_results rows)) (omega (arith, length-take max_results rows))

-- On every host the check of fwupd writes no more results than it has room for, whichever rows the
-- vendor of the processor has.
pub check_fwupd-le :
    (host : Host) (max_results : ℕ) → length (check_fwupd host max_results) ≤ max_results
unfolding check_fwupd
check_fwupd-le host max_results =
    let report = hsi_report host in
    with_unmapped-le max_results report _ (
      emit_vendor_rows-InRoom max_results report (host_vendor host) _ (
        emit_hsi_rows-InRoom max_results report universal_rows (first_state host max_results)
          (first_state-InRoom host max_results)))
