-- ===== src/Checks/Fwupd.antt =====
-- src/check_fwupd.c: the services of fwupd, its remote, the devices, the updates and the history.
pub mod Hsi
pub mod Rows
pub mod Unmapped
pub mod Naming
pub mod Room
use bythos.Base.{
  ℕ, Bool, true, false, not, ◌||◌, Option, none, some, List, [], ◌∷◌, Bytes, codes, length, ◌==◌,
  if◌then◌else◌, contains, equal,
}
use bythos.Posture.Types.{
  check_ok, check_warn, CheckResult, Results, emit, emit_skip_exec, emit_skip_probe,
  emit_skip_subject,
}
use bythos.Firmware.Labels.{
  fwupd_updates_unknown, fwupd_updates_none, fwupd_updates_available, parse_fwupd_updates,
}
use bythos.Runtime.Host.{Host}
use bythos.Runtime.Files.{file_exists}
use bythos.Runtime.Values.{read_key_value}
use bythos.Runtime.Processes.{
  service_state_unknown, service_state_systemctl_unavailable, service_state_active,
  service_state_inactive, service_state_missing, command_exists, capture_argv_status,
  run_argv_quiet, probe_systemd_service,
}
use bythos.Checks.Tools.{emit_skip_tool_or_untrusted}

abbrev pub fwupdmgr : Bytes
fwupdmgr = codes "fwupdmgr"

unfoldable pub lvfs_conf_candidates : List Bytes
lvfs_conf_candidates =
    codes "/etc/fwupd/remotes.d/lvfs.conf" ∷ codes "/usr/share/fwupd/remotes.d/lvfs.conf" ∷ []

-- The loop over the candidates, to the first that exists.
unfoldable pub find_lvfs_conf : Host → List Bytes → Option Bytes
find_lvfs_conf host [] = none
find_lvfs_conf host (path ∷ paths) =
    let rest = find_lvfs_conf host paths in if file_exists host path then some path else rest

unfoldable pub service_result : Host → CheckResult
unfolding emit emit_skip_probe emit_skip_tool_or_untrusted probe_systemd_service
service_result host =
    let name = codes "fwupd service" in
    elim (probe_systemd_service host (codes "fwupd.service")) [
      | service_state_systemctl_unavailable ↦
          emit_skip_tool_or_untrusted host name (codes "systemctl") (codes "systemd")
      | service_state_active ↦ emit name check_ok (codes "running")
      | service_state_inactive ↦ emit name check_warn (codes "installed but inactive")
      | service_state_missing ↦ emit name check_warn (codes "not installed")
      | service_state_unknown ↦ emit_skip_probe name (codes "systemctl")
    ]

unfoldable pub timer_result : Host → CheckResult
unfolding emit emit_skip_probe emit_skip_subject emit_skip_tool_or_untrusted probe_systemd_service
timer_result host =
    let name = codes "auto-refresh timer" in
    elim (probe_systemd_service host (codes "fwupd-refresh.timer")) [
      | service_state_systemctl_unavailable ↦
          emit_skip_tool_or_untrusted host name (codes "systemctl") (codes "systemd")
      | service_state_active ↦ emit name check_ok (codes "active")
      | service_state_inactive ↦ emit name check_warn (codes "inactive")
      | service_state_missing ↦ emit_skip_subject name (codes "fwupd-refresh.timer")
      | service_state_unknown ↦ emit_skip_probe name (codes "systemctl")
    ]

-- The row that takes the place of any other where fwupdmgr cannot be run.
unfoldable pub no_fwupdmgr : Host → Bytes → CheckResult
unfolding emit_skip_tool_or_untrusted
no_fwupdmgr host name = emit_skip_tool_or_untrusted host name fwupdmgr (codes "fwupd")

unfoldable pub lvfs_result : Host → CheckResult
unfolding emit no_fwupdmgr find_lvfs_conf lvfs_conf_candidates read_key_value
lvfs_result host =
    let name = codes "LVFS remote" in
    if not (command_exists host fwupdmgr)
    then no_fwupdmgr host name
    else elim (find_lvfs_conf host lvfs_conf_candidates) [
      | none ↦ emit name check_warn (codes "lvfs.conf not found")
      | some path ↦ elim (read_key_value host path (codes "Enabled") 32) [
        | none ↦ emit name check_warn (codes "Enabled key not found")
        | some enabled ↦
            if equal enabled (codes "true")
            then emit name check_ok (codes "enabled")
            else emit name check_warn (codes "not enabled")
      ]
    ]

unfoldable pub inventory_result : Host → CheckResult
unfolding emit emit_skip_exec no_fwupdmgr
inventory_result host =
    let name = codes "firmware inventory" in
    if not (command_exists host fwupdmgr)
    then no_fwupdmgr host name
    else elim (run_argv_quiet host (fwupdmgr ∷ codes "get-devices" ∷ [])) [
      | none ↦ emit_skip_exec name fwupdmgr
      | some status ↦
          if status == 0
          then emit name check_ok (codes "device list available")
          else emit_skip_exec name fwupdmgr
    ]

unfoldable pub updates_result : Host → CheckResult
unfolding emit emit_skip_exec emit_skip_probe no_fwupdmgr parse_fwupd_updates
updates_result host =
    let name = codes "firmware update status" in
    if not (command_exists host fwupdmgr)
    then no_fwupdmgr host name
    else elim (capture_argv_status host (fwupdmgr ∷ codes "get-updates" ∷ []) 2048) [
      | none ↦ emit_skip_exec name fwupdmgr
      | some (status, buffer) ↦ elim (parse_fwupd_updates buffer (status == 0)) [
        | fwupd_updates_none ↦ emit name check_ok (codes "no updates available")
        | fwupd_updates_available ↦ emit name check_warn (codes "updates available")
        | fwupd_updates_unknown ↦ emit_skip_probe name fwupdmgr
      ]
    ]

unfoldable pub says_no_history : Bytes → Bool
says_no_history buffer =
    length buffer == 0
    || contains buffer (codes "No history")
    || contains buffer (codes "no history")
    || contains buffer (codes "No firmware updates")

-- The verdict on the exit status and the output of `fwupdmgr get-history`.
unfoldable pub history_verdict : Bytes → ℕ × Bytes → CheckResult
unfolding emit emit_skip_exec emit_skip_subject says_no_history
history_verdict name (status, buffer) =
    if not (status == 0)
    then (if says_no_history buffer
        then emit_skip_subject name (codes "firmware history")
        else emit_skip_exec name fwupdmgr)
    else if not (length buffer == 0)
    then emit name check_ok (codes "available")
    else emit_skip_subject name (codes "firmware history")

unfoldable pub history_result : Host → CheckResult
unfolding emit_skip_exec no_fwupdmgr history_verdict
history_result host =
    let name = codes "firmware update history" in
    if not (command_exists host fwupdmgr)
    then no_fwupdmgr host name
    else elim (capture_argv_status host (fwupdmgr ∷ codes "get-history" ∷ []) 2048) [
      | none ↦ emit_skip_exec name fwupdmgr
      | some answer ↦ history_verdict name answer
    ]

-- The rows in front of those on host security.
unfoldable pub fwupd_results : Host → Results
unfolding service_result
fwupd_results host =
    service_result host
    ∷ timer_result host
    ∷ lvfs_result host
    ∷ inventory_result host
    ∷ updates_result host
    ∷ history_result host
    ∷ []
