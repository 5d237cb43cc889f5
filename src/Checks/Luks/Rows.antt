-- ===== src/Checks/Luks/Rows.antt =====
-- The rows on LUKS volumes in src/check_luks.c, and the check as a whole.
use bythos.Base.{
  ℕ, ◌-◌, ◌^◌, Bool, true, false, not, ◌&&◌, ◌||◌, Option, none, some, List, [], ◌∷◌, ◌++◌, Bytes,
  codes, ltb, ◌==◌, if◌then◌else◌, decimal, fit,
}
use bythos.Posture.Types.{
  CheckState, check_ok, check_warn, skip_output_unparseable, skip_exec_failed,
  skip_probe_indeterminate, skip_subject_absent, detail_max, CheckResult, Results, emit, emit_skip,
  emit_skip_exec, emit_skip_exec_root, emit_skip_subject, emit_skip_not_conf, emit_skip_hw,
  emit_all, pl,
}
use bythos.Storage.{LsblkPosture, parse_lsblk_posture}
use bythos.Runtime.Host.{Host}
use bythos.Runtime.Files.{file_exists}
use bythos.Runtime.Processes.{command_exists, capture_argv_status_ex}
use bythos.Checks.Tools.{emit_skip_tool_or_untrusted}
use bythos.Checks.Registers.{is_set}
use bythos.Checks.Luks.{pcr_mask_to_str, append_unlock_consequences}
use bythos.Checks.Luks.Volumes.{LuksCounts, no_volumes, newline_lines, count_volumes}

-- "3 volumes"
abbrev pub counted : ℕ → Bytes → Bytes → Bytes
counted n singular plural = decimal n ++ b' ' ∷ pl n singular plural

abbrev pub volumes : ℕ → Bytes
volumes n = pl n (codes "volume") (codes "volumes")

abbrev pub devices : ℕ → Bytes
devices n = pl n (codes "device") (codes "devices")

unfoldable pub devices_name : Bytes
devices_name = codes "LUKS block devices"

unfoldable pub posture_verdict : LsblkPosture → CheckResult
unfolding emit
posture_verdict posture =
    let crypt = posture.crypt_count in
    let swap = posture.crypt_swap_count in
    if ltb 0 posture.luks_count
    then emit devices_name check_ok (
        fit 224 (
          decimal posture.luks_count
          ++ (codes " LUKS-encrypted " ++ (volumes posture.luks_count ++ codes " visible"))))
    else if ltb 0 crypt && crypt == swap
    then emit devices_name check_warn (
        fit 224 (
          decimal swap
          ++ (codes " encrypted swap "
              ++ (devices swap
                  ++ codes " visible; no LUKS-encrypted persistent volumes detected"))))
    else if ltb 0 crypt
    then emit devices_name check_warn (
        fit 224 (
          decimal crypt
          ++ (codes " encrypted mapper "
              ++ (devices crypt ++ codes " visible; no LUKS signature detected"))))
    else emit devices_name check_warn (codes "no LUKS-encrypted volumes detected")

-- What lsblk answers, with a row for each way it fails.
abbrev pub listed_row : Bool → Option (ℕ × Bytes) → CheckResult
listed_row truncated none = emit_skip_exec devices_name (codes "lsblk")
listed_row truncated (some (status, buffer)) =
    if not (status == 0)
    then emit_skip_exec devices_name (codes "lsblk")
    else if truncated
    then emit_skip devices_name skip_output_unparseable (codes "lsblk output truncated")
    else posture_verdict (parse_lsblk_posture buffer)

abbrev pub lsblk_argv : Bytes → List Bytes
lsblk_argv columns = codes "lsblk" ∷ codes "-P" ∷ codes "-o" ∷ columns ∷ []

unfoldable pub luks_devices_result : Host → CheckResult
unfolding posture_verdict emit_skip emit_skip_exec emit_skip_tool_or_untrusted
luks_devices_result host =
    let captured = capture_argv_status_ex host (lsblk_argv (codes "NAME,TYPE,FSTYPE")) 8192 in
    if not (command_exists host (codes "lsblk"))
    then emit_skip_tool_or_untrusted host devices_name (codes "lsblk") (codes "util-linux")
    else listed_row captured.truncated captured.answer

unfoldable pub version_name : Bytes
version_name = codes "LUKS version"

unfoldable pub integrity_name : Bytes
integrity_name = codes "LUKS dm-integrity"

unfoldable pub tpm_name : Bytes
tpm_name = codes "LUKS TPM binding"

unfoldable pub secure_boot_name : Bytes
secure_boot_name = codes "LUKS Secure Boot binding"

unfoldable pub chain_name : Bytes
chain_name = codes "LUKS boot chain binding"

-- The same row under each of the five names.
unfoldable pub five_rows : (Bytes → CheckResult) → Results
five_rows row =
    row version_name
    ∷ row integrity_name
    ∷ row tpm_name
    ∷ row secure_boot_name
    ∷ row chain_name
    ∷ []

abbrev pub unreadable : LuksCounts → Bytes → Bytes
unreadable counts noun =
    decimal counts.dump_failed
    ++ (codes " of "
        ++ (decimal counts.luks_found ++ (b' ' ∷ (noun ++ codes " unreadable by cryptsetup"))))

unfoldable pub version_result : LuksCounts → CheckResult
unfolding emit emit_skip
version_result counts =
    if ltb 0 counts.dump_failed
    then emit_skip version_name skip_exec_failed (unreadable counts (volumes counts.luks_found))
    else if ltb 0 counts.version_unknown_count
    then emit_skip version_name skip_output_unparseable (
        counted counts.version_unknown_count (codes "volume") (codes "volumes")
        ++ codes " with unparseable version")
    else if ltb 0 counts.luks1_count
    then emit version_name check_warn (
        decimal counts.luks1_count
        ++ (codes " LUKS1 "
            ++ (volumes counts.luks1_count ++ codes "; legacy format, no token support")))
    else emit version_name check_ok (
        codes "all "
        ++ (counted counts.luks2_count (codes "volume") (codes "volumes") ++ codes " LUKS2"))

unfoldable pub integrity_result : LuksCounts → CheckResult
unfolding emit emit_skip emit_skip_not_conf
integrity_result counts =
    if ltb 0 counts.dump_failed
    then emit_skip integrity_name skip_exec_failed (unreadable counts (volumes counts.luks_found))
    else if counts.integrity_count == 0
    then emit_skip_not_conf integrity_name (codes "dm-integrity")
    else if counts.integrity_count == counts.dump_ok
    then emit integrity_name check_ok (
        codes "enabled on all "
        ++ counted counts.integrity_count (codes "volume") (codes "volumes"))
    else emit integrity_name check_warn (
        codes "enabled on "
        ++ (decimal counts.integrity_count
            ++ (codes " of " ++ counted counts.dump_ok (codes "volume") (codes "volumes"))))

unfoldable pub tpm_result : LuksCounts → CheckResult
unfolding emit emit_skip
tpm_result counts =
    if not counts.any_token && counts.clevis_count == 0
    then emit tpm_name check_warn (codes "no LUKS device has TPM2 token")
    else if not counts.any_token
    then emit_skip tpm_name skip_probe_indeterminate
        (codes "clevis token present; pin not inspectable via luksDump")
    else if ltb 0 counts.dump_failed
    then emit tpm_name check_warn (
        codes "TPM2 token found, but "
        ++ (decimal counts.dump_failed
            ++ (codes " of "
                ++ (counted counts.luks_found (codes "device") (codes "devices")
                    ++ codes " unreadable"))))
    else if ltb 0 counts.luks_no_token || ltb 0 counts.clevis_count
    then emit tpm_name check_warn (codes "at least one LUKS device without a systemd-tpm2 token")
    else emit tpm_name check_ok
        (codes "TPM2 token on " ++ counted counts.luks_found (codes "device") (codes "devices"))

-- The row with what the PCRs mean for unlocking behind its text, which is cut at the buffer.
abbrev pub with_consequences : Bytes → CheckState → Bytes → ℕ → Bool → CheckResult
with_consequences name state text mask signed_policy =
    emit name state (append_unlock_consequences (fit detail_max text) detail_max mask signed_policy)

-- Where no volume is bound to fixed PCRs, but one to a signed policy.
unfoldable pub signed_rows : ℕ → Results
unfolding pcr_mask_to_str append_unlock_consequences emit
signed_rows mask =
    let pcr_str = pcr_mask_to_str mask 64 in
    with_consequences secure_boot_name check_ok (codes "signed policy (pubkey); PCRs: " ++ pcr_str)
      mask true
    ∷ (if is_set 11 mask
        then with_consequences chain_name check_ok (codes "signed policy; PCR 11 (UKI) measured")
            mask true
        else with_consequences chain_name check_warn
            (codes "signed policy; PCRs: " ++ (pcr_str ++ codes ", PCR 11 (UKI) absent")) mask true)
    ∷ []

-- Behind "PCRs: " and the PCRs.
abbrev pub about_pcrs : ℕ → Bytes → Bytes
about_pcrs mask rest = codes "PCRs: " ++ (pcr_mask_to_str mask 64 ++ rest)

abbrev pub unparsed : ℕ → Bytes
unparsed n =
    codes "; " ++ (counted n (codes "device") (codes "devices") ++ codes " PCR binding unreadable")

unfoldable pub fixed_secure_boot : ℕ → ℕ → CheckResult
unfolding pcr_mask_to_str append_unlock_consequences emit
fixed_secure_boot mask noparsed =
    if not (is_set 7 mask)
    then with_consequences secure_boot_name check_warn
        (about_pcrs mask (codes "; PCR 7 absent, Secure Boot state unmeasured")) mask false
    else if ltb 0 noparsed
    then with_consequences secure_boot_name check_warn (about_pcrs mask (unparsed noparsed)) mask
        false
    else with_consequences secure_boot_name check_ok
        (about_pcrs mask (codes "; Secure Boot state measured")) mask false

unfoldable pub fixed_chain : ℕ → ℕ → CheckResult
unfolding pcr_mask_to_str append_unlock_consequences emit
fixed_chain mask noparsed =
    let row = λ (state : CheckState) (rest : Bytes).
      with_consequences chain_name state (about_pcrs mask rest) mask false in
    if not (is_set 4 mask) && not (is_set 9 mask)
    then row check_warn (codes " only; bootloader and initramfs unprotected")
    else if not (is_set 4 mask)
    then row check_warn (codes "; bootloader (PCR 4) unmeasured")
    else if not (is_set 9 mask)
    then row check_warn (codes "; initramfs unprotected")
    else if ltb 0 noparsed
    then row check_warn (unparsed noparsed)
    else if is_set 0 mask
    then row check_ok (codes "; firmware and full boot chain measured")
    else row check_ok (codes "; boot chain measured")

-- One row under the two names.
abbrev pub both_rows : (Bytes → CheckResult) → Results
both_rows row = row secure_boot_name ∷ row chain_name ∷ []

unfoldable pub binding_rows : LuksCounts → Results
unfolding signed_rows fixed_secure_boot fixed_chain emit_skip
binding_rows counts =
    let mask = counts.weakest.mask in
    if not counts.any_token && counts.clevis_count == 0
    then both_rows
        (λ (name : Bytes). emit_skip name skip_subject_absent (codes "no TPM2 token to evaluate"))
    else if not counts.any_token
    then both_rows (λ (name : Bytes).
      emit_skip name skip_probe_indeterminate (codes "clevis binding; PCR policy not inspectable"))
    else if ltb 0 counts.dump_failed
    then both_rows (λ (name : Bytes).
      emit_skip name skip_exec_failed (unreadable counts (devices counts.luks_found)))
    else if mask == 2 ^ 32 - 1 || mask == 0
    then (if ltb 0 counts.signed_policy_count
        then signed_rows counts.signed_weakest.mask
        else both_rows (λ (name : Bytes).
          emit_skip name skip_output_unparseable (codes "PCR mask unreadable")))
    else fixed_secure_boot mask counts.luks_token_noparsed
      ∷ fixed_chain mask counts.luks_token_noparsed
      ∷ []

unfoldable pub counts_rows : Bool → LuksCounts → Results
unfolding five_rows version_result integrity_result tpm_result binding_rows emit_skip_subject
    emit_skip_exec_root emit_skip_hw
counts_rows tpm_present counts =
    if counts.luks_found == 0
    then five_rows (λ (name : Bytes). emit_skip_subject name (codes "LUKS volumes"))
    else if counts.dump_ok == 0
    then five_rows (λ (name : Bytes). emit_skip_exec_root name (codes "cryptsetup"))
    else version_result counts
      ∷ integrity_result counts
      ∷ (if not tpm_present
          then emit_skip_hw tpm_name (codes "TPM")
            ∷ both_rows (λ (name : Bytes). emit_skip_hw name (codes "TPM"))
          else tpm_result counts ∷ binding_rows counts)

abbrev pub volume_rows : Host → Bool → Option (ℕ × Bytes) → Results
volume_rows host truncated none = five_rows (λ (name : Bytes). emit_skip_exec name (codes "lsblk"))
volume_rows host truncated (some (status, lsblk_buf)) =
    if not (status == 0)
    then five_rows (λ (name : Bytes). emit_skip_exec name (codes "lsblk"))
    else if truncated
    then five_rows
        (λ (name : Bytes). emit_skip name skip_output_unparseable (codes "lsblk output truncated"))
    else counts_rows (file_exists host (codes "/sys/class/tpm/tpm0"))
        (count_volumes host (newline_lines lsblk_buf) no_volumes)

abbrev pub tool_rows : Host → Bytes → Bytes → Results
tool_rows host binary tool =
    five_rows (λ (name : Bytes). emit_skip_tool_or_untrusted host name binary tool)

unfoldable pub luks_results : Host → Results
unfolding luks_devices_result five_rows counts_rows count_volumes emit_skip emit_skip_exec
    emit_skip_tool_or_untrusted
luks_results host =
    let captured = capture_argv_status_ex host (lsblk_argv (codes "PATH,FSTYPE")) 4096 in
    luks_devices_result host
    ∷ (if not (command_exists host (codes "lsblk"))
        then tool_rows host (codes "lsblk") (codes "util-linux")
        else if not (command_exists host (codes "cryptsetup"))
        then tool_rows host (codes "cryptsetup") (codes "cryptsetup")
        else volume_rows host captured.truncated captured.answer)

unfoldable pub check_luks : Host → ℕ → Results
unfolding emit_all luks_results
check_luks host max_results = emit_all max_results (luks_results host) []
