-- ===== src/Checks/Tpm.antt =====
-- src/check_tpm.c: the trusted platform module.
use bythos.Base.{
  ℕ, ◌+◌, ◌-◌, ◌*◌, min, Bool, true, false, not, Option, none, some, List, [], ◌∷◌, ◌++◌, Bytes,
  codes, length, drop, ltb, leb, ◌==◌, if◌then◌else◌, equal, contains, strstr, is_before, is_blank,
  is_digit, take_while, drop_while, trim, fit, decimal,
}
use bythos.Posture.Types.{
  check_ok, check_warn, skip_feature_absent, CheckResult, Results, emit, emit_skip, emit_skip_hw,
  emit_skip_exec_root, emit_skip_parse, emit_skip_field, emit_all,
}
use bythos.Firmware.Sbat.{ulong_max, digits_value}
use bythos.Silicon.Cpu.{pcr_zero_check, all_zeros, not_zero, not_found}
use bythos.Runtime.Host.{Host}
use bythos.Runtime.Files.{file_exists, read_file_text, file_lines}
use bythos.Runtime.Processes.{command_exists, capture_success}
use bythos.Checks.Tools.{emit_skip_tool_or_untrusted}
use bythos.Storage.{is_hex_digit}

-- The value of a digit in base sixteen.
unfoldable pub hex_value : ℕ → ℕ
hex_value c = if is_digit c then c - b'0' else if leb b'a' c then c - b'a' + 10 else c - b'A' + 10

-- The digits of a `strtoul` in base sixteen, saturated at the largest value.
unfoldable pub hex_digits_value : Bytes → ℕ → ℕ
unfolding hex_value
hex_digits_value [] n = n
hex_digits_value (c ∷ s) n = hex_digits_value s (min ulong_max (n * 16 + hex_value c))

-- `strtoul(hex, &end, 16)` at an "0x"; with no digit behind it the number is the 0.
unfoldable pub strtoul_hex : Bytes → ℕ
unfolding hex_digits_value
strtoul_hex hex = hex_digits_value (take_while is_hex_digit (drop 2 hex)) 0

-- Behind "value:" and blanks, where that stands in front of `end` and a digit follows.
unfoldable pub decimal_value : Bytes → Bytes → Option ℕ
decimal_value cursor end = elim (strstr cursor (codes "value:")) [
  | none ↦ none
  | some value_kw ↦
      if not (is_before value_kw end)
      then none
      else (let digits = take_while is_digit (drop_while is_blank (drop 6 value_kw)) in
          elim digits [ [] ↦ none | c ∷ s ↦ some (digits_value (c ∷ s) 0) ])
]

unfoldable pub hexadecimal_value : Bytes → Bytes → Option ℕ
unfolding strtoul_hex
hexadecimal_value cursor end = elim (strstr cursor (codes "0x")) [
  | none ↦ none
  | some hex ↦ if is_before hex end then some (strtoul_hex hex) else none
]

abbrev pub pointer_or_end : Option Bytes → Bytes
pointer_or_end none = []
pointer_or_end (some p) = p

unfoldable pub parse_max_auth_fail : Bytes → Option ℕ
unfolding decimal_value hexadecimal_value
parse_max_auth_fail text = elim (strstr text (codes "TPM2_PT_MAX_AUTH_FAIL")) [
  | none ↦ none
  | some key ↦
      (let cursor = drop 21 key in
        let end = pointer_or_end (strstr (drop 1 cursor) (codes "TPM2_PT_")) in
        elim (decimal_value cursor end) [ some v ↦ some v | none ↦ hexadecimal_value cursor end ])
]

unfoldable pub presence_version : Bytes → CheckResult
unfolding emit
presence_version trimmed =
    let name = codes "TPM presence" in
    if equal trimmed (codes "2")
    then emit name check_ok (codes "TPM 2.0 device visible")
    else if not (length trimmed == 0)
    then emit name check_warn
        (fit 128 (codes "TPM " ++ (trimmed ++ codes ".x device visible; expected TPM 2.0")))
    else emit name check_warn (codes "TPM device visible but version not visible")

unfoldable pub presence_result : Host → Bool → CheckResult
unfolding emit presence_version
presence_result host tpm_present =
    let name = codes "TPM presence" in
    if not tpm_present
    then emit name check_warn (codes "no TPM device visible")
    else elim (read_file_text host (codes "/sys/class/tpm/tpm0/tpm_version_major") 64) [
      | none ↦ emit name check_warn (codes "TPM device visible but version unreadable")
      | some major ↦ presence_version (trim major)
    ]

unfoldable pub lockout_name : Bytes
lockout_name = codes "DA lockout"

-- The verdict on the number of failures that are let pass.
unfoldable pub lockout_verdict : ℕ → CheckResult
unfolding emit
lockout_verdict n =
    let says = λ (policy : Bytes). codes "maxAuthFail=" ++ (decimal n ++ policy) in
    if n == 0
    then emit lockout_name check_warn (codes "maxAuthFail=0; lockout disabled or misconfigured")
    else if leb n 32
    then emit lockout_name check_ok (says (codes "; strict policy"))
    else if leb n 255
    then emit lockout_name check_ok (says (codes "; moderate policy"))
    else if ltb n 1000
    then emit lockout_name check_warn (says (codes "; loose policy"))
    else emit lockout_name check_warn (says (codes "; very loose policy (PIN brute-force risk)"))

unfoldable pub lockout_result : Host → Bool → CheckResult
unfolding lockout_verdict parse_max_auth_fail emit_skip_hw emit_skip_tool_or_untrusted
    emit_skip_exec_root emit_skip_parse
lockout_result host tpm_present =
    let tool = codes "tpm2_getcap" in
    if not tpm_present
    then emit_skip_hw lockout_name (codes "TPM")
    else if not (command_exists host tool)
    then emit_skip_tool_or_untrusted host lockout_name tool (codes "tpm2-tools")
    else elim (capture_success host (tool ∷ codes "properties-variable" ∷ []) 4096) [
      | none ↦ emit_skip_exec_root lockout_name tool
      | some buf ↦ elim (parse_max_auth_fail buf) [
        | none ↦ emit_skip_parse lockout_name tool
        | some max_auth_fail ↦ lockout_verdict max_auth_fail
      ]
    ]

-- The check of one PCR, with what is said of one that is empty and of one that is not.
unfoldable pub pcr_result : Host → Bool → Bytes → Bytes → ℕ → Bytes → Bytes → CheckResult
unfolding emit emit_skip_hw emit_skip_tool_or_untrusted emit_skip_exec_root emit_skip_field
pcr_result host tpm_present name bank pcr_num empty measured =
    let tool = codes "tpm2_pcrread" in
    if not tpm_present
    then emit_skip_hw name (codes "TPM")
    else if not (command_exists host tool)
    then emit_skip_tool_or_untrusted host name tool (codes "tpm2-tools")
    else elim (capture_success host (tool ∷ bank ∷ []) 512) [
      | none ↦ emit_skip_exec_root name tool
      | some buf ↦ elim (pcr_zero_check buf pcr_num) [
        | not_found ↦ emit_skip_field name (codes "PCR") tool
        | all_zeros ↦ emit name check_warn empty
        | not_zero ↦ emit name check_ok measured
      ]
    ]

unfoldable pub any_contains : Bytes → List Bytes → Bool
any_contains needle [] = false
any_contains needle (l ∷ ls) = if contains l needle then true else any_contains needle ls

unfoldable pub event_log_ascii : Host → CheckResult
unfolding any_contains emit emit_skip
event_log_ascii host =
    let name = codes "TPM event log ASCII" in
    elim (host.file (codes "/sys/kernel/security/tpm0/ascii_bios_measurements")) [
      | none ↦ emit_skip name skip_feature_absent (codes "kernel parser unavailable")
      | some bytes ↦
          if any_contains (codes "S-CRTM Version") (file_lines 512 bytes)
          then emit name check_ok (codes "S-CRTM Version event present")
          else emit name check_warn (codes "S-CRTM Version event absent")
    ]

unfoldable pub event_log_results : Host → Bool → Results
unfolding event_log_ascii emit emit_skip emit_skip_hw
event_log_results host tpm_present =
    let name = codes "TPM event log" in
    let ascii = codes "TPM event log ASCII" in
    if not tpm_present
    then emit_skip_hw name (codes "TPM") ∷ emit_skip_hw ascii (codes "TPM") ∷ []
    else if not (file_exists host (codes "/sys/kernel/security/tpm0/binary_bios_measurements"))
    then emit_skip name skip_feature_absent (codes "not exposed by firmware")
      ∷ emit_skip ascii skip_feature_absent (codes "binary log absent")
      ∷ []
    else emit name check_ok (codes "binary log present") ∷ event_log_ascii host ∷ []

unfoldable pub tpm_results : Host → Results
unfolding presence_result lockout_result pcr_result event_log_results
tpm_results host =
    let tpm_present = file_exists host (codes "/sys/class/tpm/tpm0") in
    presence_result host tpm_present
    ∷ lockout_result host tpm_present
    ∷ pcr_result host tpm_present (codes "TPM PCR 7") (codes "sha256:7") 7
        (codes "empty; Secure Boot state not measured into TPM")
        (codes "non-zero; Secure Boot state measured")
    ∷ pcr_result host tpm_present (codes "TPM PCR 0") (codes "sha256:0") 0
        (codes "zero; firmware not measured at boot") (codes "non-zero; firmware measured at boot")
    ∷ event_log_results host tpm_present

unfoldable pub check_tpm : Host → ℕ → Results
unfolding emit_all tpm_results
check_tpm host max_results = emit_all max_results (tpm_results host) []
