-- ===== src/Checks/Secureboot/State.antt =====
-- When Secure Boot is said to be enabled or disabled.
use bythos.Base.{
  ◌≡◌, ◌≢◌, ◌↔◌, refl, sym, ap, ◌∙◌, Bool, true, false, Option, none, some, Bytes, Bool-cases,
  Option-cases, inl, inr,
}
use bythos.Posture.Types.{
  CheckState, check_ok, check_skip, check_fail, emit, emit_skip_exec, emit_skip_parse, make_result,
  make_skip, make_skip_actionable,
}
use bythos.Firmware.Labels.{
  SecureBootStatus, secure_boot_unknown, secure_boot_enabled, secure_boot_disabled,
  parse_secure_boot_state,
}
use bythos.Runtime.Host.{Host}
use bythos.Runtime.Processes.{command_exists, command_untrusted}
use bythos.Checks.Tools.{emit_skip_tool_or_untrusted}
use bythos.Checks.Secureboot.{sb_state_output, state_result, mokutil, state_name}

-- The variable says it; or, where the variable cannot be read, a trusted mokutil that ends well.
pub data Says (host : Host) : Option Bool → SecureBootStatus → Type 0 where
  variable_set : Says host (some true) secure_boot_enabled
  variable_clear : Says host (some false) secure_boot_disabled
  reported :
      (buffer : Bytes) (status : SecureBootStatus)
      → command_exists host mokutil ≡ true
      → sb_state_output host ≡ some buffer
      → parse_secure_boot_state buffer ≡ status
      → Says host none status

-- What the state of a row stands for.
abbrev VerdictOf : SecureBootStatus → CheckState → Type 0
VerdictOf secure_boot_enabled state = state ≡ check_ok
VerdictOf secure_boot_disabled state = state ≡ check_fail
VerdictOf secure_boot_unknown state = (state ≢ check_ok) × (state ≢ check_fail)

untrusted_row :
    (host : Host) (name binary tool : Bytes)
    → VerdictOf secure_boot_unknown (emit_skip_tool_or_untrusted host name binary tool).state
unfolding emit_skip_tool_or_untrusted make_result make_skip_actionable make_skip
untrusted_row host name binary tool = elim (Bool-cases (command_untrusted host binary)) [
  | inl untrusted ↦ rw untrusted ((λ h. cc), λ h. cc)
  | inr missing ↦ rw missing ((λ h. cc), λ h. cc)
]

abbrev Reported : Host → SecureBootStatus → Type 0
Reported host status =
    (buffer : Bytes) × (command_exists host mokutil ≡ true)
    × (sb_state_output host ≡ some buffer)
    × (parse_secure_boot_state buffer ≡ status)

abbrev Said : Host → Option Bool → SecureBootStatus → Type 0
Said host (some true) status = status ≡ secure_boot_enabled
Said host (some false) status = status ≡ secure_boot_disabled
Said host none status = Reported host status

Says-Said :
    {host : Host} {variable : Option Bool} {status : SecureBootStatus}
    → Says host variable status
    → Said host variable status
Says-Said variable_set = refl
Says-Said variable_clear = refl
Says-Said (reported buffer status exists output parsed) = (buffer, exists, output, parsed)

-- The row agrees with what is said.
abbrev Agrees : Host → Option Bool → CheckState → Type 0
Agrees host variable state =
    ((state ≡ check_ok) ↔ Says host variable secure_boot_enabled)
    × ((state ≡ check_fail) ↔ Says host variable secure_boot_disabled)

-- Where nothing is reported, a row that neither passes nor fails agrees.
no_report :
    (host : Host) (state : CheckState)
    → ((status : SecureBootStatus) → status ≢ secure_boot_unknown → ¬ Reported host status)
    → VerdictOf secure_boot_unknown state
    → Agrees host none state
no_report host state silent (not_ok, not_fail) = (
  ((λ h. absurd (not_ok h)), λ s. absurd (silent secure_boot_enabled (λ e. cc) (Says-Said s))),
  ((λ h. absurd (not_fail h)), λ s. absurd (silent secure_boot_disabled (λ e. cc) (Says-Said s))),
)

-- Only one status is reported.
one_status :
    (host : Host) (buffer : Bytes) (status other : SecureBootStatus)
    → sb_state_output host ≡ some buffer
    → parse_secure_boot_state buffer ≡ status
    → Reported host other
    → status ≡ other
one_status host buffer status other output parsed (text, exists, o, p) =
    let same : buffer ≡ text = cc in sym parsed ∙ ap parse_secure_boot_state same ∙ p

parsed_row :
    (host : Host) (buffer : Bytes) (status : SecureBootStatus)
    → command_exists host mokutil ≡ true
    → sb_state_output host ≡ some buffer
    → parse_secure_boot_state buffer ≡ status
    → Agrees host none (state_result host true none).state
unfolding state_result emit emit_skip_parse make_skip make_result
parsed_row host buffer secure_boot_enabled exists output parsed =
    rw (output, parsed, state_result)
      (
        ((λ h. reported buffer secure_boot_enabled exists output parsed), λ s. refl),
        (
          (λ h. absurd cc),
          λ s.
              let e = one_status host buffer _ secure_boot_disabled output parsed (Says-Said s) in
              absurd cc,
        ),
      )
parsed_row host buffer secure_boot_disabled exists output parsed =
    rw (output, parsed, state_result)
      (
        (
          (λ h. absurd cc),
          λ s.
              let e = one_status host buffer _ secure_boot_enabled output parsed (Says-Said s) in
              absurd cc,
        ),
        ((λ h. reported buffer secure_boot_disabled exists output parsed), λ s. refl),
      )
parsed_row host buffer secure_boot_unknown exists output parsed =
    rw (output, parsed, state_result)
      (no_report host check_skip
        (λ status known r. known (sym (one_status host buffer _ status output parsed r)))
        ((λ h. cc), λ h. cc))

unparsed_row :
    (host : Host) (has_mokutil : Bool)
    → command_exists host mokutil ≡ has_mokutil
    → Agrees host none (state_result host has_mokutil none).state
unfolding state_result emit_skip_exec make_skip make_result
unparsed_row host false missing =
    no_report host _ (λ status known r. absurd cc) (untrusted_row host state_name mokutil mokutil)
unparsed_row host true exists = elim (Option-cases (sb_state_output host)) [
  | inl failed ↦
      rw (failed, state_result)
        (no_report host check_skip (λ status known r. absurd cc) ((λ h. cc), λ h. cc))
  | inr (buffer, output) ↦
      parsed_row host buffer (parse_secure_boot_state buffer) exists output refl
]

-- The row on the state passes exactly where Secure Boot is said to be enabled, and fails exactly
-- where it is said to be disabled: by the variable where that can be read, and otherwise by a
-- mokutil that is trusted and ends with status 0.
pub state_result-Says :
    (host : Host) (variable : Option Bool)
    → let state = (state_result host (command_exists host mokutil) variable).state in
      ((state ≡ check_ok) ↔ Says host variable secure_boot_enabled)
      × ((state ≡ check_fail) ↔ Says host variable secure_boot_disabled)
unfolding state_result emit make_result
state_result-Says host (some true) =
    (((λ h. variable_set), λ s. refl), ((λ h. absurd cc), λ s. let e = Says-Said s in absurd cc))
state_result-Says host (some false) =
    (((λ h. absurd cc), λ s. let e = Says-Said s in absurd cc), ((λ h. variable_clear), λ s. refl))
state_result-Says host none = unparsed_row host (command_exists host mokutil) refl
