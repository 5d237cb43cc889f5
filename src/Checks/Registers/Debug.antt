-- ===== src/Checks/Registers/Debug.antt =====
-- When the check of src/check_dci.c fails: a processor that can be debugged over USB.
use bythos.Base.{
  ℕ, ◌<◌, ◌≡◌, ◌↔◌, refl, ap, ltb, Bool, true, false, ◌^◌, List, [], ◌∷◌, codes, arith, length, leb,
  ◌==◌, Bool-cases, inl, inr,
}
use bythos.Posture.Types.{
  CheckState, CheckResult, Results, check_fail, check_skip, make_result, make_skip, make_skip_root,
  emit_result, emit_skip_vendor, emit_skip_feature, emit_skip_exec, emit_skip_exec_root,
}
use bythos.Silicon.Cpu.{cpu_vendor_intel}
use bythos.Runtime.Host.{Host, opened}
use bythos.Runtime.Files.{file_exists}
use bythos.Checks.Tools.{host_vendor}
use bythos.Checks.Registers.{
  msr_path, word_value, has_bits, dci_verdict, read_dci, check_amd_psp, check_dci,
}
use bythos.Checks.Registers.Verdicts.{states, vendor-cases, Opened-cases}

-- The register can be read, and its bit of the debug interface is set.
pub record IsDebuggable (host : Host) : Type 0 where
  pub is_intel : host_vendor host ≡ cpu_vendor_intel
  pub has_msr : file_exists host msr_path ≡ true
  pub can_open : host.open_read msr_path ≡ opened
  pub is_read : (length (host.pread msr_path 0xC80 8) == 8) ≡ true
  pub is_enabled : has_bits 1 (word_value (host.pread msr_path 0xC80 8)) ≡ true

abbrev pub Fails : Results → Type 0
Fails rs = states rs ≡ check_fail ∷ []

abbrev first_is_fail : List CheckState → Bool
first_is_fail (check_fail ∷ states) = true
first_is_fail _ = false

emit_skip-Fails :
    (max_results : ℕ) (r : CheckResult)
    → r.state ≡ check_skip
    → Fails (emit_result max_results r [])
    → ⊥
unfolding emit_result
emit_skip-Fails max_results r skips h = elim (Bool-cases (ltb 0 max_results)) [
  | inl room ↦ absurd (ground (arith, ap first_is_fail (rw (room, skips) at h)))
  | inr full ↦ absurd (ground (arith, ap first_is_fail (rw full at h)))
]

check_amd_psp-Fails : (host : Host) → Fails (check_amd_psp host) → ⊥
unfolding check_amd_psp make_result
check_amd_psp-Fails host h = elim (Bool-cases (file_exists host (codes "/sys/module/ccp"))) [
  | inl loaded ↦ absurd (ground (arith, ap first_is_fail (rw (loaded, check_amd_psp) at h)))
  | inr missing ↦ absurd (ground (arith, ap first_is_fail (rw (missing, check_amd_psp) at h)))
]

dci_verdict-Fails : (value : ℕ) → Fails (dci_verdict value) → has_bits 1 value ≡ true
unfolding dci_verdict make_result
dci_verdict-Fails value h = elim (Bool-cases (has_bits 1 value)) [
  | inl enabled ↦ enabled
  | inr disabled ↦ elim (Bool-cases (has_bits (2 ^ 30) value)) [
    | inl locked ↦
        absurd (ground (arith, ap first_is_fail (rw (disabled, locked, dci_verdict) at h)))
    | inr unlocked ↦
        absurd (ground (arith, ap first_is_fail (rw (disabled, unlocked, dci_verdict) at h)))
  ]
]

Fails-dci_verdict : (value : ℕ) → has_bits 1 value ≡ true → Fails (dci_verdict value)
unfolding dci_verdict make_result
Fails-dci_verdict value enabled = rw (enabled, dci_verdict) refl

read-IsDebuggable :
    (host : Host) (max_results : ℕ)
    → host_vendor host ≡ cpu_vendor_intel
    → file_exists host msr_path ≡ true
    → Fails (read_dci host max_results)
    → IsDebuggable host
unfolding read_dci emit_skip_exec emit_skip_exec_root make_skip_root make_skip make_result
read-IsDebuggable host max_results intel msr h = elim (Opened-cases (host.open_read msr_path)) [
  | inr (inl denied) ↦ absurd (emit_skip-Fails max_results _ refl (rw (denied, read_dci) at h))
  | inr (inr failed) ↦ absurd (emit_skip-Fails max_results _ refl (rw (failed, read_dci) at h))
  | inl can ↦ elim (Bool-cases (length (host.pread msr_path 0xC80 8) == 8)) [
    | inr short ↦ absurd (emit_skip-Fails max_results _ refl (rw (can, short, read_dci) at h))
    | inl whole ↦ record {
      is_intel = intel;
      has_msr = msr;
      can_open = can;
      is_read = whole;
      is_enabled = dci_verdict-Fails _ (rw (can, whole, read_dci) at h);
    }
  ]
]

check-IsDebuggable :
    (host : Host) (max_results : ℕ) → Fails (check_dci host max_results) → IsDebuggable host
unfolding check_dci emit_skip_feature emit_skip_vendor make_skip make_result
check-IsDebuggable host max_results h = elim (Bool-cases (leb max_results 0)) [
  | inl full ↦ absurd (ground (arith, ap first_is_fail (rw (full, check_dci) at h)))
  | inr room ↦ elim (vendor-cases (host_vendor host)) [
    | inl unknown ↦ absurd (emit_skip-Fails max_results _ refl (rw (room, unknown, check_dci) at h))
    | inr (inl amd) ↦ absurd (check_amd_psp-Fails host (rw (room, amd, check_dci) at h))
    | inr (inr intel) ↦ elim (Bool-cases (file_exists host msr_path)) [
      | inr missing ↦
          absurd (emit_skip-Fails max_results _ refl (rw (room, intel, missing, check_dci) at h))
      | inl msr ↦
          read-IsDebuggable host max_results intel msr (rw (room, intel, msr, check_dci) at h)
    ]
  ]
]

IsDebuggable-check :
    (host : Host) (max_results : ℕ)
    → 0 < max_results
    → IsDebuggable host
    → Fails (check_dci host max_results)
unfolding check_dci read_dci
IsDebuggable-check host max_results h p =
    let room : leb max_results 0 ≡ false = ground arith in
    rw (room, p.is_intel, p.has_msr, p.can_open, p.is_read, check_dci, read_dci)
      (Fails-dci_verdict _ p.is_enabled)

-- With room for a result, the check of the debug interface fails exactly where the processor is
-- Intel's, its registers can be opened and eight bytes of the debug register read, and the bit that
-- enables the interface is set.
pub check_dci-IsDebuggable :
    (host : Host) (max_results : ℕ)
    → 0 < max_results
    → Fails (check_dci host max_results) ↔ IsDebuggable host
check_dci-IsDebuggable host max_results h =
    (check-IsDebuggable host max_results, IsDebuggable-check host max_results h)
