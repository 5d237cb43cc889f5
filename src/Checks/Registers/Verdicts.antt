-- ===== src/Checks/Registers/Verdicts.antt =====
-- When the checks of the registers pass and fail.
use bythos.Base.{
  ℕ, ◌<◌, ◌≡◌, ◌↔◌, ◌⊎◌, refl, ltb, ap, Bool, true, false, some, List, [], ◌∷◌, Bytes, arith, leb,
  Bool-cases, Option-cases, inl, inr,
}
use bythos.Posture.Types.{
  emit_skip_vendor, emit_skip_hw, emit_skip_exec, emit_skip_exec_root, emit_result, make_skip,
  make_skip_root, CheckState, CheckResult, Results, check_ok, check_skip, make_result,
}
use bythos.Silicon.Cpu.{CpuVendor, cpu_vendor_amd, cpu_vendor_intel, cpu_vendor_unknown}
use bythos.Runtime.Host.{Host, Opened, opened, access_denied, open_failed}
use bythos.Checks.Tools.{host_vendor}
use bythos.Checks.Registers.{
  bios_cntl_config_path, is_set, bios_cntl_verdict, read_bios_cntl, check_bios_cntl,
}

abbrev pub states : Results → List CheckState
states [] = []
states (r ∷ rs) = r.state ∷ states rs

-- The register can be read, and it lets nothing but the management mode write the firmware.
pub record IsProtected (host : Host) : Type 0 where
  pub path : Bytes
  pub byte : ℕ
  pub is_intel : host_vendor host ≡ cpu_vendor_intel
  pub has_config : bios_cntl_config_path host ≡ some path
  pub can_open : host.open_read path ≡ opened
  pub is_read : host.pread path 0xDC 1 ≡ byte ∷ []
  pub not_writable : is_set 0 byte ≡ false
  pub is_locked : is_set 1 byte ≡ true
  pub by_smm : is_set 5 byte ≡ true

abbrev pub Passes : Results → Type 0
Passes rs = states rs ≡ check_ok ∷ []

pub vendor-cases :
    (v : CpuVendor) → (v ≡ cpu_vendor_unknown) ⊎ ((v ≡ cpu_vendor_amd) ⊎ (v ≡ cpu_vendor_intel))
vendor-cases cpu_vendor_unknown = inl refl
vendor-cases cpu_vendor_amd = inr (inl refl)
vendor-cases cpu_vendor_intel = inr (inr refl)

pub Opened-cases : (o : Opened) → (o ≡ opened) ⊎ ((o ≡ access_denied) ⊎ (o ≡ open_failed))
Opened-cases opened = inl refl
Opened-cases access_denied = inr (inl refl)
Opened-cases open_failed = inr (inr refl)

abbrev first_is_ok : List CheckState → Bool
first_is_ok (check_ok ∷ states) = true
first_is_ok _ = false

one-cases :
    (s : Bytes)
    → ((b : ℕ) × (s ≡ b ∷ [])) ⊎ ((s ≡ []) ⊎ ((b : ℕ) × (c : ℕ) × (t : Bytes) × (s ≡ b ∷ c ∷ t)))
one-cases [] = inr (inl refl)
one-cases (b ∷ []) = inl (b, refl)
one-cases (b ∷ c ∷ t) = inr (inr (b, c, t, refl))

-- A check that skips does not pass.
emit_skip-Passes :
    (max_results : ℕ) (r : CheckResult)
    → r.state ≡ check_skip
    → Passes (emit_result max_results r [])
    → ⊥
unfolding emit_result
emit_skip-Passes max_results r skips h = elim (Bool-cases (ltb 0 max_results)) [
  | inl room ↦ absurd (ground (arith, ap first_is_ok (rw (room, skips) at h)))
  | inr full ↦ absurd (ground (arith, ap first_is_ok (rw full at h)))
]

verdict-Passes :
    (byte : ℕ)
    → Passes (bios_cntl_verdict byte)
    → (is_set 0 byte ≡ false) × (is_set 1 byte ≡ true) × (is_set 5 byte ≡ true)
unfolding bios_cntl_verdict make_result
verdict-Passes byte h = elim (Bool-cases (is_set 0 byte)) [
  | inl writable ↦ absurd (ground (arith, ap first_is_ok (rw (writable, bios_cntl_verdict) at h)))
  | inr closed ↦ elim (Bool-cases (is_set 1 byte)) [
    | inr unlocked ↦
        absurd (ground (arith, ap first_is_ok (rw (closed, unlocked, bios_cntl_verdict) at h)))
    | inl locked ↦ elim (Bool-cases (is_set 5 byte)) [
      | inl smm ↦ (closed, locked, smm)
      | inr any ↦
          absurd (ground (arith, ap first_is_ok (rw (closed, locked, any, bios_cntl_verdict) at h)))
    ]
  ]
]

Passes-verdict :
    (byte : ℕ)
    → is_set 0 byte ≡ false
    → is_set 1 byte ≡ true
    → is_set 5 byte ≡ true
    → Passes (bios_cntl_verdict byte)
unfolding bios_cntl_verdict make_result
Passes-verdict byte h0 h1 h5 = rw (h0, h1, h5) refl

read-IsProtected :
    (host : Host) (max_results : ℕ) (path : Bytes)
    → host_vendor host ≡ cpu_vendor_intel
    → bios_cntl_config_path host ≡ some path
    → Passes (read_bios_cntl host max_results path)
    → IsProtected host
unfolding read_bios_cntl emit_skip_exec emit_skip_exec_root make_skip_root make_skip make_result
read-IsProtected host max_results path intel config h = elim (Opened-cases (host.open_read path)) [
  | inr (inl denied) ↦
      absurd (emit_skip-Passes max_results _ refl (rw (denied, read_bios_cntl) at h))
  | inr (inr failed) ↦
      absurd (emit_skip-Passes max_results _ refl (rw (failed, read_bios_cntl) at h))
  | inl can ↦ elim (one-cases (host.pread path 0xDC 1)) [
    | inr (inl nothing) ↦
        absurd (emit_skip-Passes max_results _ refl (rw (can, nothing, read_bios_cntl) at h))
    | inr (inr (b, c, t, more)) ↦
        absurd (emit_skip-Passes max_results _ refl (rw (can, more, read_bios_cntl) at h))
    | inl (byte, is_byte) ↦
        let (closed, locked, smm) = verdict-Passes byte (rw (can, is_byte, read_bios_cntl) at h) in
        record {
          path = path;
          byte = byte;
          is_intel = intel;
          has_config = config;
          can_open = can;
          is_read = is_byte;
          not_writable = closed;
          is_locked = locked;
          by_smm = smm;
        }
  ]
]

check-IsProtected :
    (host : Host) (max_results : ℕ) → Passes (check_bios_cntl host max_results) → IsProtected host
unfolding check_bios_cntl emit_skip_hw emit_skip_vendor make_skip make_result
check-IsProtected host max_results h = elim (Bool-cases (leb max_results 0)) [
  | inl full ↦ absurd (ground (arith, ap first_is_ok (rw (full, check_bios_cntl) at h)))
  | inr room ↦ elim (vendor-cases (host_vendor host)) [
    | inl unknown ↦
        absurd (emit_skip-Passes max_results _ refl (rw (room, unknown, check_bios_cntl) at h))
    | inr (inl amd) ↦
        absurd (emit_skip-Passes max_results _ refl (rw (room, amd, check_bios_cntl) at h))
    | inr (inr intel) ↦ elim (Option-cases (bios_cntl_config_path host)) [
      | inl none_found ↦
          absurd (
            emit_skip-Passes max_results _ refl
              (rw (room, intel, none_found, check_bios_cntl) at h))
      | inr (path, config) ↦
          read-IsProtected host max_results path intel config
            (rw (room, intel, config, check_bios_cntl) at h)
    ]
  ]
]

IsProtected-check :
    (host : Host) (max_results : ℕ)
    → 0 < max_results
    → IsProtected host
    → Passes (check_bios_cntl host max_results)
unfolding check_bios_cntl read_bios_cntl
IsProtected-check host max_results h p =
    let room : leb max_results 0 ≡ false = ground arith in
    rw (room, p.is_intel, p.has_config, p.can_open, p.is_read, check_bios_cntl, read_bios_cntl)
      (Passes-verdict p.byte p.not_writable p.is_locked p.by_smm)

-- With room for a result, the check of BIOS_CNTL passes exactly where the processor is Intel's, the
-- configuration space of the device can be opened and its register read, the bit that lets the
-- firmware be written is clear, and the bits of the lock and of the management mode are set.
pub check_bios_cntl-IsProtected :
    (host : Host) (max_results : ℕ)
    → 0 < max_results
    → Passes (check_bios_cntl host max_results) ↔ IsProtected host
check_bios_cntl-IsProtected host max_results h =
    (check-IsProtected host max_results, IsProtected-check host max_results h)
