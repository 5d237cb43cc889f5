-- ===== src/Checks/Fwupd/Rows.antt =====
-- src/check_fwupd.c: which attributes have a row, and the row on Boot Guard.
use bythos.Base.{
  ℕ, ◌-◌, Bool, false, not, Option, none, some, List, [], ◌∷◌, ◌++◌, Bytes, codes, length,
  if◌then◌else◌, equal,
}
use bythos.Posture.Types.{check_ok, check_warn, skip_feature_absent, CheckResult, emit, emit_skip}
use bythos.Firmware.Hsi.{not_supported_text}
use bythos.Firmware.Hsi.Attribute.{HsiAttribute}
use bythos.Silicon.Cpu.{CpuVendor, cpu_vendor_amd, cpu_vendor_intel}
use bythos.Checks.Tools.{emit_guarded}
use bythos.Checks.Fwupd.Hsi.{
  hsi_format_warn, HsiReport, hsi_json, emit_hsi_unavailable, find_attribute, mark_found, HsiState,
  HsiRow, emit_hsi_rows,
}

unfoldable pub universal_rows : List HsiRow
universal_rows =
    record {
      name = codes "HSI: platform fused";
      id = codes "org.fwupd.hsi.PlatformFused";
      positive = codes "locked";
      ok_msg = codes "security fuses set";
    }
    ∷ record {
      name = codes "HSI: debug locked";
      id = codes "org.fwupd.hsi.PlatformDebugLocked";
      positive = codes "locked";
      ok_msg = codes "locked";
    }
    ∷ record {
      name = codes "HSI: Secure Boot";
      id = codes "org.fwupd.hsi.Uefi.SecureBoot";
      positive = codes "enabled";
      ok_msg = codes "enabled";
    }
    ∷ record {
      name = codes "HSI: UEFI PK";
      id = codes "org.fwupd.hsi.Uefi.Pk";
      positive = codes "valid";
      ok_msg = codes "enrolled";
    }
    ∷ record {
      name = codes "HSI: UEFI db";
      id = codes "org.fwupd.hsi.Uefi.Db";
      positive = codes "valid";
      ok_msg = codes "valid";
    }
    ∷ record {
      name = codes "HSI: UEFI boot variables";
      id = codes "org.fwupd.hsi.Uefi.BootserviceVars";
      positive = codes "locked";
      ok_msg = codes "locked";
    }
    ∷ record {
      name = codes "HSI: capsule updates";
      id = codes "org.fwupd.hsi.Bios.CapsuleUpdates";
      positive = codes "enabled";
      ok_msg = codes "authentication enabled";
    }
    ∷ record {
      name = codes "HSI: TPM 2.0";
      id = codes "org.fwupd.hsi.Tpm.Version20";
      positive = codes "found";
      ok_msg = codes "present";
    }
    ∷ record {
      name = codes "HSI: TPM empty PCR";
      id = codes "org.fwupd.hsi.Tpm.EmptyPcr";
      positive = codes "valid";
      ok_msg = codes "no unexpected empty PCRs";
    }
    ∷ record {
      name = codes "HSI: TPM PCR0 reconstruction";
      id = codes "org.fwupd.hsi.Tpm.ReconstructionPcr0";
      positive = codes "valid";
      ok_msg = codes "valid";
    }
    ∷ record {
      name = codes "HSI: IOMMU";
      id = codes "org.fwupd.hsi.Iommu";
      positive = codes "enabled";
      ok_msg = codes "enabled";
    }
    ∷ record {
      name = codes "HSI: pre-boot DMA protection";
      id = codes "org.fwupd.hsi.PrebootDma";
      positive = codes "enabled";
      ok_msg = codes "active";
    }
    ∷ record {
      name = codes "HSI: encrypted RAM";
      id = codes "org.fwupd.hsi.EncryptedRam";
      positive = codes "enabled";
      ok_msg = codes "memory encryption active";
    }
    ∷ []

unfoldable pub amd_rows : List HsiRow
amd_rows =
    record {
      name = codes "HSI: platform secure boot";
      id = codes "org.fwupd.hsi.Amd.PlatformSecureBoot";
      positive = codes "enabled";
      ok_msg = codes "fused at factory";
    }
    ∷ record {
      name = codes "HSI: SMM locked";
      id = codes "org.fwupd.hsi.Amd.SmmLocked";
      positive = codes "locked";
      ok_msg = codes "locked";
    }
    ∷ record {
      name = codes "HSI: SPI replay protection";
      id = codes "org.fwupd.hsi.Amd.SpiReplayProtection";
      positive = codes "enabled";
      ok_msg = codes "enabled";
    }
    ∷ record {
      name = codes "HSI: firmware rollback protection";
      id = codes "org.fwupd.hsi.Amd.RollbackProtection";
      positive = codes "enabled";
      ok_msg = codes "enabled";
    }
    ∷ record {
      name = codes "HSI: SPI write protection";
      id = codes "org.fwupd.hsi.Amd.SpiWriteProtection";
      positive = codes "enabled";
      ok_msg = codes "enabled";
    }
    ∷ []

unfoldable pub intel_rows : List HsiRow
intel_rows =
    record {
      name = codes "HSI: SPI BIOSWE";
      id = codes "org.fwupd.hsi.Spi.Bioswe";
      positive = codes "valid";
      ok_msg = codes "BIOS write-enable clear";
    }
    ∷ record {
      name = codes "HSI: SPI BLE";
      id = codes "org.fwupd.hsi.Spi.Ble";
      positive = codes "valid";
      ok_msg = codes "BIOS lock enabled";
    }
    ∷ record {
      name = codes "HSI: SPI SMM_BWP";
      id = codes "org.fwupd.hsi.Spi.SmmBwp";
      positive = codes "valid";
      ok_msg = codes "SMM write protection enabled";
    }
    ∷ record {
      name = codes "HSI: ME manufacturing mode";
      id = codes "org.fwupd.hsi.Mei.ManufacturingMode";
      positive = codes "locked";
      ok_msg = codes "not in manufacturing mode";
    }
    ∷ record {
      name = codes "HSI: Boot Guard ACM";
      id = codes "org.fwupd.hsi.IntelBootguard.Acm";
      positive = codes "valid";
      ok_msg = codes "valid";
    }
    ∷ record {
      name = codes "HSI: Boot Guard policy";
      id = codes "org.fwupd.hsi.IntelBootguard.Policy";
      positive = codes "valid";
      ok_msg = codes "valid";
    }
    ∷ []

abbrev pub boot_guard_enabled : Bytes
boot_guard_enabled = codes "org.fwupd.hsi.IntelBootguard.Enabled"

abbrev pub boot_guard_verified : Bytes
boot_guard_verified = codes "org.fwupd.hsi.IntelBootguard.Verified"

-- Boot Guard is there and enabled: is it verified too, where the report tells?
unfoldable pub is_measurement_only : Option HsiAttribute → Bool
is_measurement_only none = false
is_measurement_only (some attribute) = not (equal attribute.result (codes "enabled"))

unfoldable pub boot_guard_verdict : Option HsiAttribute → Option HsiAttribute → CheckResult
unfolding emit emit_skip hsi_format_warn is_measurement_only not_supported_text
boot_guard_verdict none verified =
    emit_skip (codes "HSI: Boot Guard") skip_feature_absent (codes "not reported")
boot_guard_verdict (some enabled) verified =
    let name = codes "HSI: Boot Guard" in
    if equal enabled.result not_supported_text
    then emit_skip name skip_feature_absent (codes "not supported")
    else if not (equal enabled.result (codes "enabled"))
    then emit name check_warn (hsi_format_warn enabled)
    else if is_measurement_only verified
    then emit name check_warn (codes "measurement-only")
    else emit name check_ok (codes "enabled and verified")

-- The two attributes count as reported also where there is no room for the row.
unfoldable pub emit_boot_guard : ℕ → HsiReport → HsiState → HsiState
unfolding emit_guarded boot_guard_verdict emit_hsi_unavailable find_attribute mark_found
emit_boot_guard max_results report (results, reported) =
    let room = max_results - length results in
    elim report [
      | hsi_json json ↦
          (let enabled = find_attribute json boot_guard_enabled in
            let verified = find_attribute json boot_guard_verified in
            (
              results ++ emit_guarded room (boot_guard_verdict enabled verified ∷ []),
              mark_found boot_guard_verified verified
                  (mark_found boot_guard_enabled enabled reported),
            ))
      | unavailable ↦ (
        results
            ++ emit_guarded room (emit_hsi_unavailable (codes "HSI: Boot Guard") unavailable ∷ []),
        reported,
      )
    ]

unfoldable pub emit_vendor_rows : ℕ → HsiReport → CpuVendor → HsiState → HsiState
unfolding emit_hsi_rows emit_boot_guard amd_rows intel_rows
emit_vendor_rows max_results report cpu_vendor_amd state =
    emit_hsi_rows max_results report amd_rows state
emit_vendor_rows max_results report cpu_vendor_intel state =
    emit_boot_guard max_results report (emit_hsi_rows max_results report intel_rows state)
emit_vendor_rows max_results report _ state = state
