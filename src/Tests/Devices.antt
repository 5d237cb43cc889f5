-- ===== src/Tests/Devices.antt =====
-- The command line, block devices and the EFI system partition at concrete texts.
use bythos.Base.{
  ℕ, ◌≡◌, ◌↔◌, refl, Bool, false, true, ◌||◌, Option, none, some, [], ◌∷◌, ◌++◌, map, arith, Bytes,
  codes, All, lines, to_lower, length, is_blank, All-append,
}
use bythos.Silicon.{parse_iommu_cmdline, token_present}
use bythos.Silicon.Tokens.{parse_iommu_cmdline-among, IsWord, spaced, among, token_present-among}
use bythos.Silicon.Cpu.{pcr_from, pcr_zero_check, all_zeros, not_zero, extract_microcode_revision}
use bythos.Storage.{is_hex_digit, parse_sha256sum_line, parse_lsblk_posture, esp_is_known_vendor}
use bythos.Storage.Counts.{
  is_luks_line, is_crypt_line, is_crypt_swap_line, count, parse_lsblk_posture-count,
}
use bythos.Storage.Names.{parse_sha256sum_line-digits, esp_is_known_vendor-lower}
use bythos.Storage.Pcrs.{luks_scan_pcrs, scan_window}
use bythos.Storage.Pcrs.Fuel.{scan_window_enough}
use bythos.Silicon.Cpu.Fuel.{pcr_from_enough}
use bythos.Storage.Pcrs.Mask.{IsMask, luks_scan_pcrs-IsMask}

pub words : IsWord (codes "ro") × IsWord (codes "iommu=pt")
unfolding codes bythos.Base.is_space
words = (
  (omega arith, (refl, (refl, tt))),
  (omega arith, (refl, (refl, (refl, (refl, (refl, (refl, (refl, (refl, tt))))))))),
)

token_present-among_example :
    token_present (codes "ro" ++ spaced (codes "iommu=pt" ∷ [])) (codes "iommu=pt")
    ≡ among (codes "ro" ∷ codes "iommu=pt" ∷ []) (codes "iommu=pt")
token_present-among_example =
    token_present-among (codes "ro") (codes "iommu=pt" ∷ []) (codes "iommu=pt") (words.0)
      (words.1, tt)

passthrough_alone : parse_iommu_cmdline (codes "ro" ++ spaced (codes "iommu=pt" ∷ [])) ≡ record {
  iommu_disabled =
      among (codes "ro" ∷ codes "iommu=pt" ∷ []) (codes "iommu=off")
      || among (codes "ro" ∷ codes "iommu=pt" ∷ []) (codes "intel_iommu=off")
      || among (codes "ro" ∷ codes "iommu=pt" ∷ []) (codes "amd_iommu=off");
  vendor_iommu_on =
      among (codes "ro" ∷ codes "iommu=pt" ∷ []) (codes "intel_iommu=on")
      || among (codes "ro" ∷ codes "iommu=pt" ∷ []) (codes "amd_iommu=on");
  passthrough_on =
      among (codes "ro" ∷ codes "iommu=pt" ∷ []) (codes "iommu=pt")
      || among (codes "ro" ∷ codes "iommu=pt" ∷ []) (codes "iommu.passthrough=1");
  passthrough_off = among (codes "ro" ∷ codes "iommu=pt" ∷ []) (codes "iommu.passthrough=0");
  strict_on = among (codes "ro" ∷ codes "iommu=pt" ∷ []) (codes "iommu.strict=1");
  strict_off = among (codes "ro" ∷ codes "iommu=pt" ∷ []) (codes "iommu.strict=0");
}
passthrough_alone =
    parse_iommu_cmdline-among (codes "ro") (codes "iommu=pt" ∷ []) (words.0) (words.1, tt)

luks_scan_pcrs-IsMask_example :
    IsMask (luks_scan_pcrs (codes "systemd-tpm2\n tpm2-hash-pcrs: 0+7\n") false)
luks_scan_pcrs-IsMask_example =
    luks_scan_pcrs-IsMask (codes "systemd-tpm2\n tpm2-hash-pcrs: 0+7\n") false

zero_and_seven : luks_scan_pcrs (codes "systemd-tpm2\n tpm2-hash-pcrs: 0+7\n") false ≡ (129, true)
unfolding luks_scan_pcrs codes bythos.Base.strstr bythos.Base.contains bythos.Base.take_while
    bythos.Base.is_eol bythos.Base.drop_while bythos.Base.strchr bythos.Base.is_digit
    bythos.Storage.Pcrs.behind_pcrs bythos.Storage.Pcrs.scan_numbers
zero_and_seven = refl

parse_lsblk_posture-count_example :
    parse_lsblk_posture (codes "TYPE=\"crypt\" FSTYPE=\"swap\"\n") ≡ record {
      luks_count = count is_luks_line (lines (codes "TYPE=\"crypt\" FSTYPE=\"swap\"\n"));
      crypt_count = count is_crypt_line (lines (codes "TYPE=\"crypt\" FSTYPE=\"swap\"\n"));
      crypt_swap_count =
          count is_crypt_swap_line (lines (codes "TYPE=\"crypt\" FSTYPE=\"swap\"\n"));
    }
parse_lsblk_posture-count_example =
    parse_lsblk_posture-count (codes "TYPE=\"crypt\" FSTYPE=\"swap\"\n")

one_swap :
    parse_lsblk_posture (codes "TYPE=\"crypt\" FSTYPE=\"swap\"\n")
    ≡ record { luks_count = 0; crypt_count = 1; crypt_swap_count = 1 }
unfolding parse_lsblk_posture codes bythos.Storage.add_device bythos.Base.drop_while
    bythos.Base.is_eol bythos.Base.contains bythos.Base.take_while
one_swap = refl

same_name : map to_lower (codes "Ubuntu") ≡ map to_lower (codes "UBUNTU")
unfolding codes to_lower
same_name = refl

same_vendor : esp_is_known_vendor (codes "Ubuntu") ≡ esp_is_known_vendor (codes "UBUNTU")
same_vendor = esp_is_known_vendor-lower (codes "Ubuntu") (codes "UBUNTU") same_name

pcr_seven : pcr_zero_check (codes "  0 : 0x12\n  7 : 0x0000\n") 7 ≡ all_zeros
unfolding pcr_zero_check codes bythos.Silicon.Cpu.names_pcr bythos.Silicon.Cpu.find_hex
    bythos.Silicon.Cpu.hex_verdict bythos.Silicon.Cpu.all_zero_digits bythos.Base.starts_with
    bythos.Base.decimal bythos.Base.decimal_from bythos.Base.drop_while bythos.Base.is_blank
    bythos.Base.take_while
pcr_seven = refl

revision :
    extract_microcode_revision (codes "cpu : 0\nmicrocode\t: 0xf4\n") 32 ≡ some (codes "0xf4")
unfolding extract_microcode_revision codes bythos.Silicon.Cpu.line_revision
    bythos.Silicon.Cpu.find_revision bythos.Base.lines bythos.Base.trim bythos.Base.starts_with
    bythos.Base.strchr bythos.Base.drop_while bythos.Base.take_while bythos.Base.is_space
    bythos.Base.is_eol
revision = refl

-- The digits of a checksum, four times over.
abbrev sixteen_digits : Bytes
sixteen_digits = codes "0123456789abcdef"

abbrev checksum : Bytes
checksum = sixteen_digits ++ (sixteen_digits ++ (sixteen_digits ++ sixteen_digits))

length-checksum : length checksum ≡ 64
unfolding codes
length-checksum = refl

abbrev IsHexDigit : ℕ → Type 0
IsHexDigit c = is_hex_digit c ≡ true

sixteen_hex : All IsHexDigit sixteen_digits
unfolding codes
sixteen_hex = (
  refl,
  (
    refl,
    (
      refl,
      (
        refl,
        (
          refl,
          (
            refl,
            (refl, (refl, (refl, (refl, (refl, (refl, (refl, (refl, (refl, (refl, tt)))))))))),
          ),
        ),
      ),
    ),
  ),
)

checksum_hex : All IsHexDigit checksum
checksum_hex =
    let twice = All-append IsHexDigit sixteen_digits sixteen_digits sixteen_hex sixteen_hex in
    All-append IsHexDigit sixteen_digits (sixteen_digits ++ (sixteen_digits ++ sixteen_digits))
      sixteen_hex
      (All-append IsHexDigit sixteen_digits (sixteen_digits ++ sixteen_digits) sixteen_hex twice)

blank_is : is_blank b' ' ≡ true
unfolding is_blank
blank_is = refl

parse_sha256sum_line-digits_example :
    parse_sha256sum_line (checksum ++ b' ' ∷ codes " grubx64.efi") 65 ≡ some checksum
parse_sha256sum_line-digits_example =
    parse_sha256sum_line-digits checksum b' ' (codes " grubx64.efi") 65 length-checksum checksum_hex
      blank_is (omega arith)

abbrev pcr_line : Bytes
pcr_line = codes "tpm2-hash-pcrs: 0+7"

scan_window_steps : scan_window 40 pcr_line 0 false 0 ≡ scan_window 30 pcr_line 0 false 0
unfolding codes
scan_window_steps = scan_window_enough 40 30 pcr_line 0 false 0 (omega arith) (omega arith)

pcr_from_steps :
    pcr_from 30 (codes "  7 : 0x0000\n") (codes "7")
    ≡ pcr_from 20 (codes "  7 : 0x0000\n") (codes "7")
unfolding codes
pcr_from_steps =
    pcr_from_enough 30 20 (codes "  7 : 0x0000\n") (codes "7") (omega arith) (omega arith)
