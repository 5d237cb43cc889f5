-- ===== src/Tests/Luks.antt =====
-- The check of LUKS volumes in a world that is made up.
use bythos.Base.{
  ◌≡◌, ◌↔◌, arith, equal, if◌then◌else◌, refl, true, false, Option, none, some, List, [], ◌∷◌,
  Bytes, codes, All,
}
use bythos.Posture.Types.{check_ok, check_skip}
use bythos.Runtime.Host.{Host}
use bythos.Checks.Luks.{pcr_mask_to_str, append_unlock_consequences}
use bythos.Checks.Luks.Volumes.{no_volumes, all_pcrs, weaker, count_volumes}
use bythos.Checks.Luks.Rows.{fixed_secure_boot, luks_results, check_luks}
use bythos.Checks.Luks.Whole.{HasOnlyLuks2, second_state, check_luks-HasOnlyLuks2}
use bythos.Tests.World.{world, prints}

abbrev second_header : Bytes
second_header = codes "LUKS header\nVersion:       \t2\n"

abbrev listing : Bytes
listing = codes "PATH=\"/dev/sda1\" FSTYPE=\"vfat\"\nPATH=\"/dev/sda2\" FSTYPE=\"crypto_LUKS\"\n"

-- What lsblk prints, and any other tool.
abbrev printed : List Bytes → Bytes
printed [] = []
printed (tool ∷ args) = if equal tool (codes "lsblk") then listing else second_header

-- One volume of LUKS, with a header of the second version.
abbrev one_volume : Host
one_volume = record (world (λ path. none) []) { process = λ argv. prints (printed argv) }

check_luks-HasOnlyLuks2_example :
    (second_state (check_luks one_volume 6) ≡ some check_ok) ↔ HasOnlyLuks2 one_volume
check_luks-HasOnlyLuks2_example = check_luks-HasOnlyLuks2 one_volume 6 (omega arith)

one_volume_passes : second_state (check_luks one_volume 6) ≡ some check_ok
unfolding check_luks luks_results bythos.Runtime.Processes.command_exists codes
    bythos.Runtime.Processes.capture_argv_status_ex equal bythos.Checks.Luks.Volumes.newline_lines
    bythos.Base.take_while bythos.Base.contains bythos.Base.strchr
    bythos.Runtime.Processes.capture_success bythos.Base.drop_while bythos.Base.is_blank
    bythos.Runtime.Files.file_exists
one_volume_passes = refl

-- Where lsblk names no volume the row is skipped.
no_volume_skips :
    second_state (check_luks (world (λ path. none) (codes "PATH=\"/dev/sda1\"")) 6)
    ≡ some check_skip
unfolding check_luks luks_results bythos.Runtime.Processes.command_exists codes
    bythos.Runtime.Processes.capture_argv_status_ex bythos.Checks.Luks.Volumes.newline_lines
    bythos.Base.take_while bythos.Base.contains
no_volume_skips = refl

pcrs_of_mask : pcr_mask_to_str 2193 64 ≡ codes "0 4 7 11"
unfolding pcr_mask_to_str codes bythos.Base.decimal bythos.Base.decimal_from
pcrs_of_mask = refl

what_breaks :
    append_unlock_consequences (codes "PCRs: 4 7") 256 144 false
    ≡ codes "PCRs: 4 7; unlock breaks on bootloader or Secure Boot key update"
unfolding append_unlock_consequences codes
what_breaks = refl

-- Of a volume that is bound to PCR 7 and one that is bound to PCRs 0 and 4, the first counts.
fewest_counts : weaker 17 (weaker 128 all_pcrs) ≡ record { mask = 128; popcount = 1 }
unfolding weaker
fewest_counts = refl

fewest_passes : (fixed_secure_boot 128 0).state ≡ check_ok
unfolding fixed_secure_boot bythos.Posture.Types.emit bythos.Posture.Types.make_result
fewest_passes = refl
