-- ===== src/Tests/Esp.antt =====
-- The check of the EFI system partition in a world that is made up.
use bythos.Base.{◌≡◌, ◌↔◌, none, some, Bytes, codes, equal, if◌then◌else◌}
use bythos.Posture.Types.{check_ok}
use bythos.Runtime.Host.{Host, Stat}
use bythos.Checks.Esp.Fallback.{compare_fallback}
use bythos.Checks.Esp.Identity.{IsIdentical, compare_fallback-IsIdentical}
use bythos.Tests.World.{root_file, world}

abbrev shim_path : Bytes
shim_path = codes "/boot/efi/EFI/ubuntu/shimx64.efi"

abbrev fallback_path : Bytes
fallback_path = codes "/boot/efi/EFI/BOOT/BOOTX64.EFI"

abbrev shim_file : Stat
shim_file = record root_file { inode = 9 }

-- The shim and the fallback are two files, and sha256sum prints the same for both.
abbrev two_files : Host
two_files =
    record (world (λ path. none)
      (codes "0123456789abcdef0123456789abcdef0123456789abcdef0123456789abcdef  file\n")) {
        stat = λ path. if equal path shim_path then some shim_file else some root_file;
      }

compare_fallback-IsIdentical_example :
    ((compare_fallback two_files (codes "BOOTX64.EFI") fallback_path shim_path).state ≡ check_ok)
    ↔ IsIdentical two_files fallback_path shim_path
compare_fallback-IsIdentical_example =
    compare_fallback-IsIdentical two_files (codes "BOOTX64.EFI") fallback_path shim_path
