-- ===== src/Tests/Chain.antt =====
-- The check of the boot chain in a world that is made up.
use mathlib.Core.List.{Memᴰ}
use bythos.Base.{
  ◌≡◌, refl, true, false, Option, none, some, List, [], ◌∷◌, ◌++◌, Bytes, codes, if◌then◌else◌,
  equal,
}
use bythos.Posture.Types.{check_ok}
use bythos.Runtime.Host.{Host, Stat, kind_regular, kind_directory}
use bythos.Checks.Chain.Permissions.{boot_permissions_result}
use bythos.Checks.Chain.Safety.{IsRoots, HasEntry, IsUnder, file_in}
use bythos.Checks.Chain.Rows.{boot_permissions_result-IsRoots}
use bythos.Tests.World.{world}

abbrev kernel : Stat
kernel = record { uid = 0; mode = 420; kind = kind_regular; device = 1; inode = 5 }

abbrev directory : Stat
directory = record { uid = 0; mode = 493; kind = kind_directory; device = 1; inode = 5 }

-- There is one kernel under /boot, and nothing is mounted.
abbrev one_kernel : Host
one_kernel = record (world (λ path. some []) []) {
  stat = λ path. some directory;
  lstat = λ path. some kernel;
  listing =
      λ path. if equal path (codes "/boot") then some (codes "." ∷ codes "vmlinuz" ∷ []) else none;
}

kernel_passes : (boot_permissions_result one_kernel).state ≡ check_ok
unfolding boot_permissions_result codes bythos.Checks.Chain.Permissions.scan_boot_dir
    bythos.Checks.Chain.Permissions.scan_names bythos.Checks.Chain.Permissions.scan_name
    bythos.Checks.Chain.Permissions.scan_entry_at
    bythos.Checks.Chain.Permissions.note_boot_file_owner
    bythos.Checks.Chain.Permissions.permissions_verdict bythos.Posture.Types.emit
    bythos.Posture.Types.make_result bythos.Runtime.Files.read_file_text_ex
    bythos.Runtime.Files.join_path bythos.Runtime.Mounts.find_mount_entry
    bythos.Runtime.Mounts.scan_mounts bythos.Base.equal bythos.Base.take_while
kernel_passes = refl

kernel_entry : HasEntry one_kernel (codes "/boot") (codes "/boot/vmlinuz") kernel
unfolding codes bythos.Runtime.Files.join_path bythos.Base.equal
kernel_entry = record {
  names = codes "." ∷ codes "vmlinuz" ∷ [];
  name = codes "vmlinuz";
  listed = refl;
  member = Memᴰ.tail (Memᴰ.head refl);
  visible = refl;
  joined = refl;
  exists = refl;
}

kernel_placed : IsUnder one_kernel 1 (codes "/boot") kernel
kernel_placed = file_in kernel_entry refl refl

boot_permissions_result-IsRoots_example : IsRoots kernel
boot_permissions_result-IsRoots_example =
    boot_permissions_result-IsRoots one_kernel directory kernel refl kernel_passes kernel_placed
