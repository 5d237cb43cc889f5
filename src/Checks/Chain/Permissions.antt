-- ===== src/Checks/Chain/Permissions.antt =====
-- The owners and permissions of the files under /boot in src/check_boot_chain.c.
use Prim.Native.Nat.{bit_and}
use bythos.Base.{
  ℕ, zero, suc, ◌+◌, Bool, true, false, not, ◌&&◌, ◌||◌, Option, none, some, List, [], ◌∷◌, ◌++◌,
  Bytes, codes, take, ◌==◌, if◌then◌else◌, equal, fit, decimal,
}
use bythos.Posture.Types.{
  check_ok, check_warn, skip_feature_absent, skip_probe_indeterminate, detail_max, CheckResult,
  emit, emit_skip, emit_skip_exec, emit_skip_subject, pl,
}
use bythos.Runtime.Host.{Host, Stat, FileKind, kind_regular, kind_directory, kind_link, kind_other}
use bythos.Runtime.Files.{join_path, read_file_text_ex}
use bythos.Runtime.Mounts.{MountEntry, find_mount_entry}
use bythos.Checks.Platform.{is_hidden}

-- What the scan writes through its pointers.
pub record BootScan : Type 0 where
  pub count : ℕ
  pub any_warn : Bool
  pub depth_exceeded : Bool
  pub unverified_link : Bool
  pub warn_detail : Bytes

abbrev pub warned : Bytes → BootScan → BootScan
warned detail scan = record scan { any_warn = true; warn_detail = fit detail_max detail }

unfoldable pub note_boot_file_owner : Bytes → Stat → BootScan → BootScan
note_boot_file_owner name st scan =
    if scan.any_warn
    then scan
    else if not (st.uid == 0)
    then warned (codes "file under /boot not root-owned: " ++ take 200 name) scan
    else if not (bit_and st.mode 18 == 0)
    then warned (codes "file under /boot world/group writable: " ++ take 200 name) scan
    else scan

abbrev pub is_regular : FileKind → Bool
is_regular kind_regular = true
is_regular _ = false

abbrev pub unverified : BootScan → BootScan
unverified scan = record scan { unverified_link = true }

-- A link is judged by the file that it leads to.
unfoldable pub scan_link : ℕ → Bytes → Option Stat → BootScan → BootScan
unfolding note_boot_file_owner
scan_link device name none scan = unverified scan
scan_link device name (some target) scan =
    if is_regular target.kind && target.device == device
    then note_boot_file_owner name target scan
    else unverified scan

-- One entry of a directory; what is done with a directory under it is given.
module _ (host : Host) (device : ℕ) (descend : Bytes → BootScan → BootScan) where
  unfoldable pub scan_entry_at : Bytes → Bytes → Stat → BootScan → BootScan
  unfolding scan_link note_boot_file_owner
  scan_entry_at name path st scan = elim (st.kind) [
    | kind_regular ↦
        if not (st.device == device)
        then scan
        else note_boot_file_owner name st (record scan { count = scan.count + 1 })
    | kind_link ↦ scan_link device name (host.stat path) scan
    | kind_directory ↦ if st.device == device then descend path scan else scan
    | kind_other ↦ scan
  ]

  unfoldable pub scan_name : Bytes → Bytes → BootScan → BootScan
  unfolding scan_entry_at join_path
  scan_name dir_path name scan = if is_hidden name then scan else elim (join_path dir_path name) [
    | none ↦ scan
    | some path ↦ elim (host.lstat path) [ none ↦ scan | some st ↦ scan_entry_at name path st scan ]
  ]

  unfoldable pub scan_names : Bytes → List Bytes → BootScan → BootScan
  unfolding scan_name
  scan_names dir_path [] scan = scan
  scan_names dir_path (name ∷ names) scan = scan_names dir_path names (scan_name dir_path name scan)

abbrev pub too_deep : Bytes → BootScan → BootScan
too_deep path scan = record scan { depth_exceeded = true }

unfoldable pub scan_boot_dir : Host → ℕ → ℕ → Bytes → BootScan → BootScan
unfolding scan_names
scan_boot_dir host device zero dir_path scan = elim (host.listing dir_path) [
  | none ↦ scan
  | some names ↦ scan_names host device too_deep dir_path names scan
]
scan_boot_dir host device (suc max_depth) dir_path scan = elim (host.listing dir_path) [
  | none ↦ scan
  | some names ↦
      scan_names host device
        (λ (path : Bytes) (s : BootScan). scan_boot_dir host device max_depth path s) dir_path names
        scan
]

unfoldable pub permissions_name : Bytes
permissions_name = codes "/boot file permissions"

unfoldable pub permissions_verdict : BootScan → CheckResult
unfolding emit emit_skip emit_skip_subject
permissions_verdict scan =
    if scan.count == 0
    then emit_skip_subject permissions_name (codes "boot files")
    else if scan.any_warn
    then emit permissions_name check_warn scan.warn_detail
    else if scan.depth_exceeded
    then emit_skip permissions_name skip_probe_indeterminate
        (codes "directories deeper than this tool scans; some files unchecked")
    else if scan.unverified_link
    then emit_skip permissions_name skip_probe_indeterminate
        (codes "some symlinks under /boot could not be verified")
    else emit permissions_name check_ok (
        decimal scan.count
        ++ (b' '
            ∷ (pl scan.count (codes "file") (codes "files")
                ++ codes " under /boot, all root-owned and not writable")))

abbrev pub no_files : BootScan
no_files = record {
  count = 0;
  any_warn = false;
  depth_exceeded = false;
  unverified_link = false;
  warn_detail = [];
}

-- A file system whose files have no owner.
abbrev pub is_ownerless : Option MountEntry → Bool
is_ownerless none = false
is_ownerless (some entry) =
    equal entry.fstype (codes "vfat")
    || equal entry.fstype (codes "msdos")
    || equal entry.fstype (codes "exfat")

unfoldable pub boot_permissions_result : Host → CheckResult
unfolding scan_boot_dir permissions_verdict emit_skip emit_skip_exec
boot_permissions_result host = elim (host.stat (codes "/boot")) [
  | none ↦ emit_skip_exec permissions_name (codes "/boot")
  | some boot_st ↦ elim (read_file_text_ex host (codes "/proc/mounts") 65536) [
    | none ↦ emit_skip_exec permissions_name (codes "/proc/mounts")
    | some (mounts, truncated) ↦
        if truncated
        then emit_skip permissions_name skip_probe_indeterminate
            (codes "mount table larger than this tool reads")
        else if is_ownerless (find_mount_entry mounts (codes "/boot") (some 64) none)
        then emit_skip permissions_name skip_feature_absent
            (codes "this filesystem stores no per-file ownership")
        else permissions_verdict (scan_boot_dir host boot_st.device 3 (codes "/boot") no_files)
  ]
]
