-- ===== src/Checks/Chain/Rows.antt =====
-- What the rows of src/check_boot_chain.c stand for.
use bythos.Base.{◌≡◌, ◌≢◌, true, none, some, arith, codes, Bool-cases, Option-cases, inl, inr}
use bythos.Posture.Types.{
  check_ok, check_skip, emit, emit_skip, emit_skip_exec, emit_skip_subject, make_result, make_skip,
}
use bythos.Runtime.Host.{Host, Stat}
use bythos.Runtime.Files.{read_file_text_ex}
use bythos.Runtime.Mounts.{find_mount_entry}
use bythos.Checks.Chain.Permissions.{
  BootScan, no_files, is_ownerless, scan_boot_dir, permissions_verdict, boot_permissions_result,
}
use bythos.Checks.Chain.Safety.{is_clean, IsUnder, IsRoots, scan_boot_dir-IsRoots}

permissions_verdict-clean :
    (scan : BootScan) → (permissions_verdict scan).state ≡ check_ok → is_clean scan ≡ true
unfolding permissions_verdict emit emit_skip emit_skip_subject make_skip make_result
permissions_verdict-clean scan h = ground arith

-- A row that is skipped does not pass.
skipped : check_skip ≢ check_ok
skipped h = cc

-- Only a scan makes the row pass.
row_scanned :
    (host : Host) (boot_st : Stat)
    → host.stat (codes "/boot") ≡ some boot_st
    → (boot_permissions_result host).state ≡ check_ok
    → (permissions_verdict (scan_boot_dir host boot_st.device 3 (codes "/boot") no_files)).state
      ≡ check_ok
unfolding boot_permissions_result read_file_text_ex emit_skip emit_skip_exec make_skip make_result
row_scanned host boot_st e h =
    elim (Option-cases (read_file_text_ex host (codes "/proc/mounts") 65536)) [
      | inl unread ↦ absurd (skipped (rw (e, unread, boot_permissions_result) at h))
      | inr ((mounts, truncated), m) ↦ elim (Bool-cases truncated) [
        | inl cut ↦ absurd (skipped (rw (e, m, cut, boot_permissions_result) at h))
        | inr whole ↦
            elim (Bool-cases
              (is_ownerless (find_mount_entry mounts (codes "/boot") (some 64) none))) [
                | inl ownerless ↦
                    absurd (skipped (rw (e, m, whole, ownerless, boot_permissions_result) at h))
                | inr owned ↦ rw (e, m, whole, owned, boot_permissions_result) at h
              ]
      ]
    ]

-- Where the row on the files under /boot passes, root owns every regular file on the device of
-- /boot that the scan can get at, however deep it lies, and every regular file on that device that a
-- link which the scan can get at leads to, and neither their group nor others can write them. The
-- scan gets at an entry if no name on the way from /boot, its own included, begins with a dot, every
-- directory on the way is on the device and can be listed, and its path fits the buffer and can be
-- examined.
pub boot_permissions_result-IsRoots :
    (host : Host) (boot_st file : Stat)
    → host.stat (codes "/boot") ≡ some boot_st
    → (boot_permissions_result host).state ≡ check_ok
    → IsUnder host boot_st.device (codes "/boot") file
    → IsRoots file
boot_permissions_result-IsRoots host boot_st file e h under =
    let scan = scan_boot_dir host boot_st.device 3 (codes "/boot") no_files in
    scan_boot_dir-IsRoots host boot_st.device 3 (codes "/boot") no_files file
      (permissions_verdict-clean scan (row_scanned host boot_st e h)) under
