-- ===== src/Checks/Secureboot/Databases.antt =====
-- The signature databases in src/check_secureboot.c.
use bythos.Base.{
  ◌-◌, Bool, not, Option, none, some, ◌++◌, Bytes, codes, length, ltb, leb, ◌==◌, if◌then◌else◌,
  ◌>>=◌, decimal,
}
use bythos.Posture.Types.{
  check_ok, check_warn, skip_feature_absent, skip_exec_failed, CheckResult, emit, emit_skip,
  emit_skip_feature, emit_skip_exec, pl,
}
use bythos.Efi.SigDb.{count_efi_sigdb_lists}
use bythos.Runtime.Host.{Host}
use bythos.Runtime.Files.{file_exists, read_file_binary_ex}
use bythos.Checks.Secureboot.{efi_db_path, efi_dbx_path}

unfoldable pub check_sigdb_variable : Host → Bytes → Bytes → Bool → Option CheckResult
unfolding emit emit_skip count_efi_sigdb_lists
check_sigdb_variable host path name efi_visible =
    if not efi_visible
    then some (emit_skip name skip_feature_absent (codes "EFI runtime not available"))
    else if not (file_exists host path)
    then some (emit name check_warn (codes "UEFI visible but variable missing"))
    else elim (read_file_binary_ex host path 65536) [
      | none ↦ some (emit_skip name skip_exec_failed (codes "variable read failed"))
      | some (buf, truncated) ↦
          if truncated
          then some
              (emit name check_warn (codes "larger than this tool reads; contents not verified"))
          else (do
            lists ← count_efi_sigdb_lists buf
            some (
                if ltb 0 lists
                then emit name check_ok (codes "visible and non-empty")
                else if ltb 4 (length buf)
                then emit name check_warn (codes "visible but unparseable")
                else emit name check_warn (codes "visible but empty")))
    ]

unfoldable pub dbx_size_result : Host → Bool → CheckResult
unfolding emit emit_skip_feature emit_skip_exec
dbx_size_result host efi_visible =
    let name = codes "Secure Boot dbx size" in
    if not efi_visible
    then emit_skip_feature name (codes "EFI runtime")
    else elim (read_file_binary_ex host efi_dbx_path 65536) [
      | none ↦ emit_skip_exec name (codes "EFI dbx")
      | some (buf, truncated) ↦
          (let payload = length buf - 4 in
            if truncated
            then emit name check_warn (codes "larger than this tool reads; size not verified")
            else if leb (length buf) 4
            then emit name check_warn (codes "dbx empty; no revocations")
            else if ltb payload 100
            then emit name check_warn
                (codes "minimal (" ++ (decimal payload ++ codes " bytes); may be factory default"))
            else emit name check_ok (
                codes "non-minimal (" ++ (decimal payload ++ codes " bytes); currency unverified")))
    ]

unfoldable pub db_keys_result : Host → Bool → Option CheckResult
unfolding emit emit_skip_feature emit_skip_exec count_efi_sigdb_lists
db_keys_result host efi_visible =
    let name = codes "Secure Boot db keys" in
    if not efi_visible
    then some (emit_skip_feature name (codes "EFI runtime"))
    else elim (read_file_binary_ex host efi_db_path 65536) [
      | none ↦ some (emit_skip_exec name (codes "EFI db"))
      | some (buf, truncated) ↦
          if truncated
          then some
              (emit name check_warn (codes "larger than this tool reads; key lists not counted"))
          else (do
            lists ← count_efi_sigdb_lists buf
            some (
                if not (lists == 0)
                then emit name check_ok (
                    decimal lists
                    ++ (codes " key "
                        ++ (pl lists (codes "list") (codes "lists")
                            ++ codes " in Secure Boot allowlist")))
                else if ltb 4 (length buf)
                then emit name check_warn (codes "allowlist visible but unparseable")
                else emit name check_warn (codes "empty; Secure Boot allowlist missing")))
    ]
