-- ===== src/Checks/Luks/Whole.antt =====
-- When src/check_luks.c says that the volumes are of the second version of LUKS.
use mathlib.Core.Path.{subst}
use bythos.Base.{
  ℕ, zero, suc, ◌≤◌, ◌<◌, ◌≡◌, ◌≢◌, ◌↔◌, refl, sym, ap, ◌∙◌, Bool, true, false, Option, none, some,
  [], ◌∷◌, arith, Bytes, codes, take, All, ◌==◌, Bool-cases, inl, inr,
}
use bythos.Posture.Types.{
  CheckState, check_ok, Results, emit_skip, emit_skip_exec, emit_skip_subject, emit_skip_exec_root,
  make_result, make_skip, make_skip_actionable, make_skip_root, emit_all-nil,
}
use bythos.Runtime.Host.{Host}
use bythos.Runtime.Files.{file_exists}
use bythos.Runtime.Processes.{command_exists, capture_argv_status_ex}
use bythos.Checks.Tools.{emit_skip_tool_or_untrusted}
use bythos.Checks.Luks.Volumes.{LuksCounts, no_volumes, newline_lines, count_volumes}
use bythos.Checks.Luks.Rows.{
  five_rows, lsblk_argv, counts_rows, volume_rows, luks_results, check_luks,
}
use bythos.Checks.Luks.Version.{IsLuks2, is_clean, count_volumes-clean, version_result-passes}
use bythos.Checks.Luks.Headers.{
  HasVolume, IsBalanced, count_volumes-IsBalanced, count_volumes-HasVolume,
}

-- Both tools are trusted, lsblk ends well and all that it prints fits, some of its lines names a
-- volume, and every volume has the second version.
pub record HasOnlyLuks2 (host : Host) : Type 0 where
  pub listing : Bytes
  pub has_lsblk : command_exists host (codes "lsblk") ≡ true
  pub has_cryptsetup : command_exists host (codes "cryptsetup") ≡ true
  pub is_whole :
      (capture_argv_status_ex host (lsblk_argv (codes "PATH,FSTYPE")) 4096).truncated ≡ false
  pub listed :
      (capture_argv_status_ex host (lsblk_argv (codes "PATH,FSTYPE")) 4096).answer
      ≡ some (0, listing)
  pub some_volume : HasVolume (newline_lines listing)
  pub all_second : All (IsLuks2 host) (newline_lines listing)

abbrev first_state : Results → Option CheckState
first_state [] = none
first_state (row ∷ rows) = some row.state

-- The state of the row on the version of the volumes, the second of the check.
abbrev pub second_state : Results → Option CheckState
second_state [] = none
second_state (row ∷ rows) = first_state rows

state_of_some : {a b : CheckState} → Path (Option CheckState) (some a) (some b) → a ≡ b
state_of_some e = cc

counts_rows-first :
    (tpm_present : Bool) (counts : LuksCounts)
    → IsBalanced counts
    → (first_state (counts_rows tpm_present counts) ≡ some check_ok)
      ↔ ((0 < counts.luks_found) × (is_clean counts ≡ true))
unfolding counts_rows five_rows emit_skip_subject emit_skip_exec_root make_skip_root make_skip
counts_rows-first tpm_present counts h =
    let (passes, passed) = version_result-passes counts in
    elim (Bool-cases (counts.luks_found == 0)) [
      | inl no_volume ↦
          rw (no_volume, counts_rows) ((λ k. absurd cc), λ k. absurd (ground (arith, k.0)))
      | inr volume ↦ elim (Bool-cases (counts.dump_ok == 0)) [
        | inl no_header ↦
            rw (volume, no_header, counts_rows)
              ((λ k. absurd cc), λ k. absurd (ground (arith, h, k.0, k.1)))
        | inr header ↦
            rw (volume, header, counts_rows)
              ((λ k. (ground arith, passes (state_of_some k))), λ k. ap some (passed k.1))
      ]
    ]

-- A row that asks for a tool, or says that it is not to be trusted, does not pass.
emit_skip_tool_or_untrusted-fails :
    (host : Host) (name binary tool : Bytes)
    → (emit_skip_tool_or_untrusted host name binary tool).state ≢ check_ok
unfolding emit_skip_tool_or_untrusted make_result make_skip_actionable
emit_skip_tool_or_untrusted-fails host name binary tool h = ground arith

-- Some line names a volume, and every volume has the second version.
abbrev AllLuks2 : Host → Bytes → Type 0
AllLuks2 host listing =
    HasVolume (newline_lines listing) × All (IsLuks2 host) (newline_lines listing)

counts_rows-AllLuks2 :
    (host : Host) (tpm_present : Bool) (listing : Bytes)
    → (first_state (counts_rows tpm_present (count_volumes host (newline_lines listing) no_volumes))
        ≡ some check_ok)
      ↔ AllLuks2 host listing
counts_rows-AllLuks2 host tpm_present listing =
    let lines = newline_lines listing in
    let counts = count_volumes host lines no_volumes in
    let (to, from) =
      counts_rows-first tpm_present counts (count_volumes-IsBalanced host lines no_volumes refl) in
    let (found, finds) = count_volumes-HasVolume host lines no_volumes in
    let (clean, cleans) = count_volumes-clean host lines no_volumes in
    (
      (λ k.
          let (some_found, is_good) = to k in
          (
            elim (found some_found) [
              | inl before ↦ absurd (omega (arith, before))
              | inr volume ↦ volume
            ],
            (clean is_good).1,
          )),
      λ (volume, all_second). from (finds (inr volume), cleans (refl, all_second)),
    )

abbrev pair_of : Option (ℕ × Bytes) → ℕ × Bytes
pair_of none = (0, [])
pair_of (some answer) = answer

same_answer :
    (status : ℕ) (listing other : Bytes)
    → Path (Option (ℕ × Bytes)) (some (status, listing)) (some (0, other))
    → (status ≡ 0) × (other ≡ listing)
same_answer status listing other e = (
  ap (λ (o : Option (ℕ × Bytes)). (pair_of o).0) e,
  sym (ap (λ (o : Option (ℕ × Bytes)). (pair_of o).1) e),
)

volume_rows-first :
    (host : Host) (truncated : Bool) (answer : Option (ℕ × Bytes))
    → (first_state (volume_rows host truncated answer) ≡ some check_ok) ↔ (
        (listing : Bytes) × (truncated ≡ false)
        × (answer ≡ some (0, listing))
        × AllLuks2 host listing)
unfolding five_rows emit_skip emit_skip_exec make_skip
volume_rows-first host truncated none =
    ((λ k. absurd cc), λ (listing, whole, answered, good). absurd cc)
volume_rows-first host truncated (some (status, listing)) =
    let (to, from) =
      counts_rows-AllLuks2 host (file_exists host (codes "/sys/class/tpm/tpm0")) listing in
    elim (Bool-cases (status == 0)) [
      | inr failed ↦ rw failed (
        (λ k. absurd cc),
        λ (other, whole, answered, good).
            let (ended, same) = same_answer status listing other answered in
            absurd (ground (arith, failed, ended)),
      )
      | inl ended ↦ elim (Bool-cases truncated) [
        | inl cut ↦ rw (ended, cut) ((λ k. absurd cc), λ (other, whole, answered, good). absurd cc)
        | inr complete ↦
            rw (ended, complete)
              (
                (λ k.
                    let is_zero : status ≡ 0 = ground arith in
                    (listing, refl, ap (λ (n : ℕ). some (n, listing)) is_zero, to k)),
                λ (other, whole, answered, good).
                    let (ended, same) = same_answer status listing other answered in
                    from (subst (AllLuks2 host) same good),
              )
      ]
    ]

luks_results-second :
    (host : Host) → (second_state (luks_results host) ≡ some check_ok) ↔ HasOnlyLuks2 host
unfolding luks_results five_rows
luks_results-second host =
    let captured = capture_argv_status_ex host (lsblk_argv (codes "PATH,FSTYPE")) 4096 in
    let (to, from) = volume_rows-first host captured.truncated captured.answer in
    elim (Bool-cases (command_exists host (codes "lsblk"))) [
      | inr no_lsblk ↦
          rw (no_lsblk, luks_results)
            (
              (λ k. absurd (emit_skip_tool_or_untrusted-fails host _ _ _ (state_of_some k))),
              λ p. absurd (ground (arith, no_lsblk, p.has_lsblk)),
            )
      | inl lsblk ↦ elim (Bool-cases (command_exists host (codes "cryptsetup"))) [
        | inr no_cryptsetup ↦
            rw (lsblk, no_cryptsetup, luks_results)
              (
                (λ k. absurd (emit_skip_tool_or_untrusted-fails host _ _ _ (state_of_some k))),
                λ p. absurd (ground (arith, no_cryptsetup, p.has_cryptsetup)),
              )
        | inl cryptsetup ↦
            rw (lsblk, cryptsetup, luks_results)
              (
                (λ k.
                    let (listing, whole, answered, (volume, all_second)) = to k in
                    record {
                      listing = listing;
                      has_lsblk = lsblk;
                      has_cryptsetup = cryptsetup;
                      is_whole = whole;
                      listed = answered;
                      some_volume = volume;
                      all_second = all_second;
                    }),
                λ p. from (p.listing, p.is_whole, p.listed, (p.some_volume, p.all_second)),
              )
      ]
    ]

second_state-take :
    (n : ℕ) (rows : Results) → 2 ≤ n → second_state (take n rows) ≡ second_state rows
second_state-take zero rows h = absurd (omega arith)
second_state-take (suc zero) rows h = absurd (omega arith)
second_state-take (suc (suc n)) [] h = refl
second_state-take (suc (suc n)) (row ∷ []) h = refl
second_state-take (suc (suc n)) (row ∷ next ∷ rows) h = refl

-- With room for two results, the second row of the check, the one on the version of the volumes,
-- passes exactly if lsblk and cryptsetup are there and trusted, lsblk ends with status 0 and all
-- that it prints fits, some line of it names a volume of LUKS, and every line names none or one
-- whose header cryptsetup prints, with the second version in it. A line names a volume if its first
-- 511 bytes have the mark of LUKS and a path of 1 to 127 bytes.
pub check_luks-HasOnlyLuks2 :
    (host : Host) (max_results : ℕ)
    → 2 ≤ max_results
    → (second_state (check_luks host max_results) ≡ some check_ok) ↔ HasOnlyLuks2 host
unfolding check_luks
check_luks-HasOnlyLuks2 host max_results h =
    let rows = luks_results host in
    let same : second_state (check_luks host max_results) ≡ second_state rows =
      ap second_state (emit_all-nil max_results rows) ∙ second_state-take max_results rows h in
    subst (λ (s : Option CheckState). (s ≡ some check_ok) ↔ HasOnlyLuks2 host) (sym same)
      (luks_results-second host)
