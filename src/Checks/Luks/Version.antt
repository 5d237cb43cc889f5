-- ===== src/Checks/Luks/Version.antt =====
-- The counts of src/check_luks.c that the row on the version of the volumes is judged by.
use bythos.Base.{
  ℕ, ◌+◌, ◌≡◌, ◌↔◌, ◌⊎◌, refl, sym, ap, ◌∙◌, Bool, true, false, ◌&&◌, Option, none, some, List, [],
  ◌∷◌, arith, Bytes, All, ◌==◌, Option-cases, inl, inr,
}
use bythos.Posture.Types.{check_ok, emit, emit_skip, make_result, make_skip}
use bythos.Storage.{parse_luks_version}
use bythos.Runtime.Host.{Host}
use bythos.Checks.Luks.Volumes.{
  LuksCounts, luks_device_path, luks_dump, add_version, add_integrity, add_token, add_binding,
  add_dump, add_line_of, count_volumes,
}
use bythos.Checks.Luks.Rows.{version_result}

-- The line names no volume, or one whose header cryptsetup prints, with the second version in it.
abbrev pub IsLuks2 : Host → Bytes → Type 0
IsLuks2 host line =
    (luks_device_path line ≡ none)
    ⊎ ((path : Bytes) × (dump_buf : Bytes) × (luks_device_path line ≡ some path)
        × (luks_dump host path ≡ some dump_buf)
        × (parse_luks_version dump_buf ≡ 2))

-- Nothing has been counted that stands against a good verdict.
abbrev pub is_clean : LuksCounts → Bool
is_clean counts =
    counts.dump_failed == 0 && (counts.version_unknown_count == 0 && counts.luks1_count == 0)

add_binding-clean :
    (dump_buf : Bytes) (counts : LuksCounts)
    → is_clean (add_binding dump_buf counts) ≡ is_clean counts
unfolding add_binding add_token
add_binding-clean dump_buf counts = ground arith

add_integrity-clean :
    (dump_buf : Bytes) (counts : LuksCounts)
    → is_clean (add_integrity dump_buf counts) ≡ is_clean counts
unfolding add_integrity
add_integrity-clean dump_buf counts = ground arith

add_version-clean :
    (version : ℕ) (counts : LuksCounts)
    → is_clean (add_version version counts) ≡ is_clean counts && version == 2
unfolding add_version
add_version-clean version counts = ground arith

-- What a dump tells of the version.
abbrev has_version_two : Option Bytes → Bool
has_version_two none = false
has_version_two (some dump_buf) = parse_luks_version dump_buf == 2

add_dump-clean :
    (dump : Option Bytes) (counts : LuksCounts)
    → is_clean (add_dump dump counts) ≡ is_clean counts && has_version_two dump
unfolding add_dump
add_dump-clean none counts = ground arith
add_dump-clean (some dump_buf) counts =
    let dumped = record counts { dump_ok = counts.dump_ok + 1 } in
    let versioned = add_version (parse_luks_version dump_buf) dumped in
    add_binding-clean dump_buf (add_integrity dump_buf versioned)
    ∙ add_integrity-clean dump_buf versioned
    ∙ add_version-clean (parse_luks_version dump_buf) dumped

and_both : (a b : Bool) → a && b ≡ true → (a ≡ true) × (b ≡ true)
and_both true b h = (refl, h)
and_both false b h = absurd cc

version_two :
    (dump : Option Bytes)
    → has_version_two dump ≡ true
    → (dump_buf : Bytes) × (dump ≡ some dump_buf) × (parse_luks_version dump_buf ≡ 2)
version_two none h = absurd cc
version_two (some dump_buf) h = (dump_buf, refl, ground arith)

dumped_two :
    (host : Host) (line path : Bytes)
    → luks_device_path line ≡ some path
    → IsLuks2 host line
    → has_version_two (luks_dump host path) ≡ true
dumped_two host line path e (inl none_named) = absurd cc
dumped_two host line path e (inr (named, dump_buf, f, dumped, version)) =
    let same : named ≡ path = cc in
    let dump : luks_dump host path ≡ some dump_buf = ap (luks_dump host) (sym same) ∙ dumped in
    rw dump (rw version refl)

add_line_of-clean :
    (host : Host) (line : Bytes) (counts : LuksCounts)
    → (is_clean (add_line_of host line counts) ≡ true)
      ↔ ((is_clean counts ≡ true) × IsLuks2 host line)
unfolding add_line_of
add_line_of-clean host line counts = elim (Option-cases (luks_device_path line)) [
  | inl none_named ↦ rw (none_named, add_line_of) ((λ h. (h, inl refl)), λ k. k.0)
  | inr (path, e) ↦
      (let found = record counts { luks_found = counts.luks_found + 1 } in
        let step = add_dump-clean (luks_dump host path) found in
        let there : is_clean (add_line_of host line counts)
            ≡ is_clean (add_dump (luks_dump host path) found) =
          rw (e, add_line_of) refl in
        (
          (λ h.
              let (clean, two) =
                and_both (is_clean counts) (has_version_two (luks_dump host path))
                  (sym step ∙ sym there ∙ h) in
              let (dump_buf, dumped, version) = version_two (luks_dump host path) two in
              (clean, inr (path, dump_buf, e, dumped, version))),
          (λ k. there ∙ step ∙ rw (k.0, dumped_two host line path e (k.1)) refl),
        ))
]

pub count_volumes-clean :
    (host : Host) (lines : List Bytes) (counts : LuksCounts)
    → (is_clean (count_volumes host lines counts) ≡ true)
      ↔ ((is_clean counts ≡ true) × All (IsLuks2 host) lines)
unfolding count_volumes
count_volumes-clean host [] counts = ((λ h. (h, tt)), λ k. k.0)
count_volumes-clean host (line ∷ lines) counts =
    let (to, from) = count_volumes-clean host lines (add_line_of host line counts) in
    let (stepped, steps) = add_line_of-clean host line counts in
    (
      (λ h. let (clean, rest) = to h in let (start, here) = stepped clean in (start, (here, rest))),
      (λ k. let (start, (here, rest)) = k in from (steps (start, here), rest)),
    )

pub version_result-passes :
    (counts : LuksCounts) → ((version_result counts).state ≡ check_ok) ↔ (is_clean counts ≡ true)
unfolding version_result emit emit_skip make_skip make_result
version_result-passes counts = ground arith
