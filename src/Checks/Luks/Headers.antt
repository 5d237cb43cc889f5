-- ===== src/Checks/Luks/Headers.antt =====
-- The volumes that src/check_luks.c finds, and the headers that it reads of them.
use bythos.Base.{
  ℕ, suc, ◌+◌, ◌<◌, ◌≡◌, ◌↔◌, ◌⊎◌, refl, ap, ◌∙◌, Option, none, some, List, [], ◌∷◌, arith, Bytes,
  Option-cases, inl, inr,
}
use bythos.Storage.{parse_luks_version}
use bythos.Runtime.Host.{Host}
use bythos.Checks.Luks.Volumes.{
  LuksCounts, luks_device_path, luks_dump, add_version, add_integrity, add_token, add_binding,
  add_dump, add_line_of, count_volumes,
}

-- Some line names a volume.
abbrev pub HasVolume : List Bytes → Type 0
HasVolume [] = ⊥
HasVolume (line ∷ lines) = ((path : Bytes) × (luks_device_path line ≡ some path)) ⊎ HasVolume lines

-- The counts of volumes, and of headers that are printed and that are not.
abbrev SameVolumes : LuksCounts → LuksCounts → Type 0
SameVolumes a b =
    (a.luks_found ≡ b.luks_found) × (a.dump_ok ≡ b.dump_ok) × (a.dump_failed ≡ b.dump_failed)

add_binding-SameVolumes :
    (dump_buf : Bytes) (counts : LuksCounts) → SameVolumes (add_binding dump_buf counts) counts
unfolding add_binding add_token
add_binding-SameVolumes dump_buf counts = (ground arith, ground arith, ground arith)

add_integrity-SameVolumes :
    (dump_buf : Bytes) (counts : LuksCounts) → SameVolumes (add_integrity dump_buf counts) counts
unfolding add_integrity
add_integrity-SameVolumes dump_buf counts = (ground arith, ground arith, ground arith)

add_version-SameVolumes :
    (version : ℕ) (counts : LuksCounts) → SameVolumes (add_version version counts) counts
unfolding add_version
add_version-SameVolumes version counts = (ground arith, ground arith, ground arith)

-- A header that is printed and one that is not are counted, each once.
abbrev AddsHeader : LuksCounts → LuksCounts → Type 0
AddsHeader after before =
    (after.luks_found ≡ before.luks_found)
    × (after.dump_ok + after.dump_failed ≡ suc (before.dump_ok + before.dump_failed))

add_dump-AddsHeader :
    (dump : Option Bytes) (counts : LuksCounts) → AddsHeader (add_dump dump counts) counts
unfolding add_dump
add_dump-AddsHeader none counts = (refl, omega arith)
add_dump-AddsHeader (some dump_buf) counts =
    let dumped = record counts { dump_ok = counts.dump_ok + 1 } in
    let versioned = add_version (parse_luks_version dump_buf) dumped in
    let (found, ok, failed) = add_binding-SameVolumes dump_buf (add_integrity dump_buf versioned) in
    let (found', ok', failed') = add_integrity-SameVolumes dump_buf versioned in
    let (found'', ok'', failed'') = add_version-SameVolumes (parse_luks_version dump_buf) dumped in
    (found ∙ found' ∙ found'', omega (arith, ok, ok', ok'', failed, failed', failed''))

-- Every volume has a header that is printed or one that is not.
abbrev pub IsBalanced : LuksCounts → Type 0
IsBalanced counts = counts.luks_found ≡ counts.dump_ok + counts.dump_failed

add_line_of-IsBalanced :
    (host : Host) (line : Bytes) (counts : LuksCounts)
    → IsBalanced counts
    → IsBalanced (add_line_of host line counts)
unfolding add_line_of
add_line_of-IsBalanced host line counts h = elim (Option-cases (luks_device_path line)) [
  | inl none_named ↦ rw (none_named, add_line_of) h
  | inr (path, e) ↦
      let found = record counts { luks_found = counts.luks_found + 1 } in
      let (same, more) = add_dump-AddsHeader (luks_dump host path) found in
      rw (e, add_line_of) (omega (arith, h, same, more))
]

pub count_volumes-IsBalanced :
    (host : Host) (lines : List Bytes) (counts : LuksCounts)
    → IsBalanced counts
    → IsBalanced (count_volumes host lines counts)
unfolding count_volumes
count_volumes-IsBalanced host [] counts h = h
count_volumes-IsBalanced host (line ∷ lines) counts h =
    count_volumes-IsBalanced host lines (add_line_of host line counts)
      (add_line_of-IsBalanced host line counts h)

add_line_of-found :
    (host : Host) (line path : Bytes) (counts : LuksCounts)
    → luks_device_path line ≡ some path
    → 0 < (add_line_of host line counts).luks_found
unfolding add_line_of
add_line_of-found host line path counts e =
    let found = record counts { luks_found = counts.luks_found + 1 } in
    let (same, more) = add_dump-AddsHeader (luks_dump host path) found in
    rw (e, add_line_of) (omega (arith, same))

pub count_volumes-HasVolume :
    (host : Host) (lines : List Bytes) (counts : LuksCounts)
    → (0 < (count_volumes host lines counts).luks_found)
      ↔ ((0 < counts.luks_found) ⊎ HasVolume lines)
unfolding count_volumes
count_volumes-HasVolume host [] counts =
    (inl, λ h. elim h [ inl before ↦ before | inr nothing ↦ absurd nothing ])
count_volumes-HasVolume host (line ∷ lines) counts =
    let (to, from) = count_volumes-HasVolume host lines (add_line_of host line counts) in
    elim (Option-cases (luks_device_path line)) [
      | inl none_named ↦
          (let same : add_line_of host line counts ≡ counts = rw (none_named, add_line_of) refl in
            let found = ap (λ (c : LuksCounts). c.luks_found) same in
            (
              (λ h. elim (to h) [
                | inl before ↦ inl (omega (arith, before, found))
                | inr later ↦ inr (inr later)
              ]),
              λ h. elim h [
                | inl before ↦ from (inl (omega (arith, before, found)))
                | inr (inl (path, e)) ↦ absurd cc
                | inr (inr later) ↦ from (inr later)
              ],
            ))
      | inr (path, e) ↦
          ((λ h. inr (inl (path, e))), λ h. from (inl (add_line_of-found host line path counts e)))
    ]
