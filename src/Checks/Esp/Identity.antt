-- ===== src/Checks/Esp/Identity.antt =====
-- When the default bootloader is said to be the installed shim.
use bythos.Base.{
  ◌≡◌, ◌≢◌, ◌↔◌, refl, sym, ap, ◌∙◌, Bool, true, false, Option, none, some, arith, Bytes, codes,
  equal, equal_sound, equal_refl, Bool-cases, inl, inr,
}
use bythos.Posture.Types.{
  check_ok, CheckResult, emit, emit_skip, make_result, make_skip, make_skip_actionable,
}
use bythos.Storage.{parse_sha256sum_line}
use bythos.Runtime.Host.{Host, Stat}
use bythos.Runtime.Processes.{command_exists, command_untrusted}
use bythos.Checks.Esp.Fallback.{
  same_inode, sha256sum_of, hash_verdict, output_verdict, compare_fallback,
}

-- The two paths lead to one file, or a trusted sha256sum prints the same digest for both.
pub data IsIdentical (host : Host) (path shim : Bytes) : Type 0 where
  one_file :
      (st_boot st_shim : Stat)
      → host.stat path ≡ some st_boot
      → host.stat shim ≡ some st_shim
      → st_boot.inode ≡ st_shim.inode
      → st_boot.device ≡ st_shim.device
      → IsIdentical host path shim
  one_digest :
      (boot_out shim_out digest : Bytes)
      → command_exists host (codes "sha256sum") ≡ true
      → sha256sum_of host path ≡ some boot_out
      → sha256sum_of host shim ≡ some shim_out
      → parse_sha256sum_line boot_out 128 ≡ some digest
      → parse_sha256sum_line shim_out 128 ≡ some digest
      → IsIdentical host path shim

abbrev Passes : CheckResult → Type 0
Passes row = row.state ≡ check_ok

hash_verdict-holds :
    (filename : Bytes) (boot_hash shim_hash : Option Bytes)
    → Passes (hash_verdict filename boot_hash shim_hash)
      ↔ ((digest : Bytes) × (boot_hash ≡ some digest) × (shim_hash ≡ some digest))
unfolding hash_verdict emit emit_skip make_skip make_result
hash_verdict-holds filename none shim_hash = ((λ h. absurd cc), λ k. absurd cc)
hash_verdict-holds filename (some boot_hash) none = ((λ h. absurd cc), λ k. absurd cc)
hash_verdict-holds filename (some boot_hash) (some shim_hash) =
    elim (Bool-cases (equal boot_hash shim_hash)) [
      | inl same ↦ rw same (
        (λ h. (boot_hash, refl, ap some (sym (equal_sound boot_hash shim_hash same)))),
        λ k. refl,
      )
      | inr other ↦ rw other (
        (λ h. absurd cc),
        λ k.
            let (digest, b, s) = k in
            let same : shim_hash ≡ boot_hash = cc in
            let found = ap (equal boot_hash) same ∙ equal_refl boot_hash in absurd cc,
      )
    ]

output_verdict-holds :
    (filename : Bytes) (boot_out shim_out : Option Bytes)
    → Passes (output_verdict filename boot_out shim_out) ↔ (
        (b s digest : Bytes) × (boot_out ≡ some b)
        × (shim_out ≡ some s)
        × (parse_sha256sum_line b 128 ≡ some digest)
        × (parse_sha256sum_line s 128 ≡ some digest))
unfolding output_verdict emit_skip make_skip make_result
output_verdict-holds filename none shim_out = ((λ h. absurd cc), λ k. absurd cc)
output_verdict-holds filename (some b) none = ((λ h. absurd cc), λ k. absurd cc)
output_verdict-holds filename (some b) (some s) =
    let (to, from) =
      hash_verdict-holds filename (parse_sha256sum_line b 128) (parse_sha256sum_line s 128) in
    (
      (λ h. let (digest, p, q) = to h in (b, s, digest, refl, refl, p, q)),
      (λ k.
          let (b2, s2, digest, e, f, p, q) = k in
          let same_b : b ≡ b2 = cc in
          let same_s : s ≡ s2 = cc in
          from (
            digest,
            ap (λ (t : Bytes). parse_sha256sum_line t 128) same_b ∙ p,
            ap (λ (t : Bytes). parse_sha256sum_line t 128) same_s ∙ q,
          )),
    )

-- What the comparison of the inodes says.
same_inode_sound :
    (boot shim : Option Stat)
    → same_inode boot shim ≡ true
    → (st_boot st_shim : Stat) × (boot ≡ some st_boot)
      × (shim ≡ some st_shim)
      × (st_boot.inode ≡ st_shim.inode)
      × (st_boot.device ≡ st_shim.device)
unfolding same_inode
same_inode_sound none shim h = absurd cc
same_inode_sound (some st_boot) none h = absurd cc
same_inode_sound (some st_boot) (some st_shim) h =
    (st_boot, st_shim, refl, refl, ground arith, ground arith)

same_inode_complete :
    (st_boot st_shim : Stat)
    → st_boot.inode ≡ st_shim.inode
    → st_boot.device ≡ st_shim.device
    → same_inode (some st_boot) (some st_shim) ≡ true
unfolding same_inode
same_inode_complete st_boot st_shim h k = ground arith

abbrev ByDigest : Host → Bytes → Bytes → Type 0
ByDigest host path shim =
    (command_exists host (codes "sha256sum") ≡ true)
    × ((b s digest : Bytes) × (sha256sum_of host path ≡ some b)
        × (sha256sum_of host shim ≡ some s)
        × (parse_sha256sum_line b 128 ≡ some digest)
        × (parse_sha256sum_line s 128 ≡ some digest))

not_both : (b : Bool) → b ≡ true → b ≢ false
not_both b h k = cc

-- Where the two are not one file.
same_digest_proof :
    (host : Host) (path shim : Bytes)
    → same_inode (host.stat path) (host.stat shim) ≡ false
    → IsIdentical host path shim
    → ByDigest host path shim
same_digest_proof host path shim other (one_file st_boot st_shim p q h k) =
    let same : same_inode (host.stat path) (host.stat shim) ≡ true =
      rw (p, q) (same_inode_complete st_boot st_shim h k) in
    absurd (not_both (same_inode (host.stat path) (host.stat shim)) same other)
same_digest_proof host path shim other (one_digest b s digest exists p q d e) =
    (exists, (b, s, digest, p, q, d, e))

-- Where a default bootloader and a shim are found, the row on it passes exactly if the two are one
-- file, or a sha256sum that is trusted ends well on both and prints the same digest.
pub compare_fallback-IsIdentical :
    (host : Host) (filename path shim : Bytes)
    → ((compare_fallback host filename path shim).state ≡ check_ok) ↔ IsIdentical host path shim
unfolding compare_fallback emit make_skip_actionable make_skip make_result
compare_fallback-IsIdentical host filename path shim =
    elim (Bool-cases (same_inode (host.stat path) (host.stat shim))) [
      | inl same ↦
          (let (st_boot, st_shim, p, q, i, d) =
              same_inode_sound (host.stat path) (host.stat shim) same in
            rw (same, compare_fallback) ((λ h. one_file st_boot st_shim p q i d), λ k. refl))
      | inr other ↦ elim (Bool-cases (command_exists host (codes "sha256sum"))) [
        | inr missing ↦ elim (Bool-cases (command_untrusted host (codes "sha256sum"))) [
          | inl untrusted ↦
              rw (other, missing, untrusted, compare_fallback)
                (
                  (λ h. absurd cc),
                  λ k. let (exists, rest) = same_digest_proof host path shim other k in absurd cc,
                )
          | inr absent ↦
              rw (other, missing, absent, compare_fallback)
                (
                  (λ h. absurd cc),
                  λ k. let (exists, rest) = same_digest_proof host path shim other k in absurd cc,
                )
        ]
        | inl exists ↦
            (let (to, from) =
                output_verdict-holds filename (sha256sum_of host path) (sha256sum_of host shim) in
              rw (other, exists, compare_fallback)
                (
                  (λ h.
                      let (b, s, digest, p, q, d, e) = to h in
                      one_digest b s digest exists p q d e),
                  λ k. from ((same_digest_proof host path shim other k).1),
                ))
      ]
    ]
