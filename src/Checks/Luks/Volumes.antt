-- ===== src/Checks/Luks/Volumes.antt =====
-- The loop over the volumes in src/check_luks.c, and what it counts.
use bythos.Base.{
  ℕ, ◌+◌, ◌-◌, ◌^◌, Bool, true, false, not, ◌||◌, Option, none, some, List, [], ◌∷◌, Bytes, codes,
  length, take, drop, ltb, leb, ◌==◌, if◌then◌else◌, contains, strstr, strchr,
}
use bythos.Storage.{parse_luks_version, parse_luks_integrity}
use bythos.Storage.Pcrs.{parse_luks_pcr_mask, luks_signed_policy_pcr_mask}
use bythos.Runtime.Host.{Host}
use bythos.Runtime.Processes.{capture_success}
use bythos.Checks.Luks.{popcount}

-- The PCRs of the volume that is bound to the fewest.
pub record Weakest : Type 0 where
  pub mask : ℕ
  pub popcount : ℕ

pub record LuksCounts : Type 0 where
  pub luks_found : ℕ
  pub luks_no_token : ℕ
  pub luks_token_noparsed : ℕ
  pub dump_ok : ℕ
  pub dump_failed : ℕ
  pub luks2_count : ℕ
  pub luks1_count : ℕ
  pub version_unknown_count : ℕ
  pub integrity_count : ℕ
  pub weakest : Weakest
  pub signed_weakest : Weakest
  pub signed_policy_count : ℕ
  pub clevis_count : ℕ
  pub any_token : Bool

abbrev pub all_pcrs : Weakest
all_pcrs = record { mask = 2 ^ 32 - 1; popcount = 32 }

abbrev pub no_volumes : LuksCounts
no_volumes = record {
  luks_found = 0;
  luks_no_token = 0;
  luks_token_noparsed = 0;
  dump_ok = 0;
  dump_failed = 0;
  luks2_count = 0;
  luks1_count = 0;
  version_unknown_count = 0;
  integrity_count = 0;
  weakest = all_pcrs;
  signed_weakest = all_pcrs;
  signed_policy_count = 0;
  clevis_count = 0;
  any_token = false;
}

abbrev pub onto_first : ℕ → List Bytes → List Bytes
onto_first c [] = (c ∷ []) ∷ []
onto_first c (l ∷ ls) = (c ∷ l) ∷ ls

-- The lines that the loop goes over: each ends at a newline or with the text.
unfoldable pub newline_lines : Bytes → List Bytes
newline_lines [] = []
newline_lines (c ∷ s) =
    let rest = newline_lines s in if c == b'\n' then [] ∷ rest else onto_first c rest

-- The path of the device on a line, where the line is that of a volume.
unfoldable pub luks_device_path : Bytes → Option Bytes
luks_device_path line =
    let row = take 511 line in
    if not (contains row (codes "FSTYPE=\"crypto_LUKS\""))
    then none
    else elim (strstr row (codes "PATH=\"")) [
      | none ↦ none
      | some at_path ↦
          (let ps = drop 6 at_path in
            elim (strchr ps b'"') [
              | none ↦ none
              | some pe ↦
                  (let device_path = take (length ps - length pe) ps in
                    if length device_path == 0 || leb 128 (length device_path)
                    then none
                    else some device_path)
            ])
    ]

unfoldable pub weaker : ℕ → Weakest → Weakest
unfolding popcount
weaker mask weakest =
    let pc = popcount 32 mask in
    if ltb pc weakest.popcount then record { mask = mask; popcount = pc } else weakest

-- A volume with a token of systemd: its PCRs, or those of its signed policy.
unfoldable pub add_token : Bytes → LuksCounts → LuksCounts
unfolding weaker
add_token dump_buf counts =
    let (mask, found) = parse_luks_pcr_mask dump_buf in
    let (signed_mask, signed_found) = luks_signed_policy_pcr_mask dump_buf in
    if found
    then record counts { any_token = true; weakest = weaker mask counts.weakest }
    else if signed_found
    then record counts {
      any_token = true;
      signed_policy_count = counts.signed_policy_count + 1;
      signed_weakest = weaker signed_mask counts.signed_weakest;
    }
    else record counts { any_token = true; luks_token_noparsed = counts.luks_token_noparsed + 1 }

unfoldable pub add_version : ℕ → LuksCounts → LuksCounts
add_version version counts =
    if version == 2
    then record counts { luks2_count = counts.luks2_count + 1 }
    else if version == 1
    then record counts { luks1_count = counts.luks1_count + 1 }
    else record counts { version_unknown_count = counts.version_unknown_count + 1 }

unfoldable pub add_integrity : Bytes → LuksCounts → LuksCounts
unfolding parse_luks_integrity
add_integrity dump_buf counts =
    if parse_luks_integrity dump_buf
    then record counts { integrity_count = counts.integrity_count + 1 }
    else counts

unfoldable pub add_binding : Bytes → LuksCounts → LuksCounts
unfolding add_token
add_binding dump_buf counts =
    if contains dump_buf (codes "systemd-tpm2")
    then add_token dump_buf counts
    else if contains dump_buf (codes "clevis")
    then record counts { clevis_count = counts.clevis_count + 1 }
    else record counts { luks_no_token = counts.luks_no_token + 1 }

-- What cryptsetup prints of the header; `none` where it fails.
unfoldable pub add_dump : Option Bytes → LuksCounts → LuksCounts
unfolding add_binding add_integrity add_version parse_luks_version
add_dump none counts = record counts { dump_failed = counts.dump_failed + 1 }
add_dump (some dump_buf) counts = add_binding dump_buf (
    add_integrity dump_buf
      (add_version (parse_luks_version dump_buf) (record counts { dump_ok = counts.dump_ok + 1 })))

unfoldable pub luks_dump : Host → Bytes → Option Bytes
luks_dump host device_path =
    capture_success host (codes "cryptsetup" ∷ codes "luksDump" ∷ device_path ∷ []) 16384

unfoldable pub add_line_of : Host → Bytes → LuksCounts → LuksCounts
unfolding luks_device_path luks_dump add_dump
add_line_of host line counts = elim (luks_device_path line) [
  | none ↦ counts
  | some device_path ↦
      add_dump (luks_dump host device_path) (record counts { luks_found = counts.luks_found + 1 })
]

unfoldable pub count_volumes : Host → List Bytes → LuksCounts → LuksCounts
unfolding add_line_of
count_volumes host [] counts = counts
count_volumes host (line ∷ lines) counts = count_volumes host lines (add_line_of host line counts)
