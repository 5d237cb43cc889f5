-- ===== src/Silicon/Cpu.antt =====
-- The readers of /proc/cpuinfo and of the PCR bank in src/silicon_parsers.c.
pub mod Fuel
use bythos.Base.{
  ℕ, zero, suc, ◌-◌, Bool, true, false, not, ◌&&◌, ◌||◌, Option, none, some, List, [], ◌∷◌, Bytes,
  codes, length, take, drop, ltb, ◌==◌, if◌then◌else◌, is_blank, take_while, drop_while,
  starts_with, strchr, lines, trim, fit, decimal,
}
use bythos.Silicon.{token_present}

-- The value of a PCR: all zeros, not zero, or not found; the C code's 1, 0 and -1.
pub data PcrZero : Type 0 where
  all_zeros : PcrZero
  not_zero : PcrZero
  not_found : PcrZero

abbrev pub in_hex : ℕ → Bool
in_hex c = not (c == b'\n' || c == b'\r' || c == b' ')

unfoldable pub all_zero_digits : Bytes → Bool
all_zero_digits [] = true
all_zero_digits (c ∷ s) = if c == b'0' then all_zero_digits s else false

unfoldable pub hex_verdict : Bytes → PcrZero
hex_verdict hex = elim (take_while in_hex hex) [
  | [] ↦ not_found
  | c ∷ s ↦ if all_zero_digits (c ∷ s) then all_zeros else not_zero
]

-- The search for "0x" in the line.
unfoldable pub find_hex : Bytes → PcrZero
find_hex [] = not_found
find_hex (c ∷ []) = not_found
find_hex (c ∷ d ∷ s) = if c == b'0' && d == b'x' then hex_verdict s else find_hex (d ∷ s)

abbrev pub not_newline : ℕ → Bool
not_newline c = not (c == b'\n')

-- Does the line, from its first byte that is no blank on, speak of this PCR?
unfoldable pub names_pcr : Bytes → Bytes → Bool
names_pcr prefix p =
    if starts_with prefix p
    then elim (drop (length prefix) p) [ [] ↦ false | c ∷ s ↦ c == b' ' || c == b':' || c == b'\t' ]
    else false

-- The loop over the lines.
unfoldable pub pcr_from : ℕ → Bytes → Bytes → PcrZero
pcr_from zero text prefix = not_found
pcr_from (suc fuel) [] prefix = not_found
pcr_from (suc fuel) (c ∷ s) prefix =
    let p = drop_while is_blank (c ∷ s) in
    let rest = pcr_from fuel (drop 1 (drop_while not_newline (c ∷ s))) prefix in
    if names_pcr prefix p then find_hex (take_while not_newline p) else rest

-- The number is written to a buffer of 8 bytes.
unfoldable pub pcr_zero_check : Bytes → ℕ → PcrZero
unfolding pcr_from
pcr_zero_check buf pcr_num = pcr_from (suc (length buf)) buf (fit 8 (decimal pcr_num))

pub data CpuVendor : Type 0 where
  cpu_vendor_unknown : CpuVendor
  cpu_vendor_amd : CpuVendor
  cpu_vendor_intel : CpuVendor

unfoldable pub vendor_of : Bytes → CpuVendor
vendor_of line = elim (strchr line b':') [
  | none ↦ cpu_vendor_unknown
  | some colon ↦
      (let value = drop_while is_blank (drop 1 colon) in
        if starts_with (codes "AuthenticAMD") value
        then cpu_vendor_amd
        else if starts_with (codes "GenuineIntel") value
        then cpu_vendor_intel
        else cpu_vendor_unknown)
]

unfoldable pub find_vendor : List Bytes → CpuVendor
find_vendor [] = cpu_vendor_unknown
find_vendor (l ∷ ls) =
    if ltb 10 (length l) && starts_with (codes "vendor_id") l then vendor_of l else find_vendor ls

-- The argument is what /proc/cpuinfo holds, `none` where it cannot be read.
unfoldable pub cpu_vendor : Option Bytes → CpuVendor
cpu_vendor none = cpu_vendor_unknown
cpu_vendor (some buf) = find_vendor (lines buf)

unfoldable pub is_flags_line : Bytes → Bool
is_flags_line line =
    if ltb 5 (length line) && starts_with (codes "flags") line
    then elim (drop 5 line) [ [] ↦ false | c ∷ s ↦ c == b'\t' || c == b' ' || c == b':' ]
    else false

unfoldable pub find_flags : List Bytes → ℕ → Option Bytes
find_flags [] out_size = none
find_flags (l ∷ ls) out_size =
    let rest = find_flags ls out_size in
    if is_flags_line l
    then elim (strchr l b':') [
      | none ↦ rest
      | some colon ↦ some (take (out_size - 1) (drop_while is_blank (drop 1 colon)))
    ]
    else rest

unfoldable pub extract_cpuinfo_flags_line : Bytes → ℕ → Option Bytes
extract_cpuinfo_flags_line cpuinfo out_size =
    if out_size == 0 then none else find_flags (lines cpuinfo) out_size

pub record MemEncFlags : Type 0 where
  pub amd_sme : Bool
  pub intel_tme : Bool

unfoldable pub parse_memory_encryption_flags : Bytes → MemEncFlags
parse_memory_encryption_flags cpuinfo = elim (extract_cpuinfo_flags_line cpuinfo 2048) [
  | none ↦ record { amd_sme = false; intel_tme = false }
  | some flags ↦ record {
    amd_sme = token_present flags (codes "sme");
    intel_tme = token_present flags (codes "tme");
  }
]

-- The revision in one line, cut off at the buffer of 512 bytes.
unfoldable pub line_revision : Bytes → Option Bytes
line_revision raw =
    let lhs = trim (take 511 raw) in
    if starts_with (codes "microcode") lhs
    then elim (strchr lhs b':') [
      | none ↦ none
      | some sep ↦ elim (trim (drop 1 sep)) [ [] ↦ none | c ∷ s ↦ some (c ∷ s) ]
    ]
    else none

unfoldable pub find_revision : List Bytes → ℕ → Option Bytes
find_revision [] size = none
find_revision (l ∷ ls) size = elim (line_revision l) [
  | none ↦ find_revision ls size
  | some rhs ↦ some (fit size rhs)
]

unfoldable pub extract_microcode_revision : Bytes → ℕ → Option Bytes
extract_microcode_revision text size = if size == 0 then none else find_revision (lines text) size
