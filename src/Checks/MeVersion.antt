-- ===== src/Checks/MeVersion.antt =====
-- src/check_me_version.c: the version of the processor's management engine.
use bythos.Base.{
  ℕ, ◌-◌, ◌%◌, ◌^◌, not, ◌&&◌, ◌||◌, Option, none, some, List, [], ◌∷◌, ◌++◌, Bytes, codes, drop,
  ltb, ◌==◌, if◌then◌else◌, starts_with, fit, decimal, is_space, is_digit, take_while, drop_while,
}
use bythos.Posture.Types.{
  check_ok, CheckResult, Results, emit, emit_skip_feature, emit_skip_exec, emit_skip_parse,
  emit_skip_vendor,
}
use bythos.Firmware.Sbat.{ulong_max, digits_value}
use bythos.Silicon.Cpu.{cpu_vendor_intel}
use bythos.Runtime.Host.{Host}
use bythos.Runtime.Files.{file_exists, read_file_text}
use bythos.Checks.Tools.{host_vendor, emit_guarded}

-- `%u` of sscanf: the number, and the text behind it. Spaces and a sign may stand in front of it.
unfoldable pub scan_uint : Bytes → Option (ℕ × Bytes)
scan_uint text =
    let start = drop_while is_space text in
    let negative = starts_with (codes "-") start in
    let s = if negative || starts_with (codes "+") start then drop 1 start else start in
    let n = digits_value (take_while is_digit s) 0 in
    let v = if negative && ltb n ulong_max then (2 ^ 64 - n) % 2 ^ 64 else n in
    elim (take_while is_digit s) [
      | [] ↦ none
      | c ∷ digits ↦ some (v % 2 ^ 32, drop_while is_digit s)
    ]

-- The numbers that the format asks for, each but the first behind its separator.
unfoldable pub scan_more : Bytes → Bytes → Option (List ℕ)
unfolding scan_uint
scan_more [] text = some []
scan_more (sep ∷ seps) text = elim text [
  | [] ↦ none
  | c ∷ s ↦ if not (c == sep) then none else elim (scan_uint s) [
    | none ↦ none
    | some (n, rest) ↦ elim (scan_more seps rest) [
      | none ↦ none
      | some numbers ↦ some (n ∷ numbers)
    ]
  ]
]

unfoldable pub scan_numbers_by : Bytes → Bytes → Option (List ℕ)
unfolding scan_uint scan_more
scan_numbers_by seps text = elim (scan_uint text) [
  | none ↦ none
  | some (n, rest) ↦ elim (scan_more seps rest) [ none ↦ none | some numbers ↦ some (n ∷ numbers) ]
]

-- `"%u.%u.%u.%u"`
unfoldable pub dotted : List ℕ → Bytes
dotted [] = []
dotted (n ∷ []) = decimal n
dotted (n ∷ m ∷ numbers) = decimal n ++ b'.' ∷ dotted (m ∷ numbers)

abbrev pub tail_of_list : List ℕ → List ℕ
tail_of_list [] = []
tail_of_list (n ∷ numbers) = numbers

-- With the platform in front of a colon, or without it.
unfoldable pub parse_me_version : Bytes → ℕ → Option Bytes
unfolding scan_numbers_by dotted
parse_me_version text size =
    if size == 0 then none else elim (scan_numbers_by (codes ":...") text) [
      | some numbers ↦ some (fit size (dotted (tail_of_list numbers)))
      | none ↦ elim (scan_numbers_by (codes "...") text) [
        | some numbers ↦ some (fit size (dotted numbers))
        | none ↦ none
      ]
    ]

-- The newlines, returns and spaces at the end.
unfoldable pub trim_version : Bytes → Bytes
trim_version [] = []
trim_version (c ∷ s) = elim (trim_version s) [
  | [] ↦ if c == b'\n' || c == b'\r' || c == b' ' then [] else c ∷ []
  | d ∷ t ↦ c ∷ d ∷ t
]

unfoldable pub me_fw_version_path : Bytes
me_fw_version_path = codes "/sys/class/mei/mei0/fw_version"

unfoldable pub me_version_text : Bytes → CheckResult
unfolding parse_me_version trim_version emit emit_skip_parse
me_version_text buf =
    let name = codes "Intel ME version" in
    elim (parse_me_version (trim_version buf) 64) [
      | none ↦ emit_skip_parse name (codes "ME version")
      | some version ↦ emit name check_ok (version ++ codes "; compare against Intel SA advisories")
    ]

unfoldable pub me_version_result : Host → CheckResult
unfolding me_version_text emit_skip_vendor emit_skip_feature emit_skip_exec
me_version_result host =
    let name = codes "Intel ME version" in
    elim (host_vendor host) [
      | cpu_vendor_intel ↦
          if not (file_exists host me_fw_version_path)
          then emit_skip_feature name (codes "Intel ME")
          else elim (read_file_text host me_fw_version_path 64) [
            | none ↦ emit_skip_exec name (codes "ME version")
            | some buf ↦ me_version_text buf
          ]
      | _ ↦ emit_skip_vendor name (codes "Intel-only check")
    ]

unfoldable pub check_me_version : Host → ℕ → Results
unfolding emit_guarded me_version_result
check_me_version host max_results = emit_guarded max_results (me_version_result host ∷ [])
