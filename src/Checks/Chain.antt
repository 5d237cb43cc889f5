-- ===== src/Checks/Chain.antt =====
-- src/check_boot_chain.c: the version of the bootloader, and where shim and grub are found.
pub mod Permissions
pub mod Levels
pub mod Safety
pub mod Rows
pub mod Report
use bythos.Base.{
  ℕ, ◌+◌, ◌-◌, Bool, true, false, not, ◌&&◌, ◌||◌, Option, none, some, List, [], ◌∷◌, ◌++◌, map,
  Bytes, codes, length, take, drop, ltb, leb, ◌==◌, if◌then◌else◌, ◌>>=◌, equal, contains, strstr,
  trim,
}
use bythos.Posture.Types.{
  check_ok, check_warn, check_fail, skip_subject_absent, skip_output_unparseable, skip_exec_failed,
  CheckResult, Results, emit, emit_skip, emit_skip_tool, emit_skip_exec, emit_skip_subject,
}
use bythos.Efi.Reads.{read_le16}
use bythos.Efi.Entry.{BootEntry, to_lower_ascii}
use bythos.Runtime.Host.{Host}
use bythos.Runtime.Files.{file_exists, read_file_binary, join_path, esp_efi_base}
use bythos.Runtime.Processes.{command_exists, command_untrusted, capture_success}
use bythos.Checks.Tools.{emit_skip_tool_or_untrusted}
use bythos.Checks.Platform.{is_hidden}
use bythos.Checks.Boot.{read_boot_entry}

abbrev pub with_version : Bytes → List Bytes
with_version tool = tool ∷ codes "--version" ∷ []

-- The tool that is asked for its version.
unfoldable pub bootloader_tool : Host → Option (List Bytes)
bootloader_tool host =
    if command_exists host (codes "grub-install")
    then some (with_version (codes "grub-install"))
    else if command_exists host (codes "grub2-install")
    then some (with_version (codes "grub2-install"))
    else if command_exists host (codes "bootctl")
    then some (with_version (codes "bootctl"))
    else none

abbrev pub is_bare : Bytes → Bool
is_bare [] = true
is_bare (c ∷ s) = false

unfoldable pub bootloader_version_result : Host → CheckResult
unfolding bootloader_tool emit emit_skip_tool emit_skip_exec
bootloader_version_result host =
    let name = codes "bootloader version" in
    elim (bootloader_tool host) [
      | none ↦
          if command_untrusted host (codes "grub-install")
            || command_untrusted host (codes "grub2-install")
            || command_untrusted host (codes "bootctl")
          then emit name check_warn
              (codes "bootloader tool on PATH is not root-owned; refusing to run it as root")
          else emit_skip_tool name (codes "bootloader tool")
      | some argv ↦ elim (capture_success host argv 256) [
        | none ↦ emit_skip_exec name (codes "bootloader")
        | some buf ↦
            if is_bare buf
            then emit_skip_exec name (codes "bootloader")
            else emit name check_ok (take 200 (trim buf))
      ]
    ]

abbrev pub is_candidate : List Bytes → Bytes → Bool
is_candidate [] lower = false
is_candidate (c ∷ candidates) lower = if equal lower c then true else is_candidate candidates lower

-- The first entry of a vendor's directory that is one of the candidates.
unfoldable pub find_in_vendor : List Bytes → Bytes → List Bytes → Option Bytes
unfolding join_path to_lower_ascii
find_in_vendor candidates vendor_path [] = none
find_in_vendor candidates vendor_path (name ∷ names) =
    let rest = find_in_vendor candidates vendor_path names in
    if not (is_candidate candidates (to_lower_ascii name 256))
    then rest
    else elim (join_path vendor_path name) [ none ↦ rest | some path ↦ some path ]

abbrev pub vendor_binary : Host → List Bytes → Bytes → Bytes → Option Bytes
vendor_binary host candidates base vendor =
    if is_hidden vendor then none else elim (join_path base vendor) [
      | none ↦ none
      | some vendor_path ↦ elim (host.listing vendor_path) [
        | none ↦ none
        | some names ↦ find_in_vendor candidates vendor_path names
      ]
    ]

unfoldable pub find_in_vendors : Host → List Bytes → Bytes → List Bytes → Option Bytes
unfolding find_in_vendor
find_in_vendors host candidates base [] = none
find_in_vendors host candidates base (vendor ∷ vendors) =
    let rest = find_in_vendors host candidates base vendors in
    elim (vendor_binary host candidates base vendor) [ some path ↦ some path | none ↦ rest ]

unfoldable pub find_efi_binary : Host → List Bytes → Option Bytes
unfolding find_in_vendors esp_efi_base
find_efi_binary host candidates =
    let base = esp_efi_base host in
    elim (host.listing base) [
      | none ↦ none
      | some vendors ↦ find_in_vendors host candidates base vendors
    ]

pub data ShimResolution : Type 0 where
  found_booted : ShimResolution
  found_on_esp : ShimResolution
  fallback_allowed : ShimResolution
  booted_non_shim : ShimResolution
  bootcurrent_unresolved : ShimResolution

-- What is found, with the path where there is one.
pub record ShimSearch : Type 0 where
  pub path : Option Bytes
  pub resolution : ShimResolution

abbrev pub not_found_as : ShimResolution → ShimSearch
not_found_as resolution = record { path = none; resolution = resolution }

abbrev pub slash : ℕ → ℕ
slash c = if c == b'\\' then b'/' else c

-- From the path of the entry that was booted.
unfoldable pub resolve_filepath : Host → Bytes → ShimSearch
unfolding to_lower_ascii join_path esp_efi_base
resolve_filepath host filepath =
    let norm = map slash (take 255 filepath) in
    let norm_lower = to_lower_ascii norm 256 in
    if not (contains norm_lower (codes "shimx64.efi"))
      && not (contains norm_lower (codes "shimaa64.efi"))
    then not_found_as booted_non_shim
    else elim (strstr norm_lower (codes "/efi/")) [
      | none ↦ not_found_as bootcurrent_unresolved
      | some efi ↦
          (let rel_off = length norm_lower - length efi + 5 in
            if leb (length norm) rel_off
            then not_found_as bootcurrent_unresolved
            else elim (join_path (esp_efi_base host) (drop rel_off norm)) [
              | none ↦ not_found_as bootcurrent_unresolved
              | some path ↦
                  if file_exists host path
                  then record { path = some path; resolution = found_booted }
                  else not_found_as bootcurrent_unresolved
            ])
    ]

unfoldable pub boot_current_path : Bytes
boot_current_path =
    codes "/sys/firmware/efi/efivars/BootCurrent-8be4df61-93ca-11d2-aa0d-00e098032b8c"

abbrev pub resolve_entry : Host → Option BootEntry → ShimSearch
resolve_entry host none = not_found_as bootcurrent_unresolved
resolve_entry host (some entry) =
    if is_bare entry.filepath
    then not_found_as bootcurrent_unresolved
    else resolve_filepath host entry.filepath

-- The variable of the entry is read as that of one in the boot order.
unfoldable pub find_booted_shim : Host → Option ShimSearch
unfolding resolve_filepath read_le16
find_booted_shim host = elim (read_file_binary host boot_current_path 8) [
  | none ↦ some (not_found_as fallback_allowed)
  | some cur ↦ if ltb (length cur) 6 then some (not_found_as fallback_allowed) else (do
    num ← read_le16 cur 4
    entry ← read_boot_entry host num
    some (resolve_entry host entry))
]

abbrev pub on_esp : Option Bytes → ShimSearch
on_esp none = not_found_as fallback_allowed
on_esp (some path) = record { path = some path; resolution = found_on_esp }

unfoldable pub find_shim : Host → Option ShimSearch
unfolding find_booted_shim find_efi_binary
find_shim host = do
  search ← find_booted_shim host
  some (elim (search.resolution) [
    | fallback_allowed ↦
        on_esp (find_efi_binary host (codes "shimx64.efi" ∷ codes "shimaa64.efi" ∷ []))
    | _ ↦ search
  ])

unfoldable pub find_grub : Host → Option Bytes
unfolding find_efi_binary
find_grub host = find_efi_binary host (codes "grubx64.efi" ∷ codes "grubaa64.efi" ∷ [])

abbrev pub shim_subject : ShimResolution → Bytes
shim_subject found_on_esp = codes "shim on ESP, not confirmed booted (BootCurrent unreadable)"
shim_subject _ = codes "booted shim"

unfoldable pub shim_name : Bytes
shim_name = codes "shim signature"

-- What pesign says of the shim.
unfoldable pub signature_verdict : ShimResolution → Bytes → CheckResult
unfolding emit to_lower_ascii
signature_verdict resolution buf =
    let subject = shim_subject resolution in
    if is_bare buf || contains (to_lower_ascii buf 2048) (codes "no signature")
    then emit shim_name check_fail (subject ++ codes ": binary not signed")
    else emit shim_name check_ok (subject ++ codes ": signed; chain not validated")

abbrev pub missing_shim : ShimResolution → CheckResult
missing_shim booted_non_shim =
    emit_skip shim_name skip_subject_absent (codes "booted via non-shim path")
missing_shim bootcurrent_unresolved =
    emit_skip shim_name skip_output_unparseable (codes "BootCurrent path unresolved")
missing_shim _ = emit_skip_subject shim_name (codes "shim")

unfoldable pub shim_signature_row : Host → ShimSearch → CheckResult
unfolding signature_verdict emit_skip emit_skip_subject emit_skip_tool_or_untrusted
shim_signature_row host search =
    let pesign = codes "pesign" in
    elim (search.path) [
      | none ↦ missing_shim search.resolution
      | some shim_path ↦
          if not (command_exists host pesign)
          then emit_skip_tool_or_untrusted host shim_name pesign pesign
          else elim (capture_success host
              (pesign ∷ codes "--show-signature" ∷ codes "--in" ∷ shim_path ∷ []) 2048) [
                | none ↦ emit_skip shim_name skip_exec_failed (codes "pesign query failed")
                | some buf ↦ signature_verdict search.resolution buf
              ]
    ]

unfoldable pub shim_signature_result : Host → Option CheckResult
unfolding find_shim shim_signature_row
shim_signature_result host = do search ← find_shim host; some (shim_signature_row host search)
