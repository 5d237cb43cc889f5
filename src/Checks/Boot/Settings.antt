-- ===== src/Checks/Boot/Settings.antt =====
-- The settings of the firmware in src/check_bios_boot.c: its attributes, its passwords and the flag
-- on the boot order; and the check as a whole.
use Prim.Native.Nat.{bit_and}
use bythos.Base.{
  ℕ, ◌-◌, Bool, true, false, not, ◌&&◌, ◌||◌, Option, none, some, List, [], ◌∷◌, ◌++◌, map, Bytes,
  codes, length, drop, ltb, ◌==◌, if◌then◌else◌, ◌>>=◌, strstr, contains, starts_with, drop_while,
  is_blank, is_space, get_elem?,
}
use bythos.Posture.Types.{
  check_ok, check_warn, skip_feature_absent, skip_report_field_absent, CheckResult, Results, emit,
  emit_skip, emit_skip_feature, emit_skip_exec, emit_skip_exec_root, emit_skip_parse, emit_all,
}
use bythos.Efi.Entry.{to_lower_ascii}
use bythos.Runtime.Host.{Host, opened}
use bythos.Runtime.Files.{file_exists, read_file_text, join_path}
use bythos.Runtime.Processes.{command_exists, capture_argv_status}
use bythos.Checks.Tools.{behind_written, emit_skip_tool_or_untrusted, emit_guarded}
use bythos.Checks.Platform.{is_hidden}
use bythos.Checks.Boot.{boot_order_path}
use bythos.Checks.Boot.Order.{check_efivars_boot}

unfoldable pub name_matches_usb_boot : Bytes → Bool
unfolding to_lower_ascii
name_matches_usb_boot name =
    let lower = to_lower_ascii name 256 in
    contains lower (codes "usb") && contains lower (codes "boot")

-- Without the spaces at its end.
unfoldable pub trim_value : Bytes → Bytes
trim_value [] = []
trim_value (c ∷ s) = elim (trim_value s) [
  | [] ↦ if is_space c then [] else c ∷ []
  | d ∷ t ↦ c ∷ d ∷ t
]

-- The value of one attribute, if it is one that is looked for and can be read.
unfoldable pub usb_boot_value : Host → Bytes → Bytes → Option Bytes
unfolding name_matches_usb_boot trim_value
usb_boot_value host attrs_path name =
    if is_hidden name || not (name_matches_usb_boot name)
    then none
    else elim (join_path attrs_path (name ++ codes "/current_value")) [
      | none ↦ none
      | some val_path ↦ elim (read_file_text host val_path 64) [
        | none ↦ none
        | some value ↦ some (trim_value value)
      ]
    ]

unfoldable pub find_usb_boot : Host → Bytes → List Bytes → Option Bytes
unfolding usb_boot_value
find_usb_boot host attrs_path [] = none
find_usb_boot host attrs_path (name ∷ names) =
    let rest = find_usb_boot host attrs_path names in
    elim (usb_boot_value host attrs_path name) [ some value ↦ some value | none ↦ rest ]

abbrev pub attributes_base : Bytes
attributes_base = codes "/sys/class/firmware-attributes"

-- Among the attributes of one vendor.
unfoldable pub vendor_usb_boot : Host → Bytes → Option Bytes
unfolding find_usb_boot
vendor_usb_boot host vendor =
    if is_hidden vendor
    then none
    else elim (join_path attributes_base (vendor ++ codes "/attributes")) [
      | none ↦ none
      | some attrs_path ↦ elim (host.listing attrs_path) [
        | none ↦ none
        | some names ↦ find_usb_boot host attrs_path names
      ]
    ]

unfoldable pub find_vendor_usb_boot : Host → List Bytes → Option Bytes
unfolding vendor_usb_boot
find_vendor_usb_boot host [] = none
find_vendor_usb_boot host (vendor ∷ vendors) =
    let rest = find_vendor_usb_boot host vendors in
    elim (vendor_usb_boot host vendor) [ some value ↦ some value | none ↦ rest ]

unfoldable pub usb_boot_verdict : Bytes → CheckResult
unfolding emit to_lower_ascii
usb_boot_verdict value =
    let name = codes "BIOS USB boot" in
    let lower_value = to_lower_ascii value 64 in
    if contains lower_value (codes "disable")
    then emit name check_ok (codes "disabled via firmware-attributes")
    else if contains lower_value (codes "enable")
    then emit name check_warn (codes "enabled; consider disabling in BIOS")
    else emit name check_warn (codes "setting: " ++ value)

unfoldable pub firmware_attrs_result : Host → CheckResult
unfolding find_vendor_usb_boot usb_boot_verdict emit_skip
firmware_attrs_result host =
    let name = codes "BIOS USB boot" in
    elim (host.listing attributes_base) [
      | none ↦
          emit_skip name skip_feature_absent
            (codes "firmware-attributes not available; check BIOS manually")
      | some vendors ↦ elim (find_vendor_usb_boot host vendors) [
        | none ↦
            emit_skip name skip_feature_absent
              (codes "USB boot attribute not exposed; check BIOS manually")
        | some value ↦ usb_boot_verdict value
      ]
    ]

unfoldable pub check_firmware_attrs_boot : Host → ℕ → Results
unfolding emit_guarded firmware_attrs_result
check_firmware_attrs_boot host max_results =
    emit_guarded max_results (firmware_attrs_result host ∷ [])

pub record PasswordSlot : Type 0 where
  pub name : Bytes
  pub field : Bytes

unfoldable pub slots : List PasswordSlot
slots =
    record {
      name = codes "Firmware admin password";
      field = codes "Administrator Password Status:";
    }
    ∷ record {
      name = codes "Firmware power-on password";
      field = codes "Power-On Password Status:";
    }
    ∷ record {
      name = codes "Firmware keyboard password";
      field = codes "Keyboard Password Status:";
    }
    ∷ []

-- Does the word end in front of this byte? Behind the text the buffer holds 0.
abbrev pub ends_word : Option ℕ → Bool
ends_word none = true
ends_word (some c) = c == b'\n' || c == b'\r' || c == b' ' || c == b'\t'

-- The verdict on what stands behind the field's name and the blanks.
unfoldable pub password_status : Bytes → Bytes → CheckResult
unfolding emit emit_skip_parse
password_status name pos =
    if starts_with (codes "Enabled") pos && ends_word (get_elem? pos 7)
    then emit name check_ok (codes "set")
    else if starts_with (codes "Disabled") pos && ends_word (get_elem? pos 8)
    then emit name check_warn (codes "not set")
    else emit_skip_parse name (codes "dmidecode")

-- The row of a slot; the buffer has 2048 bytes, and `pos` is so many of them before its text's end.
unfoldable pub slot_result : Bytes → PasswordSlot → CheckResult
unfolding password_status emit_skip emit_skip_parse
slot_result buf slot = elim (strstr buf (slot.field)) [
  | none ↦
      if contains buf (codes "DMI type 24")
      then emit_skip slot.name skip_report_field_absent (codes "field not present")
      else emit_skip slot.name skip_feature_absent
          (codes "DMI Type 24 not exposed by firmware; check BIOS manually")
  | some at_field ↦
      (let pos = drop_while is_blank (drop (length slot.field) at_field) in
        if ltb (2048 - (length buf - length pos)) 9
        then emit_skip_parse slot.name (codes "dmidecode")
        else password_status slot.name pos)
]

abbrev pub needs_root : Bytes → Bool
needs_root buf =
    contains buf (codes "Permission denied")
    || contains buf (codes "must be root")
    || contains buf (codes "requires root")

abbrev pub failed_row : Bool → PasswordSlot → CheckResult
failed_row true slot = emit_skip_exec_root slot.name (codes "dmidecode")
failed_row false slot = emit_skip_exec slot.name (codes "dmidecode")

-- The row of a slot, by what dmidecode answers.
abbrev pub answered_row : Option (ℕ × Bytes) → PasswordSlot → CheckResult
answered_row none slot = failed_row true slot
answered_row (some (status, buf)) slot =
    if not (status == 0) then failed_row (needs_root buf) slot else slot_result buf slot

unfoldable pub firmware_password_results : Host → Results
unfolding slots slot_result emit_skip_exec emit_skip_exec_root emit_skip_tool_or_untrusted
firmware_password_results host =
    let dmidecode = codes "dmidecode" in
    if not (command_exists host dmidecode)
    then map
        (λ (slot : PasswordSlot). emit_skip_tool_or_untrusted host slot.name dmidecode dmidecode)
        slots
    else map
        (answered_row (capture_argv_status host (dmidecode ∷ codes "-t" ∷ codes "24" ∷ []) 2048))
        slots

unfoldable pub check_firmware_password : Host → ℕ → Results
unfolding emit_all firmware_password_results
check_firmware_password host max_results = emit_all max_results (firmware_password_results host) []

-- FS_IMMUTABLE_FL
abbrev pub immutable_flag : ℕ
immutable_flag = 0x10

unfoldable pub flags_verdict : ℕ → CheckResult
unfolding emit
flags_verdict flags =
    let name = codes "EFI BootOrder immutable" in
    if not (bit_and flags immutable_flag == 0)
    then emit name check_ok (codes "flag set; the kernel refuses BootOrder writes while it holds")
    else emit name check_warn (
        codes
          "flag not set; the kernel does not refuse BootOrder writes; the flag would refuse them all, intended ones included")

unfoldable pub immutable_result : Host → CheckResult
unfolding flags_verdict emit_skip_feature emit_skip_exec
immutable_result host =
    let name = codes "EFI BootOrder immutable" in
    if not (file_exists host boot_order_path)
    then emit_skip_feature name (codes "BootOrder variable")
    else elim (host.open_read boot_order_path) [
      | opened ↦ elim (host.get_flags boot_order_path) [
        | none ↦ emit_skip_exec name (codes "immutable flag")
        | some flags ↦ flags_verdict flags
      ]
      | _ ↦ emit_skip_exec name (codes "BootOrder variable")
    ]

unfoldable pub check_efivars_immutable : Host → ℕ → Results
unfolding emit_guarded immutable_result
check_efivars_immutable host max_results = emit_guarded max_results (immutable_result host ∷ [])

unfoldable pub check_bios_boot : Host → ℕ → Option Results
unfolding check_efivars_boot check_efivars_immutable check_firmware_attrs_boot
    check_firmware_password
check_bios_boot host max_results = do
  first ← check_efivars_boot host max_results
  let second = behind_written max_results first (check_efivars_immutable host)
  let third = behind_written max_results second (check_firmware_attrs_boot host)
  some (behind_written max_results third (check_firmware_password host))
