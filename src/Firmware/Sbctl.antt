-- ===== src/Firmware/Sbctl.antt =====
-- `bythos_parse_sbctl_status` of src/firmware_parsers.c: the report of `sbctl status`.
pub mod Fields
use bythos.Base.{
  ℕ, Bool, true, false, not, ◌||◌, Option, none, some, List, [], ◌∷◌, Bytes, codes, take,
  if◌then◌else◌, starts_with, contains, fit, lines, trim_end, length,
}
use bythos.Firmware.Labels.{skip_label_value}

pub record SbctlStatus : Type 0 where
  pub installed_known : Bool
  pub installed : Bool
  pub setup_mode_known : Bool
  pub setup_mode_enabled : Bool
  pub secure_boot_known : Bool
  pub secure_boot_enabled : Bool
  pub owner_guid_present : Bool
  pub owner_guid : Bytes
  pub vendor_keys_present : Bool
  pub vendor_keys : Bytes

abbrev pub unknown_status : SbctlStatus
unknown_status = record {
  installed_known = false;
  installed = false;
  setup_mode_known = false;
  setup_mode_enabled = false;
  secure_boot_known = false;
  secure_boot_enabled = false;
  owner_guid_present = false;
  owner_guid = [];
  vendor_keys_present = false;
  vendor_keys = [];
}

abbrev pub is_present : Bytes → Bool
is_present [] = false
is_present (c ∷ s) = true

-- Is the flag known, and what it is: a value that is not understood leaves the flag as it was.
unfoldable pub read_flag : Bytes → Bytes → Bytes → Bool → Bool × Bool
read_flag value first second old =
    if contains value first
    then (true, true)
    else if contains value second
    then (true, false)
    else (false, old)

unfoldable pub read_installed : Bytes → Bool → Bool × Bool
read_installed value old =
    if contains value (codes "not installed")
    then (true, false)
    else if contains value (codes "installed")
    then (true, true)
    else (false, old)

-- A text field of 64 bytes.
unfoldable pub read_field : Bytes → Bytes
unfolding trim_end
read_field value = trim_end (fit 64 value)

unfoldable pub apply_value : Bytes → Bytes → SbctlStatus → SbctlStatus
unfolding read_flag read_installed
apply_value line value status =
    if starts_with (codes "Installed:") line
    then (let (known, flag) = read_installed value status.installed in
        record status { installed_known = known; installed = flag })
    else if starts_with (codes "Setup Mode:") line
    then (let (known, flag) =
          read_flag value (codes "Enabled") (codes "Disabled") status.setup_mode_enabled in
        record status { setup_mode_known = known; setup_mode_enabled = flag })
    else if starts_with (codes "Secure Boot:") line
    then (let (known, flag) =
          read_flag value (codes "Enabled") (codes "Disabled") status.secure_boot_enabled in
        record status { secure_boot_known = known; secure_boot_enabled = flag })
    else if starts_with (codes "Owner GUID:") line
    then record status {
      owner_guid = read_field value;
      owner_guid_present = is_present (read_field value);
    }
    else if starts_with (codes "Vendor Keys:") line
    then record status {
      vendor_keys = read_field value;
      vendor_keys_present = is_present (read_field value);
    }
    else status

-- A line, cut off at the buffer of 256 bytes.
unfoldable pub apply_line : Bytes → SbctlStatus → SbctlStatus
unfolding trim_end
apply_line raw status =
    let line = trim_end (take 255 raw) in
    elim (skip_label_value line) [ none ↦ status | some value ↦ apply_value line value status ]

unfoldable pub apply_lines : List Bytes → SbctlStatus → SbctlStatus
apply_lines [] status = status
apply_lines (l ∷ ls) status = apply_lines ls (apply_line l status)

unfoldable pub is_recognised : SbctlStatus → Bool
is_recognised status =
    status.installed_known || status.setup_mode_known || status.secure_boot_known
    || status.owner_guid_present

unfoldable pub parse_sbctl_status : Bytes → Bool × SbctlStatus
unfolding apply_lines lines is_recognised
parse_sbctl_status text =
    let status = apply_lines (lines text) unknown_status in (is_recognised status, status)
