-- ===== src/Firmware/Sbctl/Fields.antt =====
-- The text fields of the status of sbctl, for any report.
use bythos.Base.{
  ◌<◌, ◌≡◌, refl, List, [], ◌∷◌, arith, Bytes, length, length-take, length-trim_end, trim_end, take,
  lines, Option-cases, inl, inr, fit,
}
use bythos.Firmware.Labels.{skip_label_value}
use bythos.Firmware.Sbctl.{
  SbctlStatus, unknown_status, is_present, read_field, apply_value, apply_line, apply_lines,
  parse_sbctl_status,
}

-- Both texts fit their fields with a NUL, and are marked as present exactly when they are not empty.
abbrev pub IsFilled : SbctlStatus → Type 0
IsFilled status =
    (length status.owner_guid < 64)
    × (length status.vendor_keys < 64)
    × (status.owner_guid_present ≡ is_present status.owner_guid)
    × (status.vendor_keys_present ≡ is_present status.vendor_keys)

read_field-lt : (value : Bytes) → length (read_field value) < 64
unfolding read_field
read_field-lt value = omega (arith, length-trim_end (fit 64 value), length-take 63 value)

apply_value-IsFilled :
    (line value : Bytes) (status : SbctlStatus)
    → IsFilled status
    → IsFilled (apply_value line value status)
unfolding apply_value
apply_value-IsFilled line value status h = ground (arith, read_field-lt value)

apply_line-IsFilled :
    (raw : Bytes) (status : SbctlStatus) → IsFilled status → IsFilled (apply_line raw status)
unfolding apply_line
apply_line-IsFilled raw status h =
    let line = trim_end (take 255 raw) in
    elim (Option-cases (skip_label_value line)) [
      | inl nothing ↦ rw (nothing, apply_line) h
      | inr (value, eq) ↦ rw (eq, apply_line) (apply_value-IsFilled line value status h)
    ]

apply_lines-IsFilled :
    (ls : List Bytes) (status : SbctlStatus) → IsFilled status → IsFilled (apply_lines ls status)
unfolding apply_lines
apply_lines-IsFilled [] status h = h
apply_lines-IsFilled (l ∷ ls) status h =
    apply_lines-IsFilled ls (apply_line l status) (apply_line-IsFilled l status h)

-- For any report both texts fit their fields with a NUL, and each is marked as present exactly when
-- it is not empty.
pub parse_sbctl_status-IsFilled : (text : Bytes) → IsFilled ((parse_sbctl_status text).1)
unfolding parse_sbctl_status
parse_sbctl_status-IsFilled text =
    apply_lines-IsFilled (lines text) unknown_status (omega arith, omega arith, refl, refl)
