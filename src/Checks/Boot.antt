-- ===== src/Checks/Boot.antt =====
-- src/check_bios_boot.c: the entries of the boot order, and how they are listed in a detail.
pub mod Order
pub mod Settings
pub mod Detail
pub mod Verdict
pub mod Report
use bythos.Base.{
  ℕ, ◌+◌, ◌-◌, ◌/◌, ◌%◌, Bool, true, false, not, ◌&&◌, Option, none, some, List, [], ◌∷◌, ◌++◌, map,
  Bytes, codes, length, take, ltb, leb, ◌==◌, if◌then◌else◌, ◌>>=◌, fit,
}
use bythos.Posture.Types.{detail_max}
use bythos.Efi.Entry.{BootEntry, parse_efi_boot_entry}
use bythos.Runtime.Host.{Host}
use bythos.Runtime.Files.{read_file_binary_ex}

unfoldable pub boot_order_path : Bytes
boot_order_path = codes "/sys/firmware/efi/efivars/BootOrder-8be4df61-93ca-11d2-aa0d-00e098032b8c"

unfoldable pub boot_next_path : Bytes
boot_next_path = codes "/sys/firmware/efi/efivars/BootNext-8be4df61-93ca-11d2-aa0d-00e098032b8c"

-- A digit in base sixteen, with capital letters.
abbrev pub capital_digit : ℕ → ℕ
capital_digit d = if ltb d 10 then b'0' + d else b'A' + (d - 10)

-- `"%04X"` of a `uint16_t`
unfoldable pub hex_word : ℕ → Bytes
hex_word n =
    capital_digit (n / 4096 % 16)
    ∷ capital_digit (n / 256 % 16)
    ∷ capital_digit (n / 16 % 16)
    ∷ capital_digit (n % 16)
    ∷ []

-- `"Boot%04X"`
unfoldable pub entry_name : ℕ → Bytes
unfolding hex_word
entry_name number = codes "Boot" ++ hex_word number

-- The path of an entry fits PATH_MAX.
unfoldable pub boot_entry_path : ℕ → Bytes
unfolding entry_name
boot_entry_path number =
    codes "/sys/firmware/efi/efivars/"
    ++ (entry_name number ++ codes "-8be4df61-93ca-11d2-aa0d-00e098032b8c")

abbrev pub accepted : Bool × BootEntry → Option BootEntry
accepted (true, entry) = some entry
accepted (false, entry) = none

-- The outer `none` is a read outside the variable, the inner one the answer `false`.
unfoldable pub read_boot_entry : Host → ℕ → Option (Option BootEntry)
unfolding boot_entry_path
read_boot_entry host number = elim (read_file_binary_ex host (boot_entry_path number) 4096) [
  | none ↦ some none
  | some (buf, truncated) ↦
      if truncated
      then some none
      else (do answer ← parse_efi_boot_entry buf number; some (accepted answer))
]

-- The separator in front of an item.
abbrev pub separator : Bytes → Bytes
separator [] = []
separator (c ∷ s) = b' ' ∷ []

-- The list with the item behind it; `none` where it does not fit.
unfoldable pub append_entry_id : Bytes → ℕ → ℕ → Option Bytes
unfolding entry_name
append_entry_id list list_size id =
    let item = separator list ++ entry_name id in
    if leb 16 (length item)
    then none
    else if leb list_size (length list + length item)
    then none
    else some (list ++ item)

abbrev pub boot_desc_display_max : ℕ
boot_desc_display_max = 40

abbrev pub printable_or_mark : ℕ → ℕ
printable_or_mark c = if leb 0x20 c && leb c 0x7E then c else b'?'

unfoldable pub display_description : Bytes → ℕ → Bytes
display_description src out_size =
    let limit = out_size - 1 in
    let out = map printable_or_mark (take limit src) in
    if ltb limit (length src) && leb 3 limit then take (limit - 3) out ++ codes "..." else out

-- The description in quotes, behind a space.
abbrev pub quoted : Bytes → Bytes
quoted [] = []
quoted (c ∷ s) = codes " \"" ++ (c ∷ s ++ b'"' ∷ [])

unfoldable pub append_unclassified_entry : Bytes → ℕ → ℕ → Bytes → Option Bytes
unfolding display_description entry_name
append_unclassified_entry list list_size id description =
    let desc = display_description description boot_desc_display_max in
    let item = separator list ++ (entry_name id ++ quoted desc) in
    if leb (24 + boot_desc_display_max) (length item)
    then none
    else if leb list_size (length list + length item)
    then none
    else some (list ++ item)

-- The buffer holds the text up to `pos`.
unfoldable pub append_text : ℕ → Bytes → Bytes → Bytes
append_text size text out = if leb size (length out) then out else fit size (out ++ text)

unfoldable pub compose_blocked_detail : ℕ → Bytes → Bytes → Bytes
compose_blocked_detail size blocked medium =
    let detail = blocked ++ (codes "; " ++ (medium ++ codes " presence unconfirmed")) in
    if leb size (length detail)
    then fit size
        (codes "boot order not fully inspected; " ++ (medium ++ codes " presence unconfirmed"))
    else detail

-- Entries of one kind: is there one, those that are listed, and are these all?
pub record Listing : Type 0 where
  pub found : Bool
  pub entries : Bytes
  pub all_listed : Bool

abbrev pub no_entries : Listing
no_entries = record { found = false; entries = []; all_listed = true }

-- The clause on the entries of one kind.
unfoldable pub append_listing : ℕ → Bytes → Listing → Bytes → Bytes
unfolding append_text
append_listing size title listing out = elim (listing.entries) [
  | [] ↦ out
  | c ∷ s ↦
      (let listed = append_text size (c ∷ s) (append_text size title out) in
        if listing.all_listed then listed else append_text size (codes " and more") listed)
]

unfoldable pub describe_incomplete_order : ℕ → Listing → Listing → Bool → Bytes
unfolding append_listing append_text
describe_incomplete_order size unreadable unclassified capped =
    let start = append_text size (codes "boot order not fully inspected") [] in
    let first = append_listing size (codes "; unreadable: ") unreadable start in
    let second = append_listing size (codes "; unclassified: ") unclassified first in
    if capped then append_text size (codes "; list shortened at 32 entries") second else second
