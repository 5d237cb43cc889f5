-- ===== src/Storage.antt =====
-- The parsers of src/storage_parsers.c and src/esp_parsers.c: block devices, LUKS headers, and the
-- names and checksums on the EFI system partition.
pub mod Pcrs
pub mod Counts
pub mod Names
use bythos.Base.{
  ℕ, zero, suc, ◌+◌, ◌-◌, min, Bool, true, false, not, ◌&&◌, ◌||◌, Option, none, some, List, [],
  ◌∷◌, Bytes, codes, length, take, drop, ltb, leb, ◌==◌, if◌then◌else◌, is_blank, drop_while,
  strstr, contains, lines, to_lower, within,
}

pub record LsblkPosture : Type 0 where
  pub luks_count : ℕ
  pub crypt_count : ℕ
  pub crypt_swap_count : ℕ

abbrev pub add_if : Bool → ℕ → ℕ
add_if b n = if b then n + 1 else n

-- One line, cut off at the buffer of 512 bytes.
unfoldable pub add_device : Bytes → LsblkPosture → LsblkPosture
add_device raw posture =
    let line = take 511 raw in
    let is_luks = contains line (codes "FSTYPE=\"crypto_LUKS\"") in
    let is_crypt = contains line (codes "TYPE=\"crypt\"") in
    let is_swap = contains line (codes "FSTYPE=\"swap\"") in
    record {
      luks_count = add_if is_luks posture.luks_count;
      crypt_count = add_if is_crypt posture.crypt_count;
      crypt_swap_count = add_if (is_crypt && is_swap) posture.crypt_swap_count;
    }

unfoldable pub add_devices : List Bytes → LsblkPosture → LsblkPosture
add_devices [] posture = posture
add_devices (l ∷ ls) posture = add_devices ls (add_device l posture)

unfoldable pub parse_lsblk_posture : Bytes → LsblkPosture
unfolding add_devices lines
parse_lsblk_posture text =
    add_devices (lines text) (record { luks_count = 0; crypt_count = 0; crypt_swap_count = 0 })

unfoldable pub parse_luks_version : Bytes → ℕ
parse_luks_version text = elim (strstr text (codes "Version:")) [
  | none ↦ 0
  | some key ↦ elim (drop_while is_blank (drop 8 key)) [
    | [] ↦ 0
    | c ∷ s ↦ if c == b'1' then 1 else if c == b'2' then 2 else 0
  ]
]

unfoldable pub parse_luks_integrity : Bytes → Bool
parse_luks_integrity text = contains text (codes "integrity:")

unfoldable pub name_lower_eq : Bytes → Bytes → Bool
name_lower_eq [] [] = true
name_lower_eq (x ∷ xs) (y ∷ ys) = if to_lower x == to_lower y then name_lower_eq xs ys else false
name_lower_eq _ _ = false

unfoldable pub known_vendors : List Bytes
known_vendors =
    codes "boot"
    ∷ codes "microsoft"
    ∷ codes "ubuntu"
    ∷ codes "debian"
    ∷ codes "fedora"
    ∷ codes "arch"
    ∷ codes "manjaro"
    ∷ codes "gentoo"
    ∷ codes "systemd"
    ∷ codes "opensuse"
    ∷ codes "suse"
    ∷ codes "void"
    ∷ codes "centos"
    ∷ codes "redhat"
    ∷ codes "rocky"
    ∷ codes "alma"
    ∷ codes "almalinux"
    ∷ codes "linuxmint"
    ∷ codes "pop"
    ∷ codes "elementary"
    ∷ codes "nixos"
    ∷ codes "steamos"
    ∷ codes "garuda"
    ∷ codes "endeavouros"
    ∷ codes "artix"
    ∷ codes "cachyos"
    ∷ codes "dell"
    ∷ codes "hp"
    ∷ codes "lenovo"
    ∷ codes "refind"
    ∷ codes "tools"
    ∷ codes "grub"
    ∷ codes "kali"
    ∷ codes "qubes"
    ∷ codes "alpine"
    ∷ []

unfoldable pub is_among : Bytes → List Bytes → Bool
is_among name [] = false
is_among name (k ∷ known) = if name_lower_eq name k then true else is_among name known

unfoldable pub esp_is_known_vendor : Bytes → Bool
unfolding is_among known_vendors
esp_is_known_vendor name = is_among name known_vendors

abbrev pub is_hex_digit : ℕ → Bool
is_hex_digit c = within b'0' b'9' c || within b'a' b'f' c || within b'A' b'F' c

-- Behind at most `n` digits in base sixteen: how many are missing, and the rest.
unfoldable pub skip_hex : ℕ → Bytes → ℕ × Bytes
skip_hex zero p = (0, p)
skip_hex (suc n) [] = (suc n, [])
skip_hex (suc n) (c ∷ s) = if is_hex_digit c then skip_hex n s else (suc n, c ∷ s)

unfoldable pub parse_sha256sum_line : Bytes → ℕ → Option Bytes
unfolding skip_hex
parse_sha256sum_line line size =
    if size == 0
    then none
    else (let (missing, p) = skip_hex 64 line in
        if not (missing == 0) then none else elim p [
          | [] ↦ none
          | c ∷ s ↦ if is_blank c then some (take (min 64 (size - 1)) line) else none
        ])
