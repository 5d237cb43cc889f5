-- ===== src/Storage/Counts.antt =====
-- The counts of block devices, against the lines of the listing.
use bythos.Base.{
  ℕ, ◌+◌, ◌≤◌, ◌≡◌, Bool, ◌&&◌, List, [], ◌∷◌, arith, Bytes, codes, take, contains, if◌then◌else◌,
  lines,
}
use bythos.Storage.{LsblkPosture, add_device, add_devices, parse_lsblk_posture}

-- How many items pass a test.
abbrev pub count : (Bytes → Bool) → List Bytes → ℕ
count p [] = 0
count p (l ∷ ls) = (if p l then 1 else 0) + count p ls

abbrev pub is_luks_line : Bytes → Bool
is_luks_line l = contains (take 511 l) (codes "FSTYPE=\"crypto_LUKS\"")

abbrev pub is_crypt_line : Bytes → Bool
is_crypt_line l = contains (take 511 l) (codes "TYPE=\"crypt\"")

abbrev pub is_crypt_swap_line : Bytes → Bool
is_crypt_swap_line l = is_crypt_line l && contains (take 511 l) (codes "FSTYPE=\"swap\"")

add_devices-count :
    (ls : List Bytes) (p : LsblkPosture)
    → ((add_devices ls p).luks_count ≡ p.luks_count + count is_luks_line ls)
      × ((add_devices ls p).crypt_count ≡ p.crypt_count + count is_crypt_line ls)
      × ((add_devices ls p).crypt_swap_count ≡ p.crypt_swap_count + count is_crypt_swap_line ls)
unfolding add_devices add_device
add_devices-count [] p = (omega arith, omega arith, omega arith)
add_devices-count (l ∷ ls) p = ground (arith, add_devices-count ls (add_device l p))

count-le : (p q : Bytes → Bool) (ls : List Bytes) → count (λ l. p l && q l) ls ≤ count p ls
count-le p q [] = omega arith
count-le p q (l ∷ ls) = ground (arith, count-le p q ls)

-- The three counts are those of the lines whose first 511 bytes have the marks of a LUKS device, of
-- an open one, and of an open one with swap.
pub parse_lsblk_posture-count :
    (text : Bytes)
    → parse_lsblk_posture text ≡ record {
      luks_count = count is_luks_line (lines text);
      crypt_count = count is_crypt_line (lines text);
      crypt_swap_count = count is_crypt_swap_line (lines text);
    }
unfolding parse_lsblk_posture
parse_lsblk_posture-count text =
    let start : LsblkPosture = record { luks_count = 0; crypt_count = 0; crypt_swap_count = 0 } in
    ground (arith, add_devices-count (lines text) start)
