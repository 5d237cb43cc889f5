-- ===== src/Efi/Order.antt =====
-- `bythos_parse_efi_boot_order`, `bythos_parse_efi_boot_next` and `bythos_parse_efi_bool_var`.
pub mod RoundTrip
use bythos.Base.{
  ℕ, zero, suc, ◌+◌, ◌-◌, ◌*◌, ◌/◌, Bool, true, false, not, Option, none, some, List, [], ◌∷◌,
  Bytes, length, drop, get_elem?, ltb, ◌==◌, if◌then◌else◌, ◌>>=◌, min,
}
use bythos.Efi.Reads.{read_le16}

abbrev pub boot_max_entries : ℕ
boot_max_entries = 32

pub record BootOrder : Type 0 where
  pub order : List ℕ
  pub order_count : ℕ
  pub truncated : Bool

abbrev pub empty_order : BootOrder
empty_order = record { order = []; order_count = 0; truncated = false }

-- The loop that fills `order->order`, with `count` rounds left from index `i` on.
unfoldable pub read_numbers : ℕ → Bytes → ℕ → Option (List ℕ)
read_numbers zero payload i = some []
read_numbers (suc count) payload i = do
  number ← read_le16 payload (i * 2)
  rest ← read_numbers count payload (i + 1)
  some (number ∷ rest)

-- The C function's answer and the order that it leaves behind.
unfoldable pub parse_efi_boot_order : Bytes → Option (Bool × BootOrder)
unfolding read_numbers
parse_efi_boot_order buf = if ltb (length buf) 6 then some (false, empty_order) else (do
  let payload = drop 4 buf
  let listed = (length buf - 4) / 2
  let over = ltb boot_max_entries listed
  let count = if over then boot_max_entries else listed
  order ← read_numbers count payload 0
  some (true, record { order = order; order_count = count; truncated = over }))

-- The inner `none` is the answer `false`.
unfoldable pub parse_efi_boot_next : Bytes → Option (Option ℕ)
parse_efi_boot_next buf =
    if ltb (length buf) 6 then some none else do number ← read_le16 buf 4; some (some number)

unfoldable pub parse_efi_bool_var : Bytes → Option (Option Bool)
parse_efi_bool_var buf =
    if not (length buf == 5)
    then some none
    else (do payload ← get_elem? buf 4; some (if ltb 1 payload then none else some (payload == 1)))
