-- ===== src/Efi/DevicePath.antt =====
-- `utf16le_to_ascii`, `classify_device_path` and `dp_extract_filepath`: the walk over the nodes of
-- an EFI device path.
pub mod Bounds
use bythos.Base.{
  ℕ, zero, suc, ◌+◌, ◌-◌, ◌≡◌, refl, Bool, true, false, ◌&&◌, ◌||◌, Option, none, some, List, [],
  ◌∷◌, ◌++◌, Bytes, length, take, drop, get_elem?, ltb, leb, ◌==◌, if◌then◌else◌, ◌>>=◌,
}
use bythos.Efi.Reads.{read_le16}

pub data BootType : Type 0 where
  type_unknown type_disk type_cd type_usb type_network : BootType

-- The loop of `utf16le_to_ascii` from byte `si` on; `room` is what is left of the destination
-- before its NUL.
unfoldable pub utf16_loop : ℕ → Bytes → ℕ → ℕ → Option Bytes
unfolding read_le16
utf16_loop zero src src_bytes si = some []
utf16_loop (suc room) src src_bytes si =
    if ltb (si + 1) src_bytes
    then (do
      code ← read_le16 src si
      if code == 0 then some [] else (do
        rest ← utf16_loop room src src_bytes (si + 2)
        some ((if ltb code 128 then code else b'?') ∷ rest)))
    else some []

unfoldable pub utf16le_to_ascii : Bytes → ℕ → ℕ → Option Bytes
unfolding utf16_loop
utf16le_to_ascii src src_bytes dst_size = utf16_loop (dst_size - 1) src src_bytes 0

-- The two switches on a BBS device type and on a node's type and subtype; `none` goes on.
abbrev classify_bbs : ℕ → Option BootType
classify_bbs bbs_type =
    if bbs_type == 0x02
    then some type_disk
    else if bbs_type == 0x03
    then some type_cd
    else if bbs_type == 0x05 || bbs_type == 0x80
    then some type_usb
    else if bbs_type == 0x06
    then some type_network
    else none

abbrev classify_msg : ℕ → Option BootType
classify_msg subtype =
    if subtype == 0x05 || subtype == 0x0F || subtype == 0x10
    then some type_usb
    else if subtype == 0x0C
        || subtype == 0x0D
        || subtype == 0x09
        || subtype == 0x0B
        || subtype == 0x18
    then some type_network
    else none

abbrev classify_media : ℕ → Option BootType
classify_media subtype =
    if subtype == 0x01 || subtype == 0x04
    then some type_disk
    else if subtype == 0x02
    then some type_cd
    else none

abbrev classify_message_or_media : ℕ → ℕ → Option BootType
classify_message_or_media type subtype =
    if type == 0x03
    then classify_msg subtype
    else if type == 0x04
    then classify_media subtype
    else none

-- What the node at `offset` says, with its type and subtype; the outer `none` is a fault.
unfoldable pub classify_node : Bytes → ℕ → ℕ → ℕ → ℕ → Option (Option BootType)
unfolding read_le16
classify_node dp dp_len offset type subtype =
    if type == 0x05 && subtype == 0x01 && leb (offset + 6) dp_len
    then (do bbs_type ← read_le16 dp (offset + 4); some (classify_bbs bbs_type))
    else some (classify_message_or_media type subtype)

abbrev is_end_node : ℕ → ℕ → Bool
is_end_node type subtype = type == 0x7F && subtype == 0xFF

-- The loop of `classify_device_path` from `offset` on.
unfoldable pub classify_from : ℕ → Bytes → ℕ → ℕ → Option BootType
unfolding read_le16 classify_node
classify_from zero dp dp_len offset = none
classify_from (suc fuel) dp dp_len offset =
    if leb (offset + 4) dp_len
    then (do
      type ← get_elem? dp offset
      subtype ← get_elem? dp (offset + 1)
      node_len ← read_le16 dp (offset + 2)
      if ltb node_len 4 || is_end_node type subtype then some type_unknown else (do
        found ← classify_node dp dp_len offset type subtype
        elim found [
          | some boot_type ↦ some boot_type
          | none ↦ classify_from fuel dp dp_len (offset + node_len)
        ]))
    else some type_unknown

unfoldable pub classify_device_path : Bytes → ℕ → Option BootType
unfolding classify_from
classify_device_path dp dp_len = classify_from (suc dp_len) dp dp_len 0

-- The loop of `dp_extract_filepath`: `out` is what has been written, and `out_size` counts its NUL.
unfoldable pub filepath_from : ℕ → Bytes → ℕ → ℕ → ℕ → Bytes → Option Bytes
unfolding read_le16 utf16le_to_ascii
filepath_from zero dp dp_len out_size offset out = none
filepath_from (suc fuel) dp dp_len out_size offset out =
    if leb (offset + 4) dp_len
    then (do
      type ← get_elem? dp offset
      subtype ← get_elem? dp (offset + 1)
      node_len ← read_le16 dp (offset + 2)
      if ltb node_len 4 || ltb dp_len (offset + node_len) || is_end_node type subtype
          then some out
          else (if type == 0x04 && subtype == 0x04
              then (do
                seg ← utf16le_to_ascii (drop (offset + 4) dp) (node_len - 4) 256
                filepath_from fuel dp dp_len out_size (offset + node_len)
                    (out ++ take (out_size - 1 - length out) seg))
              else filepath_from fuel dp dp_len out_size (offset + node_len) out))
    else some out

unfoldable pub dp_extract_filepath : Bytes → ℕ → ℕ → Option Bytes
unfolding filepath_from
dp_extract_filepath dp dp_len out_size =
    if out_size == 0 then some [] else filepath_from (suc dp_len) dp dp_len out_size 0 []
