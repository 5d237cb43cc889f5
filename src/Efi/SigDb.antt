-- ===== src/Efi/SigDb.antt =====
-- `bythos_count_efi_sigdb_lists`: the signature lists of `db` and `dbx`.
pub mod Count
use bythos.Base.{
  ℕ, zero, suc, ◌+◌, ◌-◌, ◌%◌, Bool, true, false, not, ◌||◌, Option, none, some, Bytes, length,
  drop, ltb, leb, ◌==◌, if◌then◌else◌, ◌>>=◌,
}
use bythos.Efi.Reads.{read_le32}

-- The tests on the list at `p`; the inner `none` is `return 0`, and a list that passes gives its size.
unfoldable pub sigdb_list : Bytes → ℕ → Option (Option ℕ)
sigdb_list p remaining = if ltb remaining 28 then some none else (do
  list_size ← read_le32 p 16
  header_size ← read_le32 p 20
  signature_size ← read_le32 p 24
  let body_size = list_size - 28
  let payload_size = body_size - header_size
  some (
      if ltb list_size 28 || ltb remaining list_size
      then none
      else if ltb body_size header_size
      then none
      else if leb signature_size 16
          || ltb payload_size signature_size
          || not (payload_size % signature_size == 0)
      then none
      else some list_size))

-- The loop.
unfoldable pub sigdb_loop : ℕ → Bytes → ℕ → ℕ → Option ℕ
sigdb_loop zero p remaining count = none
sigdb_loop (suc fuel) p remaining count = if remaining == 0 then some count else (do
  list ← sigdb_list p remaining
  elim list [
    | none ↦ some 0
    | some list_size ↦ sigdb_loop fuel (drop list_size p) (remaining - list_size) (count + 1)
  ])

unfoldable pub count_efi_sigdb_lists : Bytes → Option ℕ
count_efi_sigdb_lists buf =
    if leb (length buf) 4
    then some 0
    else sigdb_loop (suc (length buf - 4)) (drop 4 buf) (length buf - 4) 0
