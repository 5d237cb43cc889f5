-- ===== src/Runtime/Mounts.antt =====
-- `bythos_find_mount_entry` of src/runtime.c: what is mounted at a directory.
use bythos.Base.{
  ℕ, zero, suc, Bool, true, not, ◌&&◌, ◌||◌, Option, none, some, [], ◌∷◌, Bytes, length, leb, ◌==◌,
  if◌then◌else◌, take_while, drop_while, is_blank, is_eol, equal,
}

abbrev pub not_blank : ℕ → Bool
not_blank c = not (is_blank c)

abbrev pub not_newline : ℕ → Bool
not_newline c = not (c == b'\n')

pub record MountEntry : Type 0 where
  pub point : Bytes
  pub fstype : Bytes
  pub opts : Bytes

-- Behind a field and the blanks that follow it.
abbrev pub next_field : Bytes → Bytes
next_field p = drop_while is_blank (drop_while not_blank p)

-- The second, third and fourth fields of a line.
unfoldable pub mount_fields : Bytes → MountEntry
mount_fields line =
    let p1 = next_field line in
    let p2 = next_field p1 in
    let p3 = next_field p2 in
    record {
      point = take_while not_blank p1;
      fstype = take_while not_blank p2;
      opts = take_while not_blank p3;
    }

-- The loop, with what has been found; the last line that fits counts.
unfoldable pub scan_mounts : ℕ → Bytes → Bytes → Option MountEntry → Option MountEntry
unfolding mount_fields
scan_mounts zero cursor mount_point found = found
scan_mounts (suc fuel) [] mount_point found = found
scan_mounts (suc fuel) (c ∷ s) mount_point found =
    let entry = mount_fields (take_while not_newline (c ∷ s)) in
    scan_mounts fuel (drop_while is_eol (drop_while not_newline (c ∷ s))) mount_point
      (if equal entry.point mount_point then some entry else found)

-- Does a field that is asked for stand there and fit? `none` is a NULL buffer.
abbrev pub field_fits : Option ℕ → Bytes → Bool
field_fits none field = true
field_fits (some size) field = not (length field == 0 || leb size (length field))

unfoldable pub find_mount_entry : Bytes → Bytes → Option ℕ → Option ℕ → Option MountEntry
unfolding scan_mounts
find_mount_entry mounts mount_point fstype_size opts_size =
    if length mount_point == 0
    then none
    else elim (scan_mounts (length mounts) mounts mount_point none) [
      | none ↦ none
      | some entry ↦
          if field_fits fstype_size entry.fstype && field_fits opts_size entry.opts
          then some entry
          else none
    ]
