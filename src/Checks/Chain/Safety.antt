-- ===== src/Checks/Chain/Safety.antt =====
-- Where the scan of /boot finds nothing, everything under it that it is to look at is root's alone.
use Prim.Native.Nat.{bit_and}
use bythos.Base.{
  ℕ, zero, suc, ◌+◌, ◌≡◌, ◌≢◌, refl, sym, ap, ◌∙◌, Bool, true, false, not, ◌&&◌, Option, none, some,
  List, [], ◌∷◌, arith, Bytes, ◌==◌, Bool-cases, Option-cases, inl, inr,
}
use mathlib.Core.List.{Memᴰ}
use bythos.Runtime.Host.{Host, Stat, FileKind, kind_regular, kind_directory, kind_link, kind_other}
use bythos.Runtime.Files.{join_path}
use bythos.Checks.Platform.{is_hidden}
use bythos.Checks.Chain.Permissions.{
  BootScan, note_boot_file_owner, scan_link, is_regular, scan_entry_at, scan_name, scan_names,
  too_deep, scan_boot_dir,
}

-- A file that root owns and no one else can write.
abbrev pub IsRoots : Stat → Type 0
IsRoots st = (st.uid ≡ 0) × (bit_and st.mode 18 ≡ 0)

-- Nothing has been found, and no directory was left out.
abbrev pub is_clean : BootScan → Bool
is_clean scan = not scan.any_warn && not scan.depth_exceeded

note_clean :
    (name : Bytes) (st : Stat) (scan : BootScan)
    → is_clean (note_boot_file_owner name st scan) ≡ true
    → (is_clean scan ≡ true) × IsRoots st
unfolding note_boot_file_owner
note_clean name st scan h = ground arith

link_clean :
    (device : ℕ) (name : Bytes) (target : Option Stat) (scan : BootScan)
    → is_clean (scan_link device name target scan) ≡ true
    → is_clean scan ≡ true
unfolding scan_link
link_clean device name none scan h = h
link_clean device name (some target) scan h =
    elim (Bool-cases (is_regular target.kind && target.device == device)) [
      | inl judged ↦ (note_clean name target scan (rw (judged, scan_link) at h)).0
      | inr other ↦ rw (other, scan_link) at h
    ]

abbrev Keeps : (Bytes → BootScan → BootScan) → Type 0
Keeps descend =
    (path : Bytes) (scan : BootScan) → is_clean (descend path scan) ≡ true → is_clean scan ≡ true

module _ (host : Host) (device : ℕ) (descend : Bytes → BootScan → BootScan) where
  entry_clean :
      (name path : Bytes) (st : Stat) (kind : FileKind) (scan : BootScan)
      → Keeps descend
      → st.kind ≡ kind
      → is_clean (scan_entry_at host device descend name path st scan) ≡ true
      → is_clean scan ≡ true
  unfolding scan_entry_at
  entry_clean name path st kind_regular scan keeps e h = elim (Bool-cases (st.device == device)) [
    | inl same ↦
        (note_clean name st (record scan { count = scan.count + 1 })
          (rw (e, same, scan_entry_at) at h)).0
    | inr other ↦ rw (e, other, scan_entry_at) at h
  ]
  entry_clean name path st kind_link scan keeps e h =
      link_clean device name (host.stat path) scan (rw (e, scan_entry_at) at h)
  entry_clean name path st kind_directory scan keeps e h = elim (Bool-cases (st.device == device)) [
    | inl same ↦ keeps path scan (rw (e, same, scan_entry_at) at h)
    | inr other ↦ rw (e, other, scan_entry_at) at h
  ]
  entry_clean name path st kind_other scan keeps e h = rw (e, scan_entry_at) at h

  name_clean :
      (dir name : Bytes) (scan : BootScan)
      → Keeps descend
      → is_clean (scan_name host device descend dir name scan) ≡ true
      → is_clean scan ≡ true
  unfolding scan_name
  name_clean dir name scan keeps h = elim (Bool-cases (is_hidden name)) [
    | inl hidden ↦ rw (hidden, scan_name) at h
    | inr seen ↦ elim (Option-cases (join_path dir name)) [
      | inl long ↦ rw (seen, long, scan_name) at h
      | inr (path, p) ↦ elim (Option-cases (host.lstat path)) [
        | inl gone ↦ rw (seen, p, gone, scan_name) at h
        | inr (st, s) ↦
            entry_clean name path st st.kind scan keeps refl (rw (seen, p, s, scan_name) at h)
      ]
    ]
  ]

  names_clean :
      (dir : Bytes) (names : List Bytes) (scan : BootScan)
      → Keeps descend
      → is_clean (scan_names host device descend dir names scan) ≡ true
      → is_clean scan ≡ true
  unfolding scan_names
  names_clean dir [] scan keeps h = h
  names_clean dir (name ∷ names) scan keeps h =
      name_clean dir name scan keeps (names_clean dir names _ keeps h)

  -- Every name of the directory is scanned from a point on where all was well, and all is well
  -- behind it.
  member_clean :
      (dir : Bytes) (names : List Bytes) (scan : BootScan) (name : Bytes)
      → Keeps descend
      → Memᴰ name names
      → is_clean (scan_names host device descend dir names scan) ≡ true
      → (before : BootScan) × (is_clean (scan_name host device descend dir name before) ≡ true)
  unfolding scan_names
  member_clean dir [] scan name keeps member h = elim member [ ]
  member_clean dir (x ∷ xs) scan name keeps (Memᴰ.head e) h = (
    scan,
    ap (λ (n : Bytes). is_clean (scan_name host device descend dir n scan)) e
        ∙ names_clean dir xs (scan_name host device descend dir x scan) keeps h,
  )
  member_clean dir (x ∷ xs) scan name keeps (Memᴰ.tail member) h =
      member_clean dir xs (scan_name host device descend dir x scan) name keeps member h

not_too_deep : (path : Bytes) (scan : BootScan) → is_clean (too_deep path scan) ≢ true
not_too_deep path scan h = ground arith

too_deep-Keeps : Keeps too_deep
too_deep-Keeps path scan h = ground arith

scan_boot_dir-Keeps :
    (host : Host) (device max_depth : ℕ) → Keeps (scan_boot_dir host device max_depth)
unfolding scan_boot_dir
scan_boot_dir-Keeps host device zero dir scan h = elim (Option-cases (host.listing dir)) [
  | inl closed ↦ rw (closed, scan_boot_dir) at h
  | inr (names, e) ↦
      names_clean host device too_deep dir names scan too_deep-Keeps (rw (e, scan_boot_dir) at h)
]
scan_boot_dir-Keeps host device (suc max_depth) dir scan h =
    elim (Option-cases (host.listing dir)) [
      | inl closed ↦ rw (closed, scan_boot_dir) at h
      | inr (names, e) ↦
          names_clean host device (scan_boot_dir host device max_depth) dir names scan
            (scan_boot_dir-Keeps host device max_depth) (rw (e, scan_boot_dir) at h)
    ]

-- An entry of a directory that can be listed, whose name does not begin with a dot and whose path
-- fits, with what `lstat` says of it.
pub record HasEntry (host : Host) (dir path : Bytes) (st : Stat) : Type 0 where
  pub names : List Bytes
  pub name : Bytes
  pub listed : host.listing dir ≡ some names
  pub member : Memᴰ name names
  pub visible : is_hidden name ≡ false
  pub joined : join_path dir name ≡ some path
  pub exists : host.lstat path ≡ some st

-- A regular file of the device somewhere under a directory, or one that a link there leads to,
-- through directories of the device that can be listed and names that do not begin with a dot,
-- however deep.
pub data IsUnder (host : Host) (device : ℕ) : Bytes → Stat → Type 0 where
  file_in :
      {dir path : Bytes} {st : Stat}
      → HasEntry host dir path st
      → st.kind ≡ kind_regular
      → st.device ≡ device
      → IsUnder host device dir st
  linked_in :
      {dir path : Bytes} {st target : Stat}
      → HasEntry host dir path st
      → st.kind ≡ kind_link
      → host.stat path ≡ some target
      → is_regular target.kind ≡ true
      → target.device ≡ device
      → IsUnder host device dir target
  below :
      {dir path : Bytes} {st file : Stat}
      → HasEntry host dir path st
      → st.kind ≡ kind_directory
      → st.device ≡ device
      → IsUnder host device path file
      → IsUnder host device dir file

-- What is done with a directory, by the depth that is left.
abbrev descend_at : Host → ℕ → ℕ → Bytes → BootScan → BootScan
descend_at host device zero = too_deep
descend_at host device (suc max_depth) = scan_boot_dir host device max_depth

descend_at-Keeps : (host : Host) (device depth : ℕ) → Keeps (descend_at host device depth)
descend_at-Keeps host device zero = too_deep-Keeps
descend_at-Keeps host device (suc max_depth) = scan_boot_dir-Keeps host device max_depth

opened_dir :
    (host : Host) (device depth : ℕ) (dir : Bytes) (names : List Bytes) (scan : BootScan)
    → host.listing dir ≡ some names
    → scan_boot_dir host device depth dir scan
      ≡ scan_names host device (descend_at host device depth) dir names scan
unfolding scan_boot_dir
opened_dir host device zero dir names scan e = rw (e, scan_boot_dir) refl
opened_dir host device (suc max_depth) dir names scan e = rw (e, scan_boot_dir) refl

scanned :
    (host : Host) (device : ℕ) (descend : Bytes → BootScan → BootScan) (dir path : Bytes)
    (st : Stat) (entry : HasEntry host dir path st) (scan : BootScan)
    → scan_name host device descend dir entry.name scan
      ≡ scan_entry_at host device descend entry.name path st scan
unfolding scan_name
scanned host device descend dir path st entry scan =
    rw (entry.visible, entry.joined, entry.exists) refl

-- The entry is looked at, and all is well behind it.
entry_scanned :
    (host : Host) (device depth : ℕ) (dir path : Bytes) (st : Stat) (scan : BootScan)
    (entry : HasEntry host dir path st)
    → is_clean (scan_boot_dir host device depth dir scan) ≡ true
    → (before : BootScan) × (is_clean
          (scan_entry_at host device (descend_at host device depth) entry.name path st before)
        ≡ true)
entry_scanned host device depth dir path st scan entry h =
    let opened = opened_dir host device depth dir entry.names scan entry.listed in
    let (before, clean) =
      member_clean host device (descend_at host device depth) dir entry.names scan entry.name
        (descend_at-Keeps host device depth) entry.member (sym (ap is_clean opened) ∙ h) in
    (
      before,
      sym (
            ap is_clean
              (scanned host device (descend_at host device depth) dir path st entry before))
          ∙ clean,
    )

-- Where the scan of a directory warns of nothing and leaves no directory out as too deep, root owns
-- every regular file that it gets at under it, and neither its group nor others can write it.
pub scan_boot_dir-IsRoots :
    (host : Host) (device max_depth : ℕ) (dir : Bytes) (scan : BootScan) (file : Stat)
    → is_clean (scan_boot_dir host device max_depth dir scan) ≡ true
    → IsUnder host device dir file
    → IsRoots file
unfolding scan_entry_at scan_link
scan_boot_dir-IsRoots host device depth dir scan file h (file_in {path = path} entry kind same) =
    let (before, clean) = entry_scanned host device depth dir path file scan entry h in
    let here : (file.device == device) ≡ true = ground arith in
    (note_clean entry.name file (record before { count = before.count + 1 })
      (rw (kind, here, scan_entry_at) at clean)).1
scan_boot_dir-IsRoots host device depth dir scan file h
      (linked_in {path = path} {st = st} entry kind leads regular same) =
    let (before, clean) = entry_scanned host device depth dir path st scan entry h in
    let here : (file.device == device) ≡ true = ground arith in
    (note_clean entry.name file before
      (rw (kind, leads, regular, here, scan_entry_at, scan_link) at clean)).1
scan_boot_dir-IsRoots host device zero dir scan file h
      (below {path = path} {st = st} entry kind same inner) =
    let (before, clean) = entry_scanned host device zero dir path st scan entry h in
    let here : (st.device == device) ≡ true = ground arith in
    absurd (not_too_deep path before (rw (kind, here, scan_entry_at) at clean))
scan_boot_dir-IsRoots host device (suc depth) dir scan file h
      (below {path = path} {st = st} entry kind same inner) =
    let (before, clean) = entry_scanned host device (suc depth) dir path st scan entry h in
    let here : (st.device == device) ≡ true = ground arith in
    scan_boot_dir-IsRoots host device depth path before file
      (rw (kind, here, scan_entry_at) at clean) inner
