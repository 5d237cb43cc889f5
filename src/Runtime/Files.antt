-- ===== src/Runtime/Files.antt =====
-- Files and directories in src/runtime.c.
use bythos.Base.{
  ℕ, zero, suc, ◌+◌, ◌-◌, Bool, true, false, not, ◌&&◌, ◌||◌, Option, none, some, List, [], ◌∷◌,
  ◌++◌, Bytes, codes, length, take, drop, ltb, leb, ◌==◌, if◌then◌else◌, take_while, starts_with,
  equal, is_alnum, fit,
}
use bythos.Runtime.Host.{Host, Stat, kind_directory}

abbrev pub path_max : ℕ
path_max = 4096

abbrev pub not_nul : ℕ → Bool
not_nul c = not (c == 0)

-- A buffer of bytes with a NUL behind them, as a C string.
unfoldable pub c_string : Bytes → Bytes
c_string s = take_while not_nul s

-- `"%s/%s"` in a buffer of PATH_MAX bytes; `none` where it does not fit.
unfoldable pub join_path : Bytes → Bytes → Option Bytes
join_path dir name =
    let path = dir ++ b'/' ∷ name in if leb path_max (length path) then none else some path

unfoldable pub file_exists : Host → Bytes → Bool
file_exists host path = elim (host.stat path) [ none ↦ false | some st ↦ true ]

-- The text, and whether the file has more.
unfoldable pub read_file_text_ex : Host → Bytes → ℕ → Option (Bytes × Bool)
unfolding c_string
read_file_text_ex host path size = if size == 0 then none else elim (host.file path) [
  | none ↦ none
  | some bytes ↦ some (c_string (take (size - 1) bytes), ltb (size - 1) (length bytes))
]

abbrev pub text_of : Option (Bytes × Bool) → Option Bytes
text_of none = none
text_of (some (text, truncated)) = some text

unfoldable pub read_file_text : Host → Bytes → ℕ → Option Bytes
unfolding read_file_text_ex
read_file_text host path size = text_of (read_file_text_ex host path size)

unfoldable pub read_file_binary_ex : Host → Bytes → ℕ → Option (Bytes × Bool)
read_file_binary_ex host path size = if size == 0 then none else elim (host.file path) [
  | none ↦ none
  | some bytes ↦ some (take size bytes, ltb size (length bytes))
]

unfoldable pub read_file_binary : Host → Bytes → ℕ → Option Bytes
unfolding read_file_binary_ex
read_file_binary host path size = text_of (read_file_binary_ex host path size)

-- `fgets` with room for `room` bytes in front of the NUL: the bytes read, and the rest of the file.
unfoldable pub fgets : ℕ → Bytes → Bytes × Bytes
fgets zero s = ([], s)
fgets (suc room) [] = ([], [])
fgets (suc room) (c ∷ s) =
    let (line, rest) = fgets room s in if c == b'\n' then (c ∷ [], s) else (c ∷ line, rest)

-- What the loop over `fgets` reads, as C strings.
unfoldable pub file_lines_from : ℕ → ℕ → Bytes → List Bytes
unfolding c_string
file_lines_from zero room s = []
file_lines_from (suc fuel) room [] = []
file_lines_from (suc fuel) room (c ∷ s) =
    let (line, rest) = fgets room (c ∷ s) in c_string line ∷ file_lines_from fuel room rest

-- Every round reads a byte or more, for a buffer of two bytes or more.
unfoldable pub file_lines : ℕ → Bytes → List Bytes
unfolding file_lines_from
file_lines size s = file_lines_from (length s) (size - 1) s

-- The prefix ends the line, or what follows it is no letter and no digit.
unfoldable pub has_prefix : Bytes → Bytes → Bool
has_prefix prefix line =
    starts_with prefix line
    && elim (drop (length prefix) line) [ [] ↦ true | c ∷ s ↦ not (is_alnum c) ]

unfoldable pub find_prefix : Bytes → List Bytes → Option Bytes
find_prefix prefix [] = none
find_prefix prefix (l ∷ ls) = if has_prefix prefix l then some l else find_prefix prefix ls

unfoldable pub first_line_with_prefix : Host → Bytes → Bytes → ℕ → Option Bytes
first_line_with_prefix host path prefix size = if size == 0 then none else elim (host.file path) [
  | none ↦ none
  | some bytes ↦ elim (find_prefix prefix (file_lines 4096 bytes)) [
    | none ↦ none
    | some line ↦ some (fit size line)
  ]
]

abbrev pub is_directory : Option Stat → Bool
is_directory none = false
is_directory (some st) = elim (st.kind) [ kind_directory ↦ true | _ ↦ false ]

-- Is the name a directory under `path`, and neither "." nor ".."?
unfoldable pub is_child_dir : Host → Bytes → Bytes → Bool
is_child_dir host path name =
    if equal name (codes ".") || equal name (codes "..")
    then false
    else elim (join_path path name) [
      | none ↦ false
      | some candidate ↦ is_directory (host.stat candidate)
    ]

unfoldable pub count_dirs : Host → Bytes → List Bytes → ℕ
unfolding is_child_dir
count_dirs host path [] = 0
count_dirs host path (name ∷ names) =
    (if is_child_dir host path name then 1 else 0) + count_dirs host path names

unfoldable pub count_child_dirs : Host → Bytes → Option ℕ
unfolding count_dirs
count_child_dirs host path = elim (host.listing path) [
  | none ↦ none
  | some names ↦ some (count_dirs host path names)
]

unfoldable pub esp_efi_base : Host → Bytes
unfolding file_exists
esp_efi_base host =
    if file_exists host (codes "/boot/efi/EFI")
    then codes "/boot/efi/EFI"
    else if file_exists host (codes "/efi/EFI")
    then codes "/efi/EFI"
    else if file_exists host (codes "/boot/EFI")
    then codes "/boot/EFI"
    else codes "/boot/efi/EFI"
