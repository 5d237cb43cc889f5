-- ===== src/Runtime/Host.antt =====
-- The world around the program, as the calls of the kernel show it. It stays as it is during a run.
use bythos.Base.{ℕ, Bool, Option, List, Bytes}

pub data FileKind : Type 0 where
  kind_regular : FileKind
  kind_directory : FileKind
  kind_link : FileKind
  kind_other : FileKind

-- `struct stat`: the owner, the permission bits, the kind, the device and the inode.
pub record Stat : Type 0 where
  pub uid : ℕ
  pub mode : ℕ
  pub kind : FileKind
  pub device : ℕ
  pub inode : ℕ

-- What `open(path, O_RDONLY)` answers.
pub data Opened : Type 0 where
  opened : Opened
  access_denied : Opened
  open_failed : Opened

-- Why a directory cannot be opened.
pub data DirError : Type 0 where
  no_entry : DirError
  no_access : DirError
  other_error : DirError

-- What `waitpid` says of a program.
pub data Wait : Type 0 where
  exited : ℕ → Wait
  not_exited : Wait

-- A program that is run: did `pipe` and `fork` succeed, what each `read` of its output gave, whether
-- the alarm fired before the output ended, and how it ended.
pub record Process : Type 0 where
  pub started : Bool
  pub chunks : List Bytes
  pub timed_out : Bool
  pub wait : Wait

-- `stat`, `lstat`, `access` with X_OK, the bytes of a file that can be opened and read, the names in
-- a directory and why it cannot be opened, `open`, `pread`, the flags that `ioctl` gives of an open file, and programs.
pub record Host : Type 0 where
  pub stat : Bytes → Option Stat
  pub lstat : Bytes → Option Stat
  pub can_execute : Bytes → Bool
  pub file : Bytes → Option Bytes
  pub listing : Bytes → Option (List Bytes)
  pub listing_error : Bytes → DirError
  pub open_read : Bytes → Opened
  pub pread : Bytes → ℕ → ℕ → Bytes
  pub get_flags : Bytes → Option ℕ
  pub process : List Bytes → Process
