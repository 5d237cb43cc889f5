-- ===== src/Tests/World.antt =====
-- A world that is made up: some files, and programs that root owns and that print a text.
use bythos.Base.{true, false, Option, none, some, [], ◌∷◌, Bytes}
use bythos.Runtime.Host.{Host, Stat, kind_regular, opened, no_entry, exited, Process}

abbrev pub root_file : Stat
root_file = record { uid = 0; mode = 493; kind = kind_regular; device = 1; inode = 5 }

abbrev pub prints : Bytes → Process
prints text = record { started = true; chunks = text ∷ []; timed_out = false; wait = exited 0 }

-- Every path is there, the files have these bytes, and every program prints the text.
abbrev pub world : (Bytes → Option Bytes) → Bytes → Host
world file text = record {
  stat = λ path. some root_file;
  lstat = λ path. some root_file;
  can_execute = λ path. true;
  file = file;
  listing = λ path. none;
  listing_error = λ path. no_entry;
  open_read = λ path. opened;
  pread = λ path offset size. [];
  get_flags = λ path. some 0x10;
  process = λ argv. prints text;
}
