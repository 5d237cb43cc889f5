-- ===== src/Tests/Checks.antt =====
-- The checks of registers on a host that is made up.
use bythos.Base.{
  ◌≡◌, ◌↔◌, refl, true, some, none, Option, if◌then◌else◌, [], ◌∷◌, arith, Bytes, codes, equal,
}
use bythos.Runtime.Host.{Host, opened, no_entry, exited, Process}
use bythos.Tests.World.{root_file}
use bythos.Checks.Registers.{check_bios_cntl, check_dci}
use bythos.Checks.Registers.Verdicts.{Passes, IsProtected, check_bios_cntl-IsProtected}
use bythos.Checks.Registers.Debug.{Fails, IsDebuggable, check_dci-IsDebuggable}

abbrev no_program : Process
no_program = record { started = true; chunks = []; timed_out = true; wait = exited 127 }

-- Every file is there and can be opened, every read of a register gives these bytes, and only the
-- description of the processor has a text.
abbrev intel_host : Bytes → Host
intel_host bytes = record {
  stat = λ path. some root_file;
  lstat = λ path. some root_file;
  can_execute = λ path. true;
  file = λ path.
      if equal path (codes "/proc/cpuinfo")
      then some (codes "vendor_id\t: GenuineIntel\n")
      else none;
  listing = λ path. none;
  listing_error = λ path. no_entry;
  open_read = λ path. opened;
  pread = λ path offset size. bytes;
  get_flags = λ path. none;
  process = λ argv. no_program;
}

abbrev locked : Host
locked = intel_host (0x22 ∷ [])

abbrev debuggable : Host
debuggable = intel_host (1 ∷ 0 ∷ 0 ∷ 0 ∷ 0 ∷ 0 ∷ 0 ∷ 0 ∷ [])

check_bios_cntl-IsProtected_example : Passes (check_bios_cntl locked 1) ↔ IsProtected locked
check_bios_cntl-IsProtected_example = check_bios_cntl-IsProtected locked 1 (omega arith)

check_dci-IsDebuggable_example : Fails (check_dci debuggable 1) ↔ IsDebuggable debuggable
check_dci-IsDebuggable_example = check_dci-IsDebuggable debuggable 1 (omega arith)

locked_register : Passes (check_bios_cntl locked 1)
unfolding check_bios_cntl codes bythos.Checks.Tools.host_vendor bythos.Runtime.Files.read_file_text
    bythos.Silicon.Cpu.cpu_vendor bythos.Silicon.Cpu.find_vendor bythos.Runtime.Files.file_exists
    bythos.Base.lines bythos.Base.take_while bythos.Base.is_eol bythos.Base.starts_with
    bythos.Silicon.Cpu.vendor_of bythos.Base.strchr bythos.Base.drop_while bythos.Base.is_blank
    bythos.Checks.Registers.bios_cntl_config_path bythos.Base.equal
locked_register = refl
