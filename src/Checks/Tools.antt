-- ===== src/Checks/Tools.antt =====
-- What the checks share: the macro of include/checks_internal.h, and the vendor of the processor.
use bythos.Base.{◌++◌, ◌-◌, length, ◌∷◌, ℕ, some, [], Bytes, codes, if◌then◌else◌, leb}
use bythos.Posture.Types.{
  check_warn, CheckResult, Results, skip_tool_absent, make_result, make_skip_actionable, emit_all,
}
use bythos.Runtime.Host.{Host}
use bythos.Runtime.Files.{read_file_text}
use bythos.Runtime.Processes.{command_untrusted}
use bythos.Silicon.Cpu.{CpuVendor, cpu_vendor}

unfoldable pub emit_skip_tool_or_untrusted : Host → Bytes → Bytes → Bytes → CheckResult
unfolding make_result make_skip_actionable
emit_skip_tool_or_untrusted host name binary tool =
    if command_untrusted host binary
    then make_result name check_warn
        (some (binary ++ codes " on PATH is not root-owned; refusing to run it as root"))
    else make_skip_actionable name skip_tool_absent (some (codes "requires " ++ tool))

unfoldable pub host_vendor : Host → CpuVendor
unfolding cpu_vendor
host_vendor host = cpu_vendor (read_file_text host (codes "/proc/cpuinfo") 4096)

-- A check that emits these results, and does so only with room for one.
unfoldable pub emit_guarded : ℕ → Results → Results
unfolding emit_all
emit_guarded max_results todo = if leb max_results 0 then [] else emit_all max_results todo []

-- A part behind what has been written, with the room that is left.
abbrev pub behind_written : ℕ → Results → (ℕ → Results) → Results
behind_written max_results written part = written ++ part (max_results - length written)

-- One row behind what has been written.
abbrev pub with_row : ℕ → CheckResult → Results → Results
with_row max_results row written =
    behind_written max_results written (λ (room : ℕ). emit_guarded room (row ∷ []))
