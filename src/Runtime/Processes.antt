-- ===== src/Runtime/Processes.antt =====
-- Programs that are run in src/runtime.c: where they are found, what is kept of their output, and
-- the state of a service.
pub mod Capture
pub mod Trust
use Prim.Native.Nat.{bit_and}
use bythos.Base.{
  ℕ, zero, suc, ◌+◌, ◌-◌, Bool, true, false, not, ◌&&◌, ◌||◌, Option, none, some, List, [], ◌∷◌,
  ◌++◌, Bytes, codes, length, take, ltb, leb, ◌==◌, if◌then◌else◌, equal, trim,
}
use bythos.Runtime.Host.{Host, Stat, Process, Wait, exited, not_exited}
use bythos.Runtime.Files.{c_string, join_path}

-- The directories of BYTHOS_DEFAULT_PATH.
unfoldable pub trusted_path : List Bytes
trusted_path =
    codes "/usr/local/sbin"
    ∷ codes "/usr/local/bin"
    ∷ codes "/usr/sbin"
    ∷ codes "/usr/bin"
    ∷ codes "/sbin"
    ∷ codes "/bin"
    ∷ []

pub data PathMatch : Type 0 where
  path_match_none : PathMatch
  path_match_trusted : PathMatch
  path_match_untrusted : PathMatch

-- Owned by root, and written by neither its group nor others: 0022 is 18.
unfoldable pub is_trusted : Option Stat → Bool
is_trusted none = false
is_trusted (some st) = st.uid == 0 && bit_and st.mode 18 == 0

unfoldable pub resolve_in : Host → Bytes → List Bytes → PathMatch
unfolding is_trusted join_path
resolve_in host name [] = path_match_none
resolve_in host name (dir ∷ dirs) =
    let rest = resolve_in host name dirs in
    elim (join_path dir name) [
      | none ↦ rest
      | some candidate ↦
          if not (host.can_execute candidate)
          then rest
          else if is_trusted (host.stat candidate)
          then path_match_trusted
          else path_match_untrusted
    ]

unfoldable pub resolve_on_trusted_path : Host → Bytes → PathMatch
unfolding resolve_in trusted_path
resolve_on_trusted_path host name =
    if length name == 0 then path_match_none else resolve_in host name trusted_path

abbrev pub found_trusted : PathMatch → Bool
found_trusted path_match_none = false
found_trusted path_match_trusted = true
found_trusted path_match_untrusted = false

abbrev pub found_untrusted : PathMatch → Bool
found_untrusted path_match_none = false
found_untrusted path_match_trusted = false
found_untrusted path_match_untrusted = true

unfoldable pub command_exists : Host → Bytes → Bool
unfolding resolve_on_trusted_path
command_exists host name = found_trusted (resolve_on_trusted_path host name)

unfoldable pub command_untrusted : Host → Bytes → Bool
unfolding resolve_on_trusted_path
command_untrusted host name = found_untrusted (resolve_on_trusted_path host name)

-- The loop over the reads, with what is in the buffer.
unfoldable pub capture_from : ℕ → List Bytes → Bytes → Bool → Bytes × Bool
capture_from size [] text truncated = (text, truncated)
capture_from size (chunk ∷ chunks) text truncated = elim (ltb (length text + 1) size) [
  | true ↦
      (let remaining = size - length text - 1 in
        capture_from size chunks (text ++ take remaining chunk)
          (if ltb remaining (length chunk) then true else truncated))
  | false ↦ capture_from size chunks text true
]

-- `truncated` is told in any case; the exit status and the output are `none` where the C function
-- answers `false`.
pub record Captured : Type 0 where
  pub truncated : Bool
  pub answer : Option (ℕ × Bytes)

-- A program that has ended by itself is an answer, also where the alarm came first.
abbrev pub answer_of : Bool → Wait → Bytes → Option (ℕ × Bytes)
answer_of true (exited status) output = some (status, output)
answer_of true not_exited output = none
answer_of false (exited status) output = some (status, output)
answer_of false not_exited output = none

unfoldable pub capture_argv_status_ex : Host → List Bytes → ℕ → Captured
unfolding capture_from c_string
capture_argv_status_ex host argv size =
    let process = host.process argv in
    if size == 0 || not process.started
    then record { truncated = false; answer = none }
    else (let (text, truncated) = capture_from size process.chunks [] false in
        record {
          truncated = truncated;
          answer = answer_of process.timed_out process.wait (c_string text);
        })

unfoldable pub capture_argv_status : Host → List Bytes → ℕ → Option (ℕ × Bytes)
unfolding capture_argv_status_ex
capture_argv_status host argv size = (capture_argv_status_ex host argv size).answer

-- The output of a program that ended with status 0.
unfoldable pub capture_success : Host → List Bytes → ℕ → Option Bytes
unfolding capture_argv_status
capture_success host argv size = elim (capture_argv_status host argv size) [
  | none ↦ none
  | some (status, output) ↦ if status == 0 then some output else none
]

-- `none` is the answer -1.
unfoldable pub run_argv_quiet : Host → List Bytes → Option ℕ
unfolding capture_argv_status
run_argv_quiet host argv = elim (capture_argv_status host argv 256) [
  | none ↦ none
  | some (status, output) ↦ some status
]

pub data ServiceState : Type 0 where
  service_state_unknown : ServiceState
  service_state_systemctl_unavailable : ServiceState
  service_state_active : ServiceState
  service_state_inactive : ServiceState
  service_state_missing : ServiceState

-- What `systemctl show` says of a unit that is not active.
unfoldable pub load_state : Host → Bytes → ServiceState
unfolding capture_success
load_state host unit =
    let argv =
      codes "systemctl"
      ∷ codes "show"
      ∷ codes "-p"
      ∷ codes "LoadState"
      ∷ codes "--value"
      ∷ codes "--no-pager"
      ∷ unit
      ∷ [] in
    elim (capture_success host argv 64) [
      | none ↦ service_state_unknown
      | some output ↦
          if equal (trim output) (codes "not-found")
          then service_state_missing
          else service_state_inactive
    ]

unfoldable pub probe_systemd_service : Host → Bytes → ServiceState
unfolding command_exists run_argv_quiet load_state
probe_systemd_service host unit =
    let argv = codes "systemctl" ∷ codes "is-active" ∷ codes "--quiet" ∷ unit ∷ [] in
    if length unit == 0
    then service_state_unknown
    else if not (command_exists host (codes "systemctl"))
    then service_state_systemctl_unavailable
    else elim (run_argv_quiet host argv) [
      | none ↦ service_state_unknown
      | some active ↦ if active == 0 then service_state_active else load_state host unit
    ]
