-- ===== src/Checks/Ownership.antt =====
-- src/firmware_ownership.c: who owns the platform key, and which keys are enrolled.
use bythos.Base.{
  ℕ, Bool, true, false, not, ◌&&◌, Option, none, some, [], ◌∷◌, Bytes, codes, length, ltb, ◌==◌,
  if◌then◌else◌,
}
use bythos.Firmware.Labels.{extract_short_list_name, count_nonempty_lines}
use bythos.Firmware.Join.{join_short_list_names}
use bythos.Runtime.Host.{Host}
use bythos.Runtime.Processes.{command_exists, capture_success}

pub record MokOwnership : Type 0 where
  pub available : Bool
  pub owner_readable : Bool
  pub owner_parsed : Bool
  pub owner : Bytes
  pub enrollments_readable : Bool
  pub enrollment_count : ℕ
  pub enrolled_names : Bytes
  pub enrolled_names_parsed : Bool

abbrev pub no_ownership : MokOwnership
no_ownership = record {
  available = false;
  owner_readable = false;
  owner_parsed = false;
  owner = [];
  enrollments_readable = false;
  enrollment_count = 0;
  enrolled_names = [];
  enrolled_names_parsed = false;
}

abbrev pub text_or_nothing : Option Bytes → Bytes
text_or_nothing none = []
text_or_nothing (some text) = text

abbrev pub is_some : Option Bytes → Bool
is_some none = false
is_some (some text) = true

-- The part of the owner.
unfoldable pub with_owner : Option Bytes → MokOwnership → MokOwnership
with_owner none ownership = ownership
with_owner (some pk_buffer) ownership =
    let name = extract_short_list_name pk_buffer 128 in
    record ownership {
      owner_readable = true;
      owner_parsed = is_some name;
      owner = text_or_nothing name;
    }

-- The part of the enrolled keys.
unfoldable pub with_enrollments : Option Bytes → MokOwnership → MokOwnership
with_enrollments none ownership = ownership
with_enrollments (some mok_buffer) ownership =
    let (seen, names) = join_short_list_names mok_buffer 256 5 32 in
    record ownership {
      enrollments_readable = true;
      enrollment_count = count_nonempty_lines mok_buffer;
      enrolled_names = text_or_nothing names;
      enrolled_names_parsed = ltb 0 seen && not (length (text_or_nothing names) == 0);
    }

unfoldable pub probe_mok_ownership : Host → MokOwnership
unfolding with_owner with_enrollments
probe_mok_ownership host =
    if not (command_exists host (codes "mokutil"))
    then no_ownership
    else with_enrollments
        (capture_success host (codes "mokutil" ∷ codes "--list-enrolled" ∷ codes "--short" ∷ [])
          2048)
        (with_owner
          (capture_success host (codes "mokutil" ∷ codes "--pk" ∷ codes "--short" ∷ []) 1024)
          (record no_ownership { available = true }))
