-- ===== src/Posture.antt =====
-- src/main.c, src/check_groups.c, include/types.h and the summaries of src/output.c: results,
-- their counts, the subgroups that hold them, and the exit code.
pub mod Types
pub mod Summary
pub mod Groups
pub mod Main
