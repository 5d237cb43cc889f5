-- ===== src/Runtime.antt =====
-- src/runtime.c: what the program asks of the kernel and of other programs.
pub mod Host
pub mod Files
pub mod Values
pub mod Mounts
pub mod Processes
