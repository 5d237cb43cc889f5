-- ===== src/Firmware.antt =====
-- The parsers of src/firmware_parsers.c: files of the boot chain, and the reports of tools.
pub mod Pe
pub mod Sbat
pub mod Labels
pub mod Join
pub mod Hsi
pub mod Sbctl
