-- ===== src/Efi.antt =====
-- src/efi_boot_parsers.c: EFI variables read from efivarfs, each with its four attribute bytes.
-- `none` is a read outside the buffer, or a loop that ran out of fuel; the children prove that
-- neither happens.
pub mod Reads
pub mod DevicePath
pub mod Entry
pub mod Order
pub mod SigDb
