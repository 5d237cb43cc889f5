-- ===== src/Checks.antt =====
-- The checks of src/check_*.c, over the world around the program (Runtime.Host). A check is a
-- function from the room that it is given to the results that it writes.
pub mod Tools
pub mod Room
pub mod Registers
pub mod Iommu
pub mod Platform
pub mod MeVersion
pub mod Tpm
pub mod Ownership
pub mod Secureboot
pub mod Boot
pub mod Chain
pub mod Luks
pub mod Esp
pub mod Fwupd
