-- ===== src/Tests.antt =====
-- Runs of the definitions, and the theorems at concrete inputs.
mod Posture
mod Efi
mod Json
mod Firmware
mod Reports
mod Devices
mod Checks
mod World
mod Runtime
mod Boot
mod Chain
mod Luks
mod Esp
mod Fwupd
