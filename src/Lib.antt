-- ===== src/Lib.antt =====
-- A model of bythos, the read-only auditor of firmware trust posture, and proofs about it.
--
-- The program runs a fixed list of checks, in subgroups (src/check_groups.c). Each check reads files
-- and runs tools, hands what it got to a parser, and writes results (include/types.h). The results
-- of a subgroup stand in a table of 32 with a summary of counts, the summaries are merged, and the
-- report is printed as text or JSON (src/output.c). The exit code says whether a result is a failure
-- (src/main.c). Everything that a parser is given comes from outside, so that it has to be read to
-- its end and never past it, whatever it holds.
--
-- Base: the native numbers and lists under the library's names, the Boolean tests, the functions
--   of <string.h> and <ctype.h> that the source calls (Base/Text, in the C locale), reads that may
--   fault (Base/Fault), words of several bytes (Base/Words), and the scanners that many parsers are
--   written with (Base/Scan: the loop over lines, `bythos_trim`, pointers into a string).
-- Posture: results and the macros that emit them (Posture/Types: include/types.h), counts
--   (Posture/Summary: `bythos_summary_add`, `bythos_summary_state`, `bythos_summary_merge`), the
--   runner (Posture/Groups: `run_subgroups` with its two loops) and the program (Posture/Main:
--   `main` with its options, the merge and the exit code). A check is a function from the room that
--   it is given to the results that it writes.
-- Efi: src/efi_boot_parsers.c. Reads of little-endian words and UTF-16 (Efi/Reads), device paths
--   (Efi/DevicePath), boot entries (Efi/Entry), the boot order, BootNext and flags (Efi/Order), and
--   signature databases (Efi/SigDb).
-- Json: the printer of JSON strings in src/output.c, with `utf8_valid_len`.
-- Firmware: src/firmware_parsers.c. PE sections (Firmware/Pe), SBAT data and the comparison with
--   the revoked generations in src/check_boot_chain.c (Firmware/Sbat), short reports
--   (Firmware/Labels), lists of names (Firmware/Join), fwupd's JSON report (Firmware/Hsi and
--   Firmware/Hsi/Attribute) and the status of sbctl (Firmware/Sbctl).
-- Silicon: src/silicon_parsers.c. The kernel's command line (Silicon) and the readers of
--   /proc/cpuinfo and of PCR banks (Silicon/Cpu).
-- Storage: src/storage_parsers.c (Storage and Storage/Pcrs) and src/esp_parsers.c (Storage).
-- Runtime: src/runtime.c over the world around the program (Runtime/Host: what `stat`, `open`,
--   `read`, `ioctl`, a directory and a program that is run give, each a function of the path or of the
--   arguments). Files and directories (Runtime/Files), settings (Runtime/Values), mounts
--   (Runtime/Mounts), and programs with the trust in their path, what is kept of their output and the
--   state of a service (Runtime/Processes).
-- Checks: what src/check_*.c make of it. Registers (Checks/Registers: src/check_bios_cntl.c and
--   src/check_dci.c), the IOMMU, the encryption of the memory and Thunderbolt (Checks/Iommu), the
--   firmware interface, sbctl and the microcode (Checks/Platform), the management engine
--   (Checks/MeVersion), the TPM (Checks/Tpm), the owner of the keys (Checks/Ownership:
--   src/firmware_ownership.c), Secure Boot (Checks/Secureboot with its children) and the boot order
--   with the firmware's settings (Checks/Boot with its children: src/check_bios_boot.c) and the chain of
--   shim, grub and the files under /boot (Checks/Chain with its children: src/check_boot_chain.c),
--   the volumes of LUKS (Checks/Luks with its children: src/check_luks.c), the EFI system partition
--   (Checks/Esp with its children: src/check_esp_posture.c), and fwupd's services and report
--   (Checks/Fwupd with its children: src/check_fwupd.c). A check is its rows (`..._results`), of which
--   it writes the first that there is room for; that of fwupd hands on, from row to row, which
--   attributes it has reported.
-- Tests: runs of the definitions at concrete inputs.
--
-- A function of the model has the name of the C function without the prefix `bythos_`, and a helper
-- with no C function of its own says which part of one it is. A C string is the list of its bytes
-- before the NUL, and a counted buffer the list of its bytes. An output buffer is the text that is
-- left in it, cut off where the code cuts it; an answer `false` or NULL is `none`. In the binary
-- parsers and in the printer of JSON strings every read goes through `get_elem?`, and the outer
-- `none` is a read outside the buffer. In the parsers of texts a pointer is the text from there on,
-- so that no read past the NUL can be written down; that their loops stop there is the C code's test
-- for NUL, which the model has as the case of the empty text.
--
-- Loops run on fuel where the code moves on by a computed step: one more than the number of bytes
-- that are left, or as many where no byte is left at the end, which is enough because every step
-- moves on by at least one byte. In the binary parsers, the printer and the readers of JSON and SBAT
-- data, fuel that runs out is a result of its own (`none`).
--
-- Sums of bytes are written with `%` where C wraps around; `bit_or` and `bit_and` are the native
-- ones. `strtoul` saturates at 2 ^ 64 - 1, and a mask of PCRs is a number below 2 ^ 32. Counters of
-- type `size_t` count bytes, lines or records of a buffer and are numbers without a bound.
--
-- The world stays as it is while a check runs, so that a file that is read twice gives the same
-- bytes, and a program the same output; what a program writes is cut into the pieces that `read`
-- gives. An error while a directory is read ends its listing, as it ends the loop over it.
--
-- Not modelled: the tests for NULL arguments, which no caller passes; `fork`, `exec`, the alarm and
-- file descriptors, which the world stands for; the override of the path for tests, which the
-- released program is built without; the frame of the report around its strings; `getopt_long`, whose
-- answers are the input of `parse_options`.
pub mod Base
pub mod Posture
pub mod Efi
pub mod Json
pub mod Firmware
pub mod Silicon
pub mod Storage
pub mod Runtime
pub mod Checks
mod Tests
