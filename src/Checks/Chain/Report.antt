-- ===== src/Checks/Chain/Report.antt =====
-- The check of src/check_boot_chain.c as a whole: it reads nothing outside its buffers.
use bythos.Runtime.Host.{Host}
