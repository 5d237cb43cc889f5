-- ===== src/Checks/Secureboot/Report.antt =====
-- The check of src/check_secureboot.c as a whole: it reads nothing outside the variables.
use bythos.Runtime.Host.{Host}
