-- ===== src/Json.antt =====
-- src/output.c: the JSON text of the report, and the names that it and the plain text show.
pub mod Utf8
pub mod Print
