-- ===== src/Tlio.antt =====
-- tlio: writers, readers and closers that stand between the logger and its files.
pub mod Ring
pub mod Writers
pub mod ReReader
