-- ===== src/Scan.antt =====
-- The scanner (crates/core/src/scan): checksums, object scripts and file names.
pub mod Checksum
pub mod Names
pub mod Objects
