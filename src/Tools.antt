-- ===== src/Tools.antt =====
-- The package tools.
pub mod Gzip
pub mod Auth
pub mod Aes
pub mod Channel
pub mod Constants
pub mod File
pub mod Runes
pub mod Disk
pub mod Archive
