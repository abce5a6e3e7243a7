-- ===== src/FileLogic.antt =====
-- The file logic layer, system/file_logic.c, which hides chunks behind positions in a file.
pub mod Index
pub mod Read
pub mod Append
pub mod Delete
pub mod RoundTrip
