-- ===== src/Ihex.antt =====
-- .deprecated/src/stlink-lib/common_legacy.c: files in the Intel HEX format, which the flash is
-- saved to and written from. A file is the list of its characters.
pub mod Writer
pub mod Parser
pub mod Digits
pub mod Records
pub mod Texts
pub mod Lines
pub mod Segments
pub mod Files
pub mod Effects
pub mod Runs
pub mod Saves
pub mod RoundTrip
