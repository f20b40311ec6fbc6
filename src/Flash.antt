-- ===== src/Flash.antt =====
-- .deprecated/src/stlink-lib/common_flash.c: the driver of the on-chip flash controllers.
pub mod Control
pub mod Status
pub mod Unlock
pub mod OptionLock
pub mod CrBits
pub mod ErasePage
pub mod Range
pub mod EraseSection
pub mod Verify
pub mod Trim
pub mod LockState
