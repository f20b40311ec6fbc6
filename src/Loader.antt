-- ===== src/Loader.antt =====
-- .deprecated/src/stlink-lib/flash_loader.c: the programs that run in the memory of the chip and write its
-- flash, and the writes that need none. The loaders themselves are code of the target.
pub mod Buffer
pub mod Choice
pub mod Run
pub mod HalfPages
pub mod Start
pub mod Words
pub mod Chunks
pub mod Write
pub mod Stop
pub use Buffer.*
