-- ===== src/Stlink.antt =====
-- struct _stlink and its backend (.deprecated/inc/stlink.h), and the monad of the functions that
-- work on it. The backend is the transport with the probe and the chip behind it. What it answers
-- may depend on all that it was asked before, so each of its operations is a function of the history
-- of the calls made so far, the last one first, and a call adds itself to that history.
mod Types
pub mod ReadWrite
pub mod Image
pub mod Registers
pub mod Returns
pub use Types.*
