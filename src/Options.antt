-- ===== src/Options.antt =====
-- .deprecated/src/stlink-lib/option_bytes.c: the option bytes of the chips, and the registers that control
-- them.
pub mod Read
pub mod Small
pub mod Fpec
pub mod Loops
pub mod Write
