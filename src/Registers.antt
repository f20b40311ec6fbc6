-- ===== src/Registers.antt =====
-- Addresses, bit positions, keys and chip ids that the flash driver names; each child holds the
-- constants of one family of flash controllers, under the source's names without their prefix.
pub mod C0
pub mod C5
pub mod Chip
pub mod Debug
pub mod F4
pub mod F7
pub mod Fpec
pub mod Gx
pub mod H5
pub mod H7
pub mod L0
pub mod L4
pub mod L5
pub mod Loaders
pub mod Lx
pub mod Memory
pub mod Rcc
pub mod Wb
pub mod Wb0
