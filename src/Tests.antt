-- ===== src/Tests.antt =====
-- Runs of the model on concrete inputs, module by module.
mod Packets
mod Device
mod Sectors
mod Flash
mod Options
mod Writing
mod Server
mod Hex
mod Decoder
