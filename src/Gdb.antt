-- ===== src/Gdb.antt =====
-- .deprecated/src/st-util: the gdb server and its remote protocol.
pub mod Remote
pub mod Server
