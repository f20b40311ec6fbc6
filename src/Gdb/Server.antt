-- ===== src/Gdb/Server.antt =====
-- .deprecated/src/st-util/gdb-server.c. The static variables of the file are arguments and results of
-- the functions that use them.
pub mod Watch
pub mod Break
pub mod Load
pub mod Cache
