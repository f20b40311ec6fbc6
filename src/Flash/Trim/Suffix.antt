-- ===== src/Flash/Trim/Suffix.antt =====
-- common_flash.c: what the length of the erased end says of the bytes.
use libstlink.Stlink.{Stlink}
