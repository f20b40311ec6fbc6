-- ===== src/Lib.antt =====
-- Verification library of the stlink tools: the C library and tools under .deprecated/.
--
-- A host program holds a context (struct _stlink) whose backend sends commands to a probe, which reads
-- and writes the memory and the registers of an STM32. The flash code drives the flash controller of
-- the chip through single words of its registers; the gdb server talks to gdb over a socket.
--
-- - Stlink: the context, the operations of its backend (.deprecated/inc/stlink.h), and in
--   Stlink/ReadWrite the functions of .deprecated/src/stlink-lib/read_write.c. The transports are not
--   modelled: a backend is any record of functions from the history of the calls made so far, so what
--   it answers may depend on all that it was asked. A function of the C code is a step on the context;
--   it carries the C name, and a call of the backend adds itself to the history.
-- - Registers: the addresses, bits and keys of .deprecated/inc/stm32_flash.h and stm32.h that the code
--   uses, one module for each prefix of the names (STM32_FLASH_F4_CR is Registers.F4.cr).
-- - Calculate: .deprecated/src/stlink-lib/calculate.c and stlink_calculate_pagesize of common_legacy.c.
-- - Flash: .deprecated/src/stlink-lib/common_flash.c. Control, Status and CrBits read and write the
--   registers of every flash type, Unlock and OptionLock open and close the locks, ErasePage and
--   EraseSection erase, Range checks addresses, Verify compares the flash with data (with check_file of
--   map_file.c), Trim is the length that stlink_mwrite_flash and stlink_fwrite_flash write. LockState
--   is the specification of the lock of a controller.
-- - Gdb/Remote: .deprecated/src/st-util/gdb-remote.c over a socket that is the bytes to come, the
--   bytes sent and the number of writes that it takes; a byte written behind the end of the buffer is
--   the result none. Strto is the strtoul that it uses.
-- - Gdb/Server: of .deprecated/src/st-util/gdb-server.c, Watch the data watchpoints, Break the code
--   breakpoints, Load the blocks that gdb fills for the flash, and Cache the caches of the M7. The
--   static variables are arguments and results. Stlink/Registers says what the writes made so far
--   have left in a register, which is how the tables are compared with the comparators of the chip.
-- - Target: of .deprecated/src/stlink-lib/common_legacy.c, the core: its watchdogs, its state, the runs,
--   the resets (Target/Reset), the exit of the debug mode (Target/Leave), and the ids of the
--   core and the chip (Target/Identify).
-- - Loader: .deprecated/src/stlink-lib/flash_loader.c. Choice picks the loader for the chip and places it
--   in its memory, Start and Stop prepare and leave the programming, Run hands the loader a block and
--   waits for the core, HalfPages, Words and Chunks are the loops of stlink_flashloader_write, and
--   Write is that function. Registers/Loaders has the code of the loaders as bytes.
-- - WriteFlash: of .deprecated/src/stlink-lib/common_flash.c, stlink_write_flash and stlink_write_otp, the
--   writes of buffers and files, with the checks, the erase and the comparison.
-- - WriteRam: of common_legacy.c, the writes of buffers and files to the RAM of the chip.
-- - Options: .deprecated/src/stlink-lib/option_bytes.c. Read has the reads, Small the writes of one or two
--   registers, Loops the writes of runs of words, Fpec those of the F0, F1 and F3 by the loader, and
--   Write the entry points, between the unlocking and the locking.
-- - Stlink/Image says what the writes made so far have left at an address, and Stlink/Returns which
--   steps return whatever the backend answers.
-- - Ihex: the Intel HEX files of .deprecated/src/stlink-lib/common_legacy.c, the writer
--   (stlink_fread_ihex_*) over fprintf and fclose as parameters, and stlink_parse_ihex over the
--   characters of a file.
-- - Trace: the decoder of .deprecated/src/st-trace/trace.c, a state machine over the bytes of the trace
--   stream with what it prints as a field.
-- - Word has the operations on uint32_t, on natural numbers with the wrap-around written out, and
--   Prelude what all files share. Tests runs the model.
--
-- A ladder of tests on the flash type is a function by clauses on the type. A loop that polls the
-- chip, or steps over pages, takes fuel, and none is the result when it runs out: a wait needs one
-- more than the polls that find the controller busy, the alignment check one more than the pages that
-- start below the address, and the verification one more than the bytes. The receive loop of gdb
-- ends with its input. The mask of a watchpoint takes a round for each binary digit of the length and
-- two more, so 33 are enough below 2^31, and ceil_log2 has 33 as well. The loops of a write take a
-- round for each chunk, row or word and one more, so one more than the bytes is enough where a round
-- writes at least one. The waits of 500 ms take as many polls as the backend says fit in. Results of
-- type int32_t are pos n and negsuc n, for -(n + 1). Log output and pauses are left out.
--
-- A local struct that the source leaves unassigned is an argument (flash_loader_t) or a field of the context
-- (struct stlink_reg). What a transport itself keeps in q_buf between two calls is not modelled, nor what
-- the code of a loader does on the target.
--
-- Not modelled: the parameters of the chip and the connection, the command lines, the commands of
-- the gdb server, the transports (usb.c, sg_legacy.c, remote.c), MD5, the graphical program, and the C++
-- library under libstlink/.
pub mod Prelude
pub mod Word
pub mod Registers
pub mod Stlink
pub mod Calculate
pub mod Flash
pub mod Strto
pub mod Target
pub mod Loader
pub mod WriteFlash
pub mod WriteRam
pub mod Options
pub mod Gdb
pub mod Ihex
pub mod Trace
mod Tests
