-- ===== src/Stlink/ReadWrite/Checks.antt =====
-- read_write.c: what the argument checks of the wrappers let through to the backend.
use libstlink.Prelude.{ℕ, ◌%◌, ◌≡◌, ◌≢◌, ◌⊎◌, some, ◌∷◌, failure, arith}
use libstlink.Stlink.Types.{Call, Stlink}
use libstlink.Stlink.ReadWrite.{stlink_read_mem32}

-- A read of the memory reaches the backend only with a length that is a multiple of 4; else the
-- result is -1, and the context is as it was.
pub stlink_read_mem32_aligned :
    (sl : Stlink) (addr len : ℕ)
    → ((len % 4 ≡ 0)
        × (stlink_read_mem32 addr len sl
            ≡ some (
              (sl.backend.read_mem32 sl.history addr len).0,
              record sl {
                q_buf = (sl.backend.read_mem32 sl.history addr len).1;
                history = Call.read_mem32 addr len ∷ sl.history;
              },
            )))
      ⊎ ((len % 4 ≢ 0) × (stlink_read_mem32 addr len sl ≡ some (failure, sl)))
unfolding stlink_read_mem32
stlink_read_mem32_aligned sl addr len = ground arith
