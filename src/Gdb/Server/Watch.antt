-- ===== src/Gdb/Server/Watch.antt =====
-- gdb-server.c: the data watchpoints, four comparators of the DWT unit.
pub mod Mask
pub mod Agrees
pub mod Steps
pub mod Runs
use libstlink.Prelude.{
  ℕ, zero, suc, ◌+◌, ◌-◌, ◌/◌, ◌&&◌, Bool, true, false, not, Option, none, some, List, [], ◌∷◌, ℤ,
  pos, negsuc, success, failure, bit_or, get_or, set, ltb, ◌==◌, if◌then◌else◌,
}
use libstlink.Word.{add32, uint32_max, as_int32}
use libstlink.Registers.Debug
use libstlink.Stlink.{Stlink, M, pure, ◌>>=◌, ◌>>◌}
use libstlink.Stlink.ReadWrite.{stlink_read_debug32, stlink_write_debug32}

abbrev pub data_watch_num : ℕ
data_watch_num = 4

pub data WatchFun : Type 0 where
  disabled read write access : WatchFun

-- The values of the enumeration, which the function register takes.
abbrev pub fun_code : WatchFun → ℕ
fun_code disabled = 0
fun_code read = 5
fun_code write = 6
fun_code access = 7

abbrev pub is_disabled : WatchFun → Bool
is_disabled disabled = true
is_disabled _ = false

pub record Watch : Type 0 where
  pub addr : ℕ
  pub mask : ℕ
  pub fun : WatchFun

abbrev pub no_watch : Watch
no_watch = record { addr = 0; mask = 0; fun = disabled }

-- The loop over the comparators i, i + 1, … of the table.
unfoldable pub clear_watches : ℕ → List Watch → M (List Watch)
unfolding stlink_write_debug32
clear_watches i [] = pure []
clear_watches i (w ∷ ws) = do
  stlink_write_debug32 (Debug.dwt_fun i) 0
  rest ← clear_watches (suc i) ws
  pure (record w { fun = disabled } ∷ rest)

unfoldable pub init_data_watchpoints : List Watch → M (List Watch)
unfolding stlink_read_debug32 stlink_write_debug32 clear_watches
init_data_watchpoints data_watches = do
  (ret, val) ← stlink_read_debug32 Debug.demcr
  stlink_write_debug32 Debug.demcr (bit_or val Debug.demcr_trcena)
  clear_watches 0 data_watches

-- i >>= 1 on an int32_t, which keeps the sign.
abbrev pub halve : ℤ → ℤ
halve (pos n) = pos (n / 2)
halve (negsuc n) = negsuc (n / 2)

abbrev pub is_zero : ℤ → Bool
is_zero (pos zero) = true
is_zero _ = false

-- while(i) { i >>= 1; mask++; } with a bound on the rounds.
unfoldable pub mask_loop : ℕ → ℤ → ℕ → Option ℕ
mask_loop zero i mask = none
mask_loop (suc fuel) i mask =
    let rest = mask_loop fuel (halve i) (add32 mask 1) in if is_zero i then some mask else rest

unfoldable pub first_free : ℕ → List Watch → Option ℕ
first_free i [] = none
first_free i (w ∷ ws) =
    let rest = first_free (suc i) ws in if is_disabled w.fun then some i else rest

-- Fills the free comparator.
unfoldable pub insert_watch : WatchFun → ℕ → ℕ → List Watch → Option ℕ → M (ℤ × List Watch)
unfolding stlink_read_debug32 stlink_write_debug32
insert_watch wf addr mask watches none = pure (failure, watches)
insert_watch wf addr mask watches (some i) = do
  stlink_write_debug32 (Debug.dwt_comp i) addr
  stlink_write_debug32 (Debug.dwt_mask i) mask
  stlink_write_debug32 (Debug.dwt_fun i) (fun_code wf)
  stlink_read_debug32 (Debug.dwt_fun i)
  pure (success, set watches i (record { addr = addr; mask = mask; fun = wf }))

unfoldable pub insert_masked : WatchFun → ℕ → List Watch → Option ℕ → M (ℤ × List Watch)
unfolding insert_watch first_free
insert_masked wf addr watches none = λ sl. none
insert_masked wf addr watches (some mask) =
    if not (mask == uint32_max) && ltb mask 16
    then insert_watch wf addr mask watches (first_free 0 watches)
    else pure (failure, watches)

unfoldable pub add_data_watchpoint : ℕ → WatchFun → ℕ → ℕ → List Watch → M (ℤ × List Watch)
unfolding insert_masked mask_loop
add_data_watchpoint fuel wf addr len watches =
    insert_masked wf addr watches (mask_loop fuel (as_int32 len) uint32_max)

unfoldable pub find_watch : ℕ → ℕ → List Watch → Option ℕ
find_watch addr i [] = none
find_watch addr i (w ∷ ws) =
    let rest = find_watch addr (suc i) ws in
    if (w.addr == addr) && not (is_disabled w.fun) then some i else rest

unfoldable pub remove_watch : List Watch → Option ℕ → M (ℤ × List Watch)
unfolding stlink_write_debug32
remove_watch watches none = pure (failure, watches)
remove_watch watches (some i) = do
  stlink_write_debug32 (Debug.dwt_fun i) 0
  pure (success, set watches i (record (get_or watches i no_watch) { fun = disabled }))

unfoldable pub delete_data_watchpoint : ℕ → List Watch → M (ℤ × List Watch)
unfolding remove_watch find_watch
delete_data_watchpoint addr watches = remove_watch watches (find_watch addr 0 watches)
