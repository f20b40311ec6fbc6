-- ===== src/Gdb/Server/Break.antt =====
-- gdb-server.c: the code breakpoints, comparators of the FPB unit.
pub mod Agrees
pub mod Runs
pub mod Halves
pub mod Stops
pub mod Stale
use libstlink.Prelude.{
  ℕ, zero, suc, ◌+◌, ◌*◌, ◌/◌, ◌%◌, ◌^◌, ◌&&◌, ◌||◌, Bool, true, false, not, Option, none, some,
  List, [], ◌∷◌, ℤ, pos, success, failure, bit_and, bit_or, get_or, set, take, ltb, ◌==◌,
  if◌then◌else◌,
}
use libstlink.Word.{shl32, shr32, clear, is_set}
use libstlink.Registers.Debug
use libstlink.Stlink.{Stlink, M, pure, ◌>>=◌, ◌>>◌}
use libstlink.Stlink.ReadWrite.{stlink_read_debug32, stlink_write_debug32}

abbrev pub code_break_num_max : ℕ
code_break_num_max = 15

abbrev pub code_break_low : ℕ
code_break_low = 0x01

abbrev pub code_break_high : ℕ
code_break_high = 0x02

abbrev pub code_break_remap : ℕ
code_break_remap = 0x04

abbrev pub code_break_rev_v1 : ℕ
code_break_rev_v1 = 0x00

pub record Break : Type 0 where
  pub addr : ℕ
  pub type : ℕ

abbrev pub no_break : Break
no_break = record { addr = 0; type = 0 }

-- The static variables: the counts and the revision read from FP_CTRL, and the table.
pub record Breaks : Type 0 where
  pub code_break_num : ℕ
  pub code_lit_num : ℕ
  pub code_break_rev : ℕ
  pub code_breaks : List Break

-- The loop over the comparators from i on, of which `left` are cleared.
unfoldable pub clear_breaks : ℕ → ℕ → List Break → M (List Break)
unfolding stlink_write_debug32
clear_breaks zero i bs = pure bs
clear_breaks (suc left) i [] = pure []
clear_breaks (suc left) i (b ∷ bs) = do
  stlink_write_debug32 (Debug.fp_comp i) 0
  rest ← clear_breaks left (suc i) bs
  pure (record b { type = 0 } ∷ rest)

-- The M7 can have the FPB registers locked.
open_fpb : ℕ → M (Unit {0})
unfolding stlink_write_debug32
open_fpb val =
    if bit_and (shr32 val 4) 0xfff == 0xc27
    then (do stlink_write_debug32 Debug.fp_lar Debug.fp_lar_key; pure tt)
    else pure tt

-- memset(sl->q_buf, 0, 4)
abbrev pub clear_four : List ℕ → List ℕ
clear_four q_buf = set (set (set (set q_buf 0 0) 1 0) 2 0) 3 0

abbrev pub clear_q_buf : M (Unit {0})
clear_q_buf sl = some (tt, record sl { q_buf = clear_four sl.q_buf })

unfoldable pub init_code_breakpoints : List Break → M Breaks
unfolding stlink_read_debug32 stlink_write_debug32 open_fpb clear_breaks
init_code_breakpoints code_breaks = do
  clear_q_buf
  stlink_write_debug32 Debug.fp_ctrl 0x03
  (ret₁, val) ← stlink_read_debug32 Debug.fp_ctrl
  let num = bit_and (shr32 val 4) 0xf
  (ret₂, id) ← stlink_read_debug32 Debug.cpuid
  open_fpb id
  breaks ← clear_breaks num 0 code_breaks
  pure (record {
    code_break_num = num;
    code_lit_num = bit_and (shr32 val 8) 0xf;
    code_break_rev = bit_and (shr32 val 28) 0xf;
    code_breaks = breaks;
  })

unfoldable pub any_at : ℕ → List Break → Bool
any_at addr [] = false
any_at addr (b ∷ bs) = let rest = any_at addr bs in if b.addr == addr then true else rest

unfoldable pub has_breakpoint : Breaks → ℕ → ℤ
unfolding any_at
has_breakpoint s addr = if any_at addr (take s.code_break_num s.code_breaks) then pos 1 else pos 0

-- The bit of the half word in the comparator, and the address it compares with.
unfoldable pub break_type : ℕ → ℕ → ℕ
break_type rev addr =
    if rev == code_break_rev_v1
    then (if is_set (bit_and addr 0x2) then code_break_high else code_break_low)
    else code_break_remap

unfoldable pub fpb_addr : ℕ → ℕ → ℕ
fpb_addr rev addr = if rev == code_break_rev_v1 then bit_and addr 0x1ffffffc else addr

-- The first comparator at the address or, to set, the first that is at the address or free.
unfoldable pub find_break : Bool → ℕ → ℕ → List Break → Option ℕ
find_break to_set addr i [] = none
find_break to_set addr i (b ∷ bs) =
    let rest = find_break to_set addr (suc i) bs in
    if (addr == b.addr) || (to_set && (b.type == 0)) then some i else rest

-- The value of a comparator register.
unfoldable pub comp_value : Break → ℕ
comp_value b = if b.type == 0 then 0 else bit_or (bit_or (shl32 (bit_and b.type 0x03) 30) b.addr) 1

unfoldable pub changed : Bool → ℕ → ℕ → Break → Break
changed to_set addr type b = record {
  addr = addr;
  type = if to_set then bit_or b.type type else clear b.type type;
}

unfoldable pub write_break : Breaks → Bool → ℕ → ℕ → Option ℕ → M (ℤ × Breaks)
unfolding changed comp_value stlink_write_debug32
write_break s to_set addr type none = pure (if to_set then failure else success, s)
write_break s to_set addr type (some id) = do
  let bp = changed to_set addr type (get_or s.code_breaks id no_break)
  stlink_write_debug32 (Debug.fp_comp id) (comp_value bp)
  pure (success, record s { code_breaks = set s.code_breaks id bp })

unfoldable pub update_code_breakpoint : Breaks → ℕ → Bool → M (ℤ × Breaks)
unfolding break_type fpb_addr find_break write_break
update_code_breakpoint s addr to_set =
    if is_set (bit_and addr 1)
    then pure (failure, s)
    else (let target = fpb_addr s.code_break_rev addr in
        write_break s to_set target (break_type s.code_break_rev addr)
          (find_break to_set target 0 (take s.code_break_num s.code_breaks)))
