-- ===== src/Loader/Run/Returns.antt =====
-- flash_loader.c: `stlink_flash_loader_run` returns, with 0 or -1.
use libstlink.Prelude.{
  ℕ, zero, suc, ◌≡◌, ◌⊎◌, inl, inr, refl, Bool, true, false, Option, none, some, List, ℤ, pos,
  success, failure, is_nonzero, if◌then◌else◌, bit_and, bit_or, ◌^◌, ◌-◌, ◌%◌, get_or, not, ◌&&◌,
  drop, ltb,
}
use libstlink.Word.{is_set, clear, add32}
use libstlink.Registers.Debug
use libstlink.Registers.Rcc
use libstlink.Stlink.{
  FlashType, unknown, c0, f0_f1_f3, f1_xl, f2_f4, f7, g0, g4, h7, l0_l1, l4, l5_u5, wb_wl, wb0, h5,
  c5, RunType, run_flash_loader, Stlink, pure, ◌>>=◌,
}
use libstlink.Stlink.Returns.{
  Returns, Any, pure-Returns, bind-Returns, then-Returns, get-Returns, if-Returns,
  stlink_read_debug32-Returns, stlink_write_debug32-Returns, stlink_write_mem32-Returns,
  stlink_write_mem8-Returns, stlink_read_reg-Returns, stlink_write_reg-Returns,
  stlink_read_all_regs-Returns,
}
use libstlink.Stlink.ReadWrite.{stlink_read_reg}
use libstlink.Target.{
  update_if_read, freeze_at, stop_wdg_of, stop_wdg_in_debug, backend_force_debug,
  stlink_force_debug, stlink_status, stlink_is_core_halted, backend_run, stlink_run, wdg_freeze,
}
use libstlink.Loader.Buffer.{
  FlashLoader, is_minus_one, copy_to_q_buf, write_rest, write_buffer_to_sram,
}
use libstlink.Loader.Run.{
  bank_offset, bad_count, padded_to, pad_modulo, wait_halted, report_error, reload_watchdog,
  start_core, stlink_flash_loader_run,
}

update_if_read-Returns : (reg : ℕ) (f : ℕ → ℕ) → Returns Any (update_if_read reg f)
unfolding update_if_read
update_if_read-Returns reg f = bind-Returns _ _ (stlink_read_debug32-Returns reg) (λ r.
    if-Returns (is_nonzero r.0) _ _ (pure-Returns tt tt)
      (then-Returns _ _ (stlink_write_debug32-Returns reg (f r.1)) (pure-Returns tt tt)))

freeze_at-Returns : (o : Option (ℕ × ℕ)) → Returns Any (freeze_at o)
unfolding freeze_at
freeze_at-Returns none = pure-Returns tt tt
freeze_at-Returns (some (reg, bits)) = update_if_read-Returns reg (λ value. bit_or value bits)

stop_wdg_of-Returns : (sl : Stlink) (t : FlashType) → Returns Any (stop_wdg_of sl t)
unfolding stop_wdg_of
stop_wdg_of-Returns sl unknown = freeze_at-Returns (wdg_freeze sl unknown)
stop_wdg_of-Returns sl c0 = freeze_at-Returns (wdg_freeze sl c0)
stop_wdg_of-Returns sl f0_f1_f3 = freeze_at-Returns (wdg_freeze sl f0_f1_f3)
stop_wdg_of-Returns sl f1_xl = freeze_at-Returns (wdg_freeze sl f1_xl)
stop_wdg_of-Returns sl f2_f4 = freeze_at-Returns (wdg_freeze sl f2_f4)
stop_wdg_of-Returns sl f7 = freeze_at-Returns (wdg_freeze sl f7)
stop_wdg_of-Returns sl g0 = freeze_at-Returns (wdg_freeze sl g0)
stop_wdg_of-Returns sl g4 = freeze_at-Returns (wdg_freeze sl g4)
stop_wdg_of-Returns sl h7 = freeze_at-Returns (wdg_freeze sl h7)
stop_wdg_of-Returns sl l0_l1 = freeze_at-Returns (wdg_freeze sl l0_l1)
stop_wdg_of-Returns sl l4 = freeze_at-Returns (wdg_freeze sl l4)
stop_wdg_of-Returns sl l5_u5 = freeze_at-Returns (wdg_freeze sl l5_u5)
stop_wdg_of-Returns sl wb_wl = freeze_at-Returns (wdg_freeze sl wb_wl)
stop_wdg_of-Returns sl wb0 =
    update_if_read-Returns Rcc.wb0_apb0enr (λ value. clear value Rcc.wb0_apb0_wdgen)
stop_wdg_of-Returns sl h5 = freeze_at-Returns (wdg_freeze sl h5)
stop_wdg_of-Returns sl c5 = freeze_at-Returns (wdg_freeze sl c5)

backend_force_debug-Returns : Returns Any backend_force_debug
unfolding backend_force_debug
backend_force_debug-Returns = record { run = λ sl. (_, _, refl, tt) }

stop_wdg_in_debug-Returns : Returns Any stop_wdg_in_debug
unfolding stop_wdg_in_debug
stop_wdg_in_debug-Returns = get-Returns _ (λ s. stop_wdg_of-Returns s s.flash_type)

stlink_force_debug-Returns : Returns Any stlink_force_debug
unfolding stlink_force_debug
stlink_force_debug-Returns = bind-Returns _ _ backend_force_debug-Returns (λ res.
    if-Returns (is_nonzero res) _ _ (pure-Returns res tt)
      (then-Returns _ _ stop_wdg_in_debug-Returns (pure-Returns success tt)))

stlink_is_core_halted-Returns : Returns Any stlink_is_core_halted
unfolding stlink_is_core_halted stlink_status
stlink_is_core_halted-Returns = record { run = λ sl. (_, _, refl, tt) }

backend_run-Returns : (type : RunType) → Returns Any (backend_run type)
unfolding backend_run
backend_run-Returns type = record { run = λ sl. (_, _, refl, tt) }

stlink_run-Returns : (type : RunType) → Returns Any (stlink_run type)
unfolding stlink_run
stlink_run-Returns type = get-Returns _ (λ s.
    bind-Returns _ _ (stlink_read_reg-Returns (pos 16) s.uninit_reg) (λ r.
      if-Returns (is_set (bit_and r.1.xpsr (2 ^ 24))) _ _ (backend_run-Returns type) (
        then-Returns _ _ (stlink_write_reg-Returns (bit_or r.1.xpsr (2 ^ 24)) (pos 16))
          (backend_run-Returns type))))

wait_halted-Returns : (polls : ℕ) → Returns Any (wait_halted polls)
unfolding wait_halted
wait_halted-Returns zero = pure-Returns false tt
wait_halted-Returns (suc polls) = bind-Returns _ _ stlink_is_core_halted-Returns (λ halted.
    elim halted
      as (λ b. Returns {A = Bool} Any (elim b [ true ↦ pure true | false ↦ wait_halted polls ])) [
        | true ↦ pure-Returns true tt
        | false ↦ wait_halted-Returns polls
      ])

-- What the loader's run may return.
abbrev pub ZeroOrMinusOne : ℤ → Type 0
ZeroOrMinusOne r = (r ≡ success) ⊎ (r ≡ failure)

report_error-Returns : Returns ZeroOrMinusOne report_error
unfolding report_error
report_error-Returns = then-Returns _ _ stlink_force_debug-Returns (
    then-Returns _ _ (stlink_read_debug32-Returns Debug.dhcsr) (
      then-Returns _ _ (stlink_read_debug32-Returns Debug.dfsr) (
        then-Returns _ _ (stlink_read_debug32-Returns Debug.cfsr) (
          then-Returns _ _ (stlink_read_debug32-Returns Debug.hfsr) (
            get-Returns _ (λ s.
              then-Returns _ _ (stlink_read_all_regs-Returns s.uninit_reg)
                (pure-Returns failure (inr refl))))))))

reload_watchdog-Returns : (fl : FlashLoader) → Returns Any (reload_watchdog fl)
unfolding reload_watchdog
reload_watchdog-Returns fl =
    if-Returns (is_set fl.iwdg_kr) _ _
      (then-Returns _ _ (stlink_write_debug32-Returns fl.iwdg_kr Rcc.f0_wdg_kr_key_reload)
        (pure-Returns tt tt))
      (pure-Returns tt tt)

read_count-Returns :
    (s : Stlink)
    → Returns ZeroOrMinusOne (do
      (ret, rr) ← stlink_read_reg (pos 2) s.uninit_reg
      if bad_count (get_or rr.r 2 0) then report_error else pure success)
read_count-Returns s = bind-Returns _ _ (stlink_read_reg-Returns (pos 2) s.uninit_reg) (λ r.
    if-Returns (bad_count (get_or r.1.r 2 0)) _ _ report_error-Returns
      (pure-Returns success (inl refl)))

start_core-Returns :
    (fl : FlashLoader) (target padded_size : ℕ)
    → Returns ZeroOrMinusOne (start_core fl target padded_size)
unfolding start_core
start_core-Returns fl target padded_size = get-Returns _ (λ s.
    then-Returns _ _ (stlink_write_reg-Returns fl.buf_addr (pos 0)) (
      then-Returns _ _ (stlink_write_reg-Returns target (pos 1)) (
        then-Returns _ _ (stlink_write_reg-Returns padded_size (pos 2)) (
          then-Returns _ _ (stlink_write_reg-Returns (bank_offset s.flash_type target) (pos 3)) (
            then-Returns _ _ (stlink_write_reg-Returns fl.loader_addr (pos 15)) (
              then-Returns _ _ (reload_watchdog-Returns fl) (
                then-Returns _ _ (stlink_run-Returns run_flash_loader) (
                  get-Returns _ (λ s'.
                    bind-Returns _ _ (wait_halted-Returns (s'.backend.polls_in_500ms s'.history))
                      (λ halted.
                        if-Returns halted _ _ (read_count-Returns s') report_error-Returns))))))))))

copy_to_q_buf-Returns : (n : ℕ) (src : List ℕ) (pad : ℕ) → Returns Any (copy_to_q_buf n src pad)
unfolding copy_to_q_buf
copy_to_q_buf-Returns n src pad = record { run = λ sl. (_, _, refl, tt) }

write_rest-Returns :
    (fl : FlashLoader) (buf : List ℕ) (w b n : ℕ) → Returns Any (write_rest fl buf w b n)
unfolding write_rest
write_rest-Returns fl buf w b n =
    let cnt = if ltb n b then n else b in
    then-Returns _ _ (copy_to_q_buf-Returns cnt (drop w buf) (b - cnt))
      (stlink_write_mem8-Returns (add32 fl.buf_addr w) b)

write_buffer_to_sram-Returns :
    (fl : FlashLoader) (buf : List ℕ) (size padded_size : ℕ)
    → Returns Any (write_buffer_to_sram fl buf size padded_size)
unfolding write_buffer_to_sram
write_buffer_to_sram-Returns fl buf size padded_size =
    let padded = if ltb padded_size size then size else padded_size in
    let w = clear padded 3 in
    let b = bit_and padded 3 in
    let n = if ltb size w then size else w in
    if-Returns (is_set w) _ _
      (then-Returns _ _ (copy_to_q_buf-Returns n buf (w - n)) (
        bind-Returns _ _ (stlink_write_mem32-Returns fl.buf_addr w) (λ ret.
          if-Returns (is_set b && not (is_nonzero ret)) _ _
            (write_rest-Returns fl buf w b (size - n)) (pure-Returns ret tt))))
      (if-Returns (is_set b) _ _ (write_rest-Returns fl buf w b size) (pure-Returns success tt))

-- The run of the loader returns in every context, whatever the probe answers, and with 0 or -1 alone:
-- its callers test for -1.
pub stlink_flash_loader_run-Returns :
    (fl : FlashLoader) (target : ℕ) (buf : List ℕ) (size : ℕ) (sl : Stlink)
    → (r : ℤ) × (sl' : Stlink) × (stlink_flash_loader_run fl target buf size sl ≡ some (r, sl'))
      × ((r ≡ success) ⊎ (r ≡ failure))
unfolding stlink_flash_loader_run
stlink_flash_loader_run-Returns fl target buf size =
    (get-Returns _ (λ s.
      let padded_size = padded_to (pad_modulo s.flash_type) size in
      bind-Returns _ _ (write_buffer_to_sram-Returns fl buf (size % 2 ^ 16) padded_size) (λ ret.
        if-Returns (is_minus_one ret) _ _ (pure-Returns failure (inr refl))
          (start_core-Returns fl target padded_size)))).run
