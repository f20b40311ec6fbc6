-- ===== src/Flash/ErasePage/Unknown.antt =====
-- common_flash.c: the erase of a page on an unknown flash type.
use libstlink.Prelude.{ℕ, ◌≡◌, none}
use libstlink.Stlink.{Stlink, unknown, then_stops}
use libstlink.Flash.Status.{wait_flash_busy}
use libstlink.Flash.Status.Wait.{wait_flash_busy-unknown}
use libstlink.Flash.ErasePage.{stlink_erase_flash_page}

-- On an unknown flash type the erase does not end, whatever the fuel: it waits for the controller
-- first, and the branch that reports the unknown type is never reached.
pub stlink_erase_flash_page-unknown :
    (fuel flashaddr : ℕ) (sl : Stlink)
    → sl.flash_type ≡ unknown
    → stlink_erase_flash_page fuel flashaddr sl ≡ none
unfolding stlink_erase_flash_page
stlink_erase_flash_page-unknown fuel flashaddr sl e =
    then_stops (wait_flash_busy fuel) _ (wait_flash_busy-unknown fuel sl e)
