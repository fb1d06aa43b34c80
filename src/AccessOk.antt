-- ===== src/AccessOk.antt =====
-- utils.c, `access_ok`: whether user mode may pass a block of memory to the kernel.
pub mod Accepted
use so2_zeos.Prelude.{
  ℕ, ◌+◌, ◌-◌, ◌/◌, ◌%◌, ◌^◌, Bool, true, false, ◌&&◌, ◌||◌, ltb, leb, if◌then◌else◌,
}
use so2_zeos.Memory.{
  pag_log_init_code, pag_log_init_data, num_pag_data, pag_log_init_heap, get_heap_page_size,
}

-- VERIFY_READ and VERIFY_WRITE of include/utils.h; what else `type` can be takes the `default`
pub data Access : Type 0 where
  verify_read : Access
  verify_write : Access

-- `addr_ini` against the pages of a heap that ends at `heap_top`; the difference is unsigned there.
abbrev pub in_heap : (heap_top addr_ini : ℕ) → Bool
in_heap heap_top addr_ini =
    leb addr_ini pag_log_init_heap
    && leb ((pag_log_init_heap + 2 ^ 32 - get_heap_page_size heap_top) % 2 ^ 32) addr_ini

-- `addr_ini` and `addr_fin` between the page `first` and the end of the data
abbrev pub in_image : (first addr_ini addr_fin : ℕ) → Bool
in_image first addr_ini addr_fin =
    leb first addr_ini && leb addr_fin (pag_log_init_data + num_pag_data)

-- the `switch`; the case VERIFY_WRITE falls through
unfoldable pub check_pages : Access → (heap_top addr_ini addr_fin : ℕ) → Bool
check_pages verify_read heap_top ini fin =
    in_image pag_log_init_code ini fin || in_heap heap_top ini
check_pages verify_write heap_top ini fin =
    if in_image pag_log_init_data ini fin || in_heap heap_top ini
    then true
    else in_image pag_log_init_code ini fin || in_heap heap_top ini

-- `heap_top` is that of the current task.
unfoldable pub access_ok : Access → (addr size heap_top : ℕ) → Bool
unfolding check_pages
access_ok type addr size heap_top =
    let ini = addr / 2 ^ 12 in
    let fin = ((addr + size) % 2 ^ 32) / 2 ^ 12 in
    if ltb fin ini then false else check_pages type heap_top ini fin
