-- ===== src/Tests/Users.antt =====
-- libc.c and the fork of page tables: the theorems at concrete inputs.
use so2_zeos.Prelude.{ℕ, ◌≡◌, ◌≢◌, ◌<◌, ◌≤◌, arith, if◌then◌else◌, pos}
use so2_zeos.Memory.{get_heap_page_size, num_pag_code, pag_log_init_code}
use so2_zeos.Memory.Sharing.{read_only}
use so2_zeos.Processes.{inherit_pages}
use so2_zeos.Processes.Inherit.{
  in_range, frame_of, write_protected, is_shared, inherit_pages-shares,
}
use so2_zeos.Libc.{itoa, strlen_from}
use so2_zeos.Libc.Decimal.{decimal, IsDigit, itoa-decimal}
use so2_zeos.Tests.Machine.{memory}

itoa-decimal_example :
    let r = itoa (pos 2024) (λ i. 7) in
    let n = strlen_from 2026 0 r in
    (decimal n r ≡ 2024)
    × (r n ≡ 0)
    × ((j : ℕ) → j < n → IsDigit (r j))
    × (◌≢◌ {A = ℕ} 2024 0 → r 0 ≢ 48)
itoa-decimal_example = itoa-decimal 2024 (λ i. 7)

one_heap_page : get_heap_page_size 0x1ffffe ≤ 228
unfolding get_heap_page_size
one_heap_page = omega arith

inherit_pages-shares_example :
    let m' = inherit_pages 8 9 0x1ffffe memory in
    let shared = is_shared (get_heap_page_size 0x1ffffe) 265 in
    (m'.page_table 9 265 ≡ (
      if in_range pag_log_init_code num_pag_code 265
      then memory.page_table 8 265
      else if shared
      then read_only (frame_of (memory.page_table 8 265))
      else memory.page_table 9 265))
    × (m'.page_table 8 265
        ≡ (if shared then write_protected (memory.page_table 8 265) else memory.page_table 8 265))
inherit_pages-shares_example =
    inherit_pages-shares 8 9 0x1ffffe 265 memory (omega arith) one_heap_page
