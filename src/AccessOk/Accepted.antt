-- ===== src/AccessOk/Accepted.antt =====
-- Which blocks `access_ok` accepts.
use so2_zeos.Prelude.{ℕ, ◌+◌, ◌/◌, ◌%◌, ◌^◌, ◌≡◌, ap, ltb, arith, false, if◌then◌else◌}
use so2_zeos.AccessOk.{verify_read, verify_write, check_pages, access_ok}

check_pages-same :
    (heap_top ini fin : ℕ)
    → check_pages verify_write heap_top ini fin ≡ check_pages verify_read heap_top ini fin
unfolding check_pages
check_pages-same heap_top ini fin = ground arith

-- A block is accepted for writing exactly when it is accepted for reading: the narrower range of
-- pages for writing has no effect.
pub access_ok-same :
    (addr size heap_top : ℕ)
    → access_ok verify_write addr size heap_top ≡ access_ok verify_read addr size heap_top
unfolding access_ok
access_ok-same addr size heap_top =
    let fin = ((addr + size) % 2 ^ 32) / 2 ^ 12 in
    ap (λ b. if ltb fin (addr / 2 ^ 12) then false else b)
      (check_pages-same heap_top (addr / 2 ^ 12) fin)
