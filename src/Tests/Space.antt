-- ===== src/Tests/Space.antt =====
-- access_ok, sys_sbrk: the theorems at concrete states.
use so2_zeos.Prelude.{arith, ◌+◌, ◌≤◌, ◌<◌, true, ◌≡◌, refl, false, update}
use so2_zeos.Memory.{Memory, alloc_frame, find_frame, is_ss_pag_free}
use so2_zeos.Memory.Sharing.{writable}
use so2_zeos.AccessOk.{access_ok, verify_read, verify_write}
use so2_zeos.AccessOk.Accepted.{access_ok-same}
use so2_zeos.Heap.{grow_heap, pages_free, alloc_frames}
use so2_zeos.Heap.Mapped.{grow_heap-maps}
use so2_zeos.Directories.UserPages.{IsUser}
use so2_zeos.Heap.Growth.{page_table-grow_heap}
use so2_zeos.Tests.Machine.{memory}

access_ok-same_example :
    access_ok verify_write 0x100000 4 0x1fffff ≡ access_ok verify_read 0x100000 4 0x1fffff
access_ok-same_example = access_ok-same 0x100000 4 0x1fffff

-- page 510 of directory 0 is in use
abbrev crowded : Memory
crowded = record memory {
  page_table = update memory.page_table 0 (update (memory.page_table 0) 510 (writable 300));
}

page_in_use : (grow_heap 2 0 511 crowded).0 ≡ false
unfolding grow_heap pages_free is_ss_pag_free
page_in_use = refl

page_table-grow_heap_example : (grow_heap 2 0 511 crowded).1.page_table ≡ crowded.page_table
page_table-grow_heap_example = page_table-grow_heap 2 0 511 crowded page_in_use

heap_grows : (grow_heap 2 0 511 memory).0 ≡ true
unfolding grow_heap pages_free is_ss_pag_free alloc_frames alloc_frame find_frame
heap_grows = refl

grow_heap-maps_example :
    let e = (grow_heap 2 0 511 memory).1.page_table 0 510 in
    (511 < 510 + 2 → 510 ≤ 511 → (is_ss_pag_free 0 510 memory ≡ true) × IsUser true e)
    × (510 + 2 ≤ 511 → e ≡ memory.page_table 0 510)
    × (511 < 510 → e ≡ memory.page_table 0 510)
grow_heap-maps_example = grow_heap-maps 2 0 511 memory 510 (omega arith) heap_grows
