-- ===== src/Processes/Inherit.antt =====
-- What a fork does to the page tables of parent and child.
use so2_zeos.Prelude.{
  ℕ, zero, suc, ◌+◌, ◌-◌, ◌%◌, ◌^◌, ◌≤◌, ◌≡◌, ◌≢◌, Bool, false, ◌&&◌, ◌||◌, ◌==◌, leb, ltb,
  if◌then◌else◌, arith,
}
use so2_zeos.Memory.{
  Memory, PageTableEntry, share_cow_page, set_entry, num_pag_code, num_pag_data, pag_log_init_code,
  pag_log_init_data, pag_log_init_heap, get_heap_page_size,
}
use so2_zeos.Memory.Sharing.{read_only}
use so2_zeos.Processes.{copy_entries, share_up, share_down, inherit_pages}

-- is `p` one of `n` pages from `lo` on?
abbrev pub in_range : (lo n p : ℕ) → Bool
in_range lo n p = leb lo p && ltb p (lo + n)

-- the frame of a page, in 20 bits
abbrev pub frame_of : PageTableEntry → ℕ
frame_of e = e.pbase_addr % 2 ^ 20

abbrev pub write_protected : PageTableEntry → PageTableEntry
write_protected e = record e { rw = false }

module _ (parent child : ℕ) (apart : parent ≢ child) where
  -- One page: read-only in both tables.
  share_child :
      (page p : ℕ) (m : Memory)
      → (share_cow_page parent child page m).page_table child p ≡ (
          if p == page
          then read_only (frame_of (m.page_table parent page))
          else m.page_table child p)
  unfolding share_cow_page
  share_child page p m = ground arith

  share_parent :
      (page p : ℕ) (m : Memory)
      → (share_cow_page parent child page m).page_table parent p
        ≡ (if p == page then write_protected (m.page_table parent p) else m.page_table parent p)
  unfolding share_cow_page
  share_parent page p m = ground arith

  share_up-child :
      (n page p : ℕ) (m : Memory)
      → (share_up n parent child page m).page_table child p ≡ (
          if in_range page n p
          then read_only (frame_of (m.page_table parent p))
          else m.page_table child p)
  unfolding share_up
  share_up-child zero page p m = ground arith
  share_up-child (suc n) page p m =
      let m1 = share_cow_page parent child page m in
      ground (arith, share_up-child n (page + 1) p m1, share_child page p m, share_parent page p m)

  share_up-parent :
      (n page p : ℕ) (m : Memory)
      → (share_up n parent child page m).page_table parent p ≡ (
          if in_range page n p
          then write_protected (m.page_table parent p)
          else m.page_table parent p)
  unfolding share_up
  share_up-parent zero page p m = ground arith
  share_up-parent (suc n) page p m =
      let m1 = share_cow_page parent child page m in
      ground (arith, share_up-parent n (page + 1) p m1, share_parent page p m)

  share_down-child :
      (n page p : ℕ) (m : Memory)
      → n ≤ page + 1
      → (share_down n parent child page m).page_table child p ≡ (
          if in_range (page + 1 - n) n p
          then read_only (frame_of (m.page_table parent p))
          else m.page_table child p)
  unfolding share_down
  share_down-child zero page p m le = ground arith
  share_down-child (suc n) page p m le =
      let m1 = share_cow_page parent child page m in
      ground
        (arith, share_down-child n (page - 1) p m1, share_child page p m, share_parent page p m)

  share_down-parent :
      (n page p : ℕ) (m : Memory)
      → n ≤ page + 1
      → (share_down n parent child page m).page_table parent p ≡ (
          if in_range (page + 1 - n) n p
          then write_protected (m.page_table parent p)
          else m.page_table parent p)
  unfolding share_down
  share_down-parent zero page p m le = ground arith
  share_down-parent (suc n) page p m le =
      let m1 = share_cow_page parent child page m in
      ground (arith, share_down-parent n (page - 1) p m1, share_parent page p m)

  copy_entries-tables :
      (n page p : ℕ) (m : Memory)
      → ((copy_entries n parent child page m).page_table child p
          ≡ (if in_range page n p then m.page_table parent p else m.page_table child p))
        × ((copy_entries n parent child page m).page_table parent p ≡ m.page_table parent p)
  unfolding copy_entries
  copy_entries-tables zero page p m = ground arith
  copy_entries-tables (suc n) page p m =
      let m1 = set_entry child page (m.page_table parent page) m in
      ground (arith, copy_entries-tables n (page + 1) p m1)

-- a page that parent and child share for reading: data, or one of the heap
abbrev pub is_shared : (heap p : ℕ) → Bool
is_shared heap p =
    in_range pag_log_init_data num_pag_data p || in_range (pag_log_init_heap + 1 - heap) heap p

-- After a fork between two directories, of a process whose heap ends above its data: the child has
-- the parent's code pages as they are; every page of data and heap is mapped in both to the frame
-- that it had in the parent, and may be written in neither; no other page of the two changes.
pub inherit_pages-shares :
    (parent child heap_top p : ℕ) (m : Memory)
    → parent ≢ child
    → get_heap_page_size heap_top ≤ 228
    → let m' = inherit_pages parent child heap_top m in
      let shared = is_shared (get_heap_page_size heap_top) p in
      (m'.page_table child p ≡ (
        if in_range pag_log_init_code num_pag_code p
        then m.page_table parent p
        else if shared
        then read_only (frame_of (m.page_table parent p))
        else m.page_table child p))
      × (m'.page_table parent p
          ≡ (if shared then write_protected (m.page_table parent p) else m.page_table parent p))
unfolding inherit_pages
inherit_pages-shares parent child heap_top p m apart small =
    let heap = get_heap_page_size heap_top in
    let m1 = copy_entries num_pag_code parent child pag_log_init_code m in
    let m2 = share_up num_pag_data parent child pag_log_init_data m1 in
    let c = copy_entries-tables parent child apart num_pag_code pag_log_init_code p m in
    let uc = share_up-child parent child apart num_pag_data pag_log_init_data p m1 in
    let up = share_up-parent parent child apart num_pag_data pag_log_init_data p m1 in
    let dc = share_down-child parent child apart heap pag_log_init_heap p m2 (omega arith) in
    let dp = share_down-parent parent child apart heap pag_log_init_heap p m2 (omega arith) in
    (rw (dc, up, uc, c.0, c.1) (ground arith), rw (dp, up, c.1) (ground arith))
