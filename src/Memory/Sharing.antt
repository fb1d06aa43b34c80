-- ===== src/Memory/Sharing.antt =====
-- Copy on write: `share_cow_page` at a fork, and `pf_rsi` at the first write to a shared page.
use so2_zeos.Prelude.{
  fun_ext, ℕ, ◌+◌, ◌-◌, ◌%◌, ◌^◌, ◌≤◌, ◌<◌, ◌≡◌, ◌≢◌, refl, Bool, true, false, ◌||◌, ◌&&◌, ◌==◌,
  if◌then◌else◌, arith, update, some,
}
use so2_zeos.Memory.{
  Memory, PageTableEntry, total_pages, alloc_frame, share_cow_page, page_fault, resolved,
  pag_log_init_heap, copy_frame, set_ss_pag, no_entry,
}
use so2_zeos.Memory.Frames.{alloc_frame-some}

-- a page that may be written, in a frame
abbrev pub writable : ℕ → PageTableEntry
writable f = record { present = true; rw = true; user = true; pbase_addr = f }

-- a page in a frame that may only be read
abbrev pub read_only : ℕ → PageTableEntry
read_only f = record { present = true; rw = false; user = true; pbase_addr = f }

-- the page behind the heap's first, which `copy_frame` uses
abbrev pub window : ℕ
window = pag_log_init_heap + 1

-- A page of one process that is mapped writable, or shared already, is shared with another: both
-- map its frame read-only, the count of the frame goes from 0 to 2, or up by one, and no other
-- page, count, frame or byte of memory changes.
pub share_cow_page_lem :
    (source dest page f : ℕ) (w : Bool) (m : Memory)
    → source ≢ dest
    → f < 2 ^ 20
    → m.page_table source page ≡ record { present = true; rw = w; user = true; pbase_addr = f }
    → m.cow_count_mem f < 255
    → let m' = share_cow_page source dest page m in
      ((d p : ℕ)
        → m'.page_table d p ≡ (
            if (p == page) && ((d == source) || (d == dest))
            then read_only f
            else m.page_table d p))
      × (m'.cow_count_mem
          ≡ update m.cow_count_mem f (if m.cow_count_mem f == 0 then 2 else m.cow_count_mem f + 1))
      × (m'.phys_mem ≡ m.phys_mem)
      × (m'.frame_data ≡ m.frame_data)
unfolding share_cow_page
share_cow_page_lem source dest page f w m ne fits e small =
    (λ d p. ground (arith, e), fun_ext λ g. ground arith, refl, refl)

-- A write to a frame that several processes map, while a frame is free: the writer gets a frame of
-- its own with the same bytes, and the count of the old frame falls by one. Other pages of the
-- writer, but the window of `copy_frame`, and all pages of others stay.
pub page_fault-shared :
    (d page f new : ℕ) (m m2 : Memory)
    → page ≢ window
    → f < total_pages
    → m.phys_mem f ≢ 0
    → m.page_table d page ≡ read_only f
    → 2 ≤ m.cow_count_mem f
    → alloc_frame (record m { cow_count_mem = update m.cow_count_mem f (m.cow_count_mem f - 1) })
      ≡ some (new, m2)
    → (m' : Memory) × (page_fault d page m ≡ resolved m')
      × (new ≢ f)
      × (m'.frame_data new ≡ m.frame_data f)
      × (m'.frame_data f ≡ m.frame_data f)
      × (m'.cow_count_mem f ≡ m.cow_count_mem f - 1)
      × (m'.cow_count_mem new ≡ 0)
      × ((c p : ℕ)
          → m'.page_table c p ≡ (
              if c == d
              then (if p == page
                  then writable new
                  else if p == window
                  then no_entry
                  else m.page_table c p)
              else m.page_table c p))
unfolding page_fault
page_fault-shared d page f new m m2 nw fits used e many got =
    let a =
      alloc_frame-some
        (record m { cow_count_mem = update m.cow_count_mem f (m.cow_count_mem f - 1) }) m2 new
        got in
    let low : new % 2 ^ 20 ≡ new = omega arith in
    let other : new ≢ f = ground (arith, a) in
    (
      set_ss_pag d page new (copy_frame d page new m2),
      ground (arith, got),
      other,
      rw (low, a.4) (ground (arith, e)),
      rw (low, a.4) (ground (arith, e)),
      rw a.4 (ground arith),
      rw a.4 (ground arith),
      λ c p. rw (low, a.4) (ground arith),
    )
