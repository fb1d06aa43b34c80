-- ===== src/Memory.antt =====
-- mm.c: physical frames, page tables and copy on write.
-- A directory is its index, and so is the page table under it; physical memory beyond the arrays is
-- not modelled. `set_cr3` (the flush of the TLB) has no effect on this state.
pub mod Frames
pub mod Sharing
use so2_zeos.Prelude.{
  ℕ, zero, suc, ◌+◌, ◌-◌, ◌%◌, ◌^◌, ◌*◌, ◌/◌, Bool, true, false, ◌&&◌, ◌||◌, not, Option, none,
  some, ◌==◌, ltb, leb, if◌then◌else◌, update,
}

-- the bits of a `page_table_entry` that the kernel sets; all others stay 0
pub record PageTableEntry : Type 0 where
  pub present : Bool
  pub rw : Bool
  pub user : Bool
  pub pbase_addr : ℕ

-- The arrays of mm.c. `page_table d` is `pagusr_table[d]`, to which entry 0 of `dir_pages[d]`
-- always points; a directory is its index `d`. `dir_count` is `dir_status[d].count`, as the 32-bit
-- pattern of an `int`. `frame_data` is physical memory, a frame's bytes by offset.
pub record Memory : Type 0 where
  pub phys_mem : ℕ → ℕ
  pub cow_count_mem : ℕ → ℕ
  pub page_table : ℕ → ℕ → PageTableEntry
  pub dir_count : ℕ → ℕ
  pub frame_data : ℕ → ℕ → ℕ

-- include/mm_address.h
abbrev pub total_pages : ℕ
total_pages = 1024

abbrev pub num_pag_kernel : ℕ
num_pag_kernel = 256

abbrev pub num_pag_code : ℕ
num_pag_code = 8

abbrev pub num_pag_data : ℕ
num_pag_data = 20

abbrev pub page_size : ℕ
page_size = 0x1000

abbrev pub heap_start : ℕ
heap_start = 0x200000 - 1

abbrev pub pag_log_init_code : ℕ
pag_log_init_code = 0x100000 / 2 ^ 12

abbrev pub pag_log_init_data : ℕ
pag_log_init_data = pag_log_init_code + num_pag_code

abbrev pub pag_log_init_heap : ℕ
pag_log_init_heap = heap_start / 2 ^ 12

abbrev pub free_frame_mark : ℕ
free_frame_mark = 0

abbrev pub used_frame_mark : ℕ
used_frame_mark = 1

-- the two loops of `init_frames`, index by index
unfoldable pub init_frames : Memory → Memory
init_frames m = record m {
  phys_mem = λ i.
      if ltb i num_pag_kernel
      then used_frame_mark
      else if ltb i total_pages
      then free_frame_mark
      else m.phys_mem i;
  cow_count_mem = λ i. if ltb i num_pag_kernel then 0 else m.cow_count_mem i;
}

-- The search of `alloc_frame` from frame `i` on, in steps of two; the fuel is the rounds left.
unfoldable pub find_frame : ℕ → ℕ → Memory → Option ℕ
find_frame zero i m = none
find_frame (suc rounds) i m =
    let rest = find_frame rounds (i + 2) m in
    if m.phys_mem i == free_frame_mark then some i else rest

-- from NUM_PAG_KERNEL to TOTAL_PAGES
abbrev pub frame_rounds : ℕ
frame_rounds = 384

abbrev pub mark_frame : ℕ → Memory → Memory
mark_frame f m = record m {
  phys_mem = update m.phys_mem f used_frame_mark;
  cow_count_mem = update m.cow_count_mem f 0;
}

-- `none` is the -1.
abbrev pub taken : Option ℕ → Memory → Option (ℕ × Memory)
taken none m = none
taken (some f) m = some (f, mark_frame f m)

unfoldable pub alloc_frame : Memory → Option (ℕ × Memory)
alloc_frame m = taken (find_frame frame_rounds num_pag_kernel m) m

-- `(signed char) c <= 0`
abbrev pub signed_le_zero : ℕ → Bool
signed_le_zero c = (c == 0) || leb 128 c

-- The two `if`s of `free_frame`: the second is not inside the first. `--` on a byte wraps.
unfoldable pub release_count : ℕ → Memory → Memory
release_count f m =
    if ltb num_pag_kernel f && ltb f total_pages
    then record m { cow_count_mem = update m.cow_count_mem f ((m.cow_count_mem f + 255) % 256) }
    else m

unfoldable pub free_frame : ℕ → Memory → Memory
unfolding release_count
free_frame f m =
    let m' = release_count f m in
    if signed_le_zero (m'.cow_count_mem f)
    then record m' { phys_mem = update m'.phys_mem f free_frame_mark }
    else m'

-- `PT[page] = e`, in the page table of directory `d`
abbrev pub set_entry : ℕ → ℕ → PageTableEntry → Memory → Memory
set_entry d page e m = record m {
  page_table = update m.page_table d (update (m.page_table d) page e);
}

-- an entry of 0
abbrev pub no_entry : PageTableEntry
no_entry = record { present = false; rw = false; user = false; pbase_addr = 0 }

-- `pbase_addr` has 20 bits.
unfoldable pub set_ss_pag : ℕ → ℕ → ℕ → Memory → Memory
set_ss_pag d page frame m =
    set_entry d page
      (record { present = true; rw = true; user = true; pbase_addr = frame % 2 ^ 20 }) m

unfoldable pub set_ro_page : ℕ → ℕ → Memory → Memory
set_ro_page d page m = set_entry d page (record (m.page_table d page) { rw = false }) m

unfoldable pub del_ss_pag : ℕ → ℕ → Memory → Memory
del_ss_pag d page m = set_entry d page no_entry m

unfoldable pub is_ss_pag_free : ℕ → ℕ → Memory → Bool
is_ss_pag_free d page m = not (m.page_table d page).present

unfoldable pub get_frame : ℕ → ℕ → Memory → ℕ
get_frame d page m = (m.page_table d page).pbase_addr

-- `if(++cow_count_mem[frame] == 1) cow_count_mem[frame]++;`
abbrev pub shared_count : ℕ → ℕ
shared_count c = if ((c + 1) % 256) == 1 then 2 else (c + 1) % 256

unfoldable pub share_cow_page : ℕ → ℕ → ℕ → Memory → Memory
unfolding get_frame set_ss_pag set_ro_page
share_cow_page source dest page m =
    let frame = get_frame source page m in
    let m1 = record m {
      cow_count_mem = update m.cow_count_mem frame (shared_count (m.cow_count_mem frame));
    } in
    set_ro_page dest page (set_ro_page source page (set_ss_pag dest page frame m1))

-- `copy_data` of one page to the page behind the heap's first, which is mapped to `frame` meanwhile
unfoldable pub copy_frame : ℕ → ℕ → ℕ → Memory → Memory
unfolding get_frame set_ss_pag del_ss_pag
copy_frame d page frame m =
    let window = pag_log_init_heap + 1 in
    let m1 = set_ss_pag d window frame m in
    let m2 = record m1 {
      frame_data =
          update m1.frame_data (get_frame d window m1) (m1.frame_data (get_frame d page m1));
    } in
    del_ss_pag d window m2

-- A heap that ends at `heap_top` grows down from HEAP_START; exact for `heap_top` up to HEAP_START.
unfoldable pub get_heap_page_size : ℕ → ℕ
get_heap_page_size heap_top = (heap_start + page_size - (heap_top + 1)) / page_size

-- sys.c, `pf_rsi` behind its check of the address: what a write to a shared page does.
pub data Fault : Type 0 where
  resolved : Memory → Fault
  -- "NOT ENOUGH PHYSICAL MEMORY" and "KERNEL PANIC": the kernel loops for ever
  no_memory : Fault
  panic : Fault

unfoldable pub fault_on_shared : ℕ → ℕ → ℕ → Memory → Fault
unfolding copy_frame set_ss_pag
fault_on_shared d page frame m =
    let m1 = record m {
      cow_count_mem = update m.cow_count_mem frame (m.cow_count_mem frame - 1);
    } in
    elim (alloc_frame m1) [
      | none ↦ no_memory
      | some (new, m2) ↦ resolved (set_ss_pag d page new (copy_frame d page new m2))
    ]

unfoldable pub page_fault : ℕ → ℕ → Memory → Fault
unfolding fault_on_shared set_ss_pag get_frame
page_fault d page m =
    let frame = get_frame d page m in
    let count = m.cow_count_mem frame in
    if count == 1
    then resolved
        (set_ss_pag d page frame (record m { cow_count_mem = update m.cow_count_mem frame 0 }))
    else if leb 2 count
    then fault_on_shared d page frame m
    else panic
