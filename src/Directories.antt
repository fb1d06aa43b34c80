-- ===== src/Directories.antt =====
-- mm.c: the page directories, and the pages of a process as a whole. A directory is its index;
-- the free ones are in the list `free_dirs`, and `dir_count` counts the processes that share one.
pub mod UserPages
use so2_zeos.Prelude.{
  ℕ, zero, suc, ◌+◌, ◌-◌, ◌%◌, ◌^◌, Bool, true, false, ◌&&◌, not, Option, none, some, ◌==◌, ltb,
  leb, if◌then◌else◌, update,
}
use so2_zeos.LinkedList.{list_add, list_del, list_empty, list_first, init_list_head}
use so2_zeos.Memory.{
  Memory, PageTableEntry, no_entry, set_entry, total_pages, num_pag_kernel, num_pag_code,
  num_pag_data, pag_log_init_code, pag_log_init_data, pag_log_init_heap, alloc_frame, free_frame,
  get_frame, del_ss_pag, get_heap_page_size, init_frames,
}
use so2_zeos.Kernel.{Kernel, nr_tasks, set_task, set_links}
use so2_zeos.Kernel.Addresses.{free_dirs, dir_anchor, list_head_to_dir}

abbrev pub set_mem : Memory → Kernel → Kernel
set_mem m k = record k { mem = m }

-- the loop of `init_dir_pages`, from directory `i` on
unfoldable pub open_dirs : (rounds i : ℕ) → Kernel → Kernel
open_dirs zero i k = k
open_dirs (suc rounds) i k = open_dirs rounds (i + 1) (
    set_links (list_add (dir_anchor i) free_dirs k.links)
      (set_mem (record k.mem { dir_count = update k.mem.dir_count i 0 }) k))

unfoldable pub init_dir_pages : Kernel → Kernel
unfolding open_dirs
init_dir_pages k = open_dirs nr_tasks 0 (set_links (init_list_head free_dirs k.links) k)

-- the entry of page `i` that `init_table_pages` leaves; `low` and `high` are the pages before and
-- behind the tasks, where the linker puts them
unfoldable pub kernel_entry : (low high i : ℕ) → PageTableEntry
kernel_entry low high i =
    if leb 1 i && ltb i num_pag_kernel
    then record {
      present = not (i == low) && not (i == high);
      rw = true;
      user = false;
      pbase_addr = i;
    }
    else no_entry

-- The loops of `init_table_pages`, index by index; `low` and `high` are pages of the tables.
unfoldable pub init_table_pages : (low high : ℕ) → Memory → Memory
unfolding kernel_entry
init_table_pages low high m = record m {
  page_table = λ j i.
      if ltb j nr_tasks && ltb i total_pages then kernel_entry low high i else m.page_table j i;
}

-- `init_mm`; the control registers are not modelled
unfoldable pub init_mm : (low high : ℕ) → Kernel → Kernel
init_mm low high k = init_dir_pages (set_mem (init_frames (init_table_pages low high k.mem)) k)

-- 20 bits of what `alloc_frame` returns; -1 is all ones
abbrev pub frame_bits : Option ℕ → ℕ
frame_bits none = 2 ^ 20 - 1
frame_bits (some f) = f % 2 ^ 20

-- One round of `set_user_pages`: page `page` gets a new frame.
unfoldable pub set_user_page : (d page : ℕ) (rw : Bool) → Memory → Memory
set_user_page d page rw m = elim (alloc_frame m) [
  | none ↦
      set_entry d page
        (record { present = true; rw = rw; user = true; pbase_addr = frame_bits none }) m
  | some (f, m') ↦
      set_entry d page
        (record { present = true; rw = rw; user = true; pbase_addr = frame_bits (some f) }) m'
]

-- a loop of it, from `page` on
unfoldable pub map_user_pages : (rounds d page : ℕ) (rw : Bool) → Memory → Memory
map_user_pages zero d page rw m = m
map_user_pages (suc rounds) d page rw m =
    map_user_pages rounds d (page + 1) rw (set_user_page d page rw m)

unfoldable pub set_user_pages : ℕ → Memory → Memory
set_user_pages d m =
    map_user_pages num_pag_data d pag_log_init_data true
      (map_user_pages num_pag_code d pag_log_init_code false m)

-- the first loop of `free_user_pages`, from `page` on
unfoldable pub free_data_pages : (rounds d page : ℕ) → Memory → Memory
free_data_pages zero d page m = m
free_data_pages (suc rounds) d page m =
    free_data_pages rounds d (page + 1) (del_ss_pag d page (free_frame (get_frame d page m) m))

-- The second, from `pag` on: the frame is that of the page `pag` below the heap's first, the entry
-- that of the page `pag` above it.
unfoldable pub free_heap_pages : (rounds d pag : ℕ) → Memory → Memory
free_heap_pages zero d pag m = m
free_heap_pages (suc rounds) d pag m = free_heap_pages rounds d (pag + 1) (
    del_ss_pag d (pag_log_init_heap + pag) (free_frame (get_frame d (pag_log_init_heap - pag) m) m))

unfoldable pub free_user_pages : (d heap_top : ℕ) → Memory → Memory
unfolding free_data_pages free_heap_pages
free_user_pages d heap_top m =
    free_heap_pages (get_heap_page_size heap_top) d 0
      (free_data_pages num_pag_data d pag_log_init_data m)

-- `t->dir_pages_baseAddr = dir`
abbrev pub set_dir : ℕ → Option ℕ → Kernel → Kernel
set_dir t d k = set_task t (record (k.tasks t) { dir = d }) k

abbrev pub set_count : ℕ → ℕ → Kernel → Kernel
set_count d c k = set_mem (record k.mem { dir_count = update k.mem.dir_count d c }) k

-- the directory that `allocate_DIR` takes, if there is one
unfoldable pub take_dir : (d t : ℕ) → Kernel → Kernel
take_dir d t k = set_count d 1 (set_dir t (some d) (set_links (list_del (dir_anchor d) k.links) k))

-- `allocate_DIR`, and whether it has found a directory
unfoldable pub allocate_dir : ℕ → Kernel → Kernel × Bool
unfolding take_dir
allocate_dir t k =
    if list_empty free_dirs k.links
    then (k, false)
    else (take_dir (list_head_to_dir (list_first free_dirs k.links)) t k, true)

unfoldable pub reuse_dir : (d t : ℕ) → Kernel → Kernel
reuse_dir d t k = set_count d ((k.mem.dir_count d + 1) % 2 ^ 32) (set_dir t (some d) k)

-- the branch of `free_DIR` in which the last process of the directory frees it
unfoldable pub release_dir : (d t : ℕ) → Kernel → Kernel
unfolding free_user_pages
release_dir d t k =
    set_links (list_add (dir_anchor d) free_dirs k.links)
      (set_mem (free_user_pages d (k.tasks t).heap_top k.mem) k)

-- `free_DIR` of a process with the directory `d`
unfoldable pub drop_dir : (d t : ℕ) → Kernel → Kernel
unfolding release_dir
drop_dir d t k =
    let count = (k.mem.dir_count d + 2 ^ 32 - 1) % 2 ^ 32 in
    let k1 = set_count d count k in set_dir t none (if count == 0 then release_dir d t k1 else k1)

-- `free_DIR`. A NULL directory has no index; no process that the kernel frees has one, and the
-- model stops there.
unfoldable pub free_dir : ℕ → Kernel → Kernel
unfolding drop_dir
free_dir t k = elim (k.tasks t).dir [ none ↦ record k { hung = true } | some d ↦ drop_dir d t k ]
