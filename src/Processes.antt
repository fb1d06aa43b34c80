-- ===== src/Processes.antt =====
-- sched.c and sys.c: how processes come and go. `allocate_process`, `free_process`, `sys_fork`,
-- `sys_clone`, `sys_exit`, and the first two processes. The words on a kernel stack are not
-- modelled: what a new process does when it is switched in is its `Context`.
pub mod Inherit
use so2_zeos.Prelude.{
  ℕ, zero, suc, ◌+◌, ◌-◌, ◌%◌, ◌^◌, Bool, true, false, not, ◌||◌, Option, none, some, if◌then◌else◌,
  ℤ, pos, neg,
}
use so2_zeos.LinkedList.{list_del, list_empty, list_first, init_list_head}
use so2_zeos.Stats.{st_run, st_ready, free_to_ready, reset_stats}
use so2_zeos.Memory.{
  Memory, PageTableEntry, set_entry, share_cow_page, num_pag_code, num_pag_data, pag_log_init_code,
  pag_log_init_data, pag_log_init_heap, heap_start, get_heap_page_size,
}
use so2_zeos.Kernel.{
  Context, in_fork, in_clone, in_idle, exited, Kernel, default_quantum, set_task, set_links,
  update_stats,
}
use so2_zeos.Kernel.Addresses.{free_queue, anchor, owned_semaphores, list_head_to_task}
use so2_zeos.Scheduler.{
  update_process_state_rr, add_process_to_scheduling, sched_next_rr, set_state,
}
use so2_zeos.Semaphores.{free_semaphores}
use so2_zeos.AccessOk.{access_ok, verify_write}
use so2_zeos.Faults.{store_bytes, dword_bytes}
use so2_zeos.Directories.{set_mem, allocate_dir, reuse_dir, free_dir, set_user_pages}

-- `allocate_process` behind the choice of the directory
unfoldable pub init_process : ℕ → Kernel → Kernel
init_process t k =
    let links = init_list_head (owned_semaphores t) (list_del (anchor t) k.links) in
    set_task t
      (record (k.tasks t) {
        pid = k.last_pid;
        heap_top = heap_start;
        sem_deleted = false;
        quantum = default_quantum;
        st = reset_stats;
      })
      (record k { links = links; last_pid = k.last_pid + 1 })

-- The directory of a new process; `none` is that there is none left.
unfoldable pub give_dir : Option ℕ → ℕ → Kernel → Kernel × Bool
unfolding allocate_dir reuse_dir
give_dir none t k = allocate_dir t k
give_dir (some d) t k = (reuse_dir d t k, true)

-- The new process, `none` is NULL. The first argument is `dir`.
unfoldable pub allocate_process : Option ℕ → Kernel → Kernel × Option ℕ
unfolding give_dir init_process
allocate_process dir k =
    let t = list_head_to_task (list_first free_queue k.links) in
    let (k', found) = give_dir dir t k in
    if list_empty free_queue k.links
    then (k, none)
    else (if found then (init_process t k', some t) else (k', none))

unfoldable pub free_process : ℕ → Kernel → Kernel
free_process t k = free_semaphores t (free_dir t (update_process_state_rr t free_queue k))

unfoldable pub sys_exit : Kernel → Kernel
sys_exit k = sched_next_rr exited (free_process k.current k)

-- the loop over the code pages, from `page` on: `parent` and `child` are directories
unfoldable pub copy_entries : (rounds parent child page : ℕ) → Memory → Memory
copy_entries zero parent child page m = m
copy_entries (suc rounds) parent child page m =
    copy_entries rounds parent child (page + 1) (set_entry child page (m.page_table parent page) m)

-- the loop over the data pages, from `page` upwards
unfoldable pub share_up : (rounds parent child page : ℕ) → Memory → Memory
share_up zero parent child page m = m
share_up (suc rounds) parent child page m =
    share_up rounds parent child (page + 1) (share_cow_page parent child page m)

-- the loop over the heap pages, from `page` downwards
unfoldable pub share_down : (rounds parent child page : ℕ) → Memory → Memory
share_down zero parent child page m = m
share_down (suc rounds) parent child page m =
    share_down rounds parent child (page - 1) (share_cow_page parent child page m)

-- code, data and heap: the pages of the parent, whose heap ends at `heap_top`, in the child's table
unfoldable pub inherit_pages : (parent child heap_top : ℕ) → Memory → Memory
unfolding copy_entries share_up share_down
inherit_pages parent child heap_top m =
    let m1 = copy_entries num_pag_code parent child pag_log_init_code m in
    let m2 = share_up num_pag_data parent child pag_log_init_data m1 in
    share_down (get_heap_page_size heap_top) parent child pag_log_init_heap m2

-- `inherit_pages` between two processes. A NULL directory faults at address 0, where the handler
-- of page faults loops for ever.
unfoldable pub inherit_memory : Option ℕ → Option ℕ → ℕ → Kernel → Kernel
unfolding inherit_pages
inherit_memory (some parent) (some child) heap_top k =
    set_mem (inherit_pages parent child heap_top k.mem) k
inherit_memory _ _ heap_top k = record k { hung = true }

-- `-EAGAIN`, `-EFAULT`
abbrev pub eagain : ℤ
eagain = neg 11

abbrev pub efault : ℤ
efault = neg 14

-- `sys_fork` behind `allocate_process`
unfoldable pub fork_into : ℕ → Kernel → Kernel
unfolding inherit_memory
fork_into t k =
    let parent = k.tasks k.current in
    let k1 =
      set_task t
        (record (k.tasks t) {
          quantum = parent.quantum;
          heap_top = parent.heap_top;
          context = in_fork;
        })
        k in
    add_process_to_scheduling t free_to_ready false
      (inherit_memory parent.dir (k.tasks t).dir parent.heap_top k1)

abbrev pub forked : Kernel × Option ℕ → Kernel × ℤ
forked (k, none) = (k, eagain)
forked (k, some t) = let k' = fork_into t k in (k', pos (k'.tasks t).pid)

unfoldable pub sys_fork : Kernel → Kernel × ℤ
unfolding fork_into
sys_fork k = forked (allocate_process none k)

-- `sys_clone` behind `allocate_process`, with `*((DWord*) (stack - 4)) = exit_func`
unfoldable pub clone_into : (function stack exit_func t : ℕ) → Kernel → Kernel
clone_into function stack exit_func t k =
    let k1 =
      set_task t
        (record (k.tasks t) {
          quantum = (k.tasks k.current).quantum;
          context = in_clone function stack exit_func;
        })
        k in
    add_process_to_scheduling t free_to_ready false
      (store_bytes ((stack + 2 ^ 32 - 4) % 2 ^ 32) (dword_bytes exit_func) k1)

abbrev pub cloned : (function stack exit_func : ℕ) → Kernel × Option ℕ → Kernel × ℤ
cloned function stack exit_func (k, none) = (k, eagain)
cloned function stack exit_func (k, some t) =
    let k' = clone_into function stack exit_func t k in (k', pos (k'.tasks t).pid)

unfoldable pub sys_clone : (function stack exit_func : ℕ) → Kernel → Kernel × ℤ
unfolding clone_into
sys_clone function stack exit_func k =
    let top = (k.tasks k.current).heap_top in
    if not (access_ok verify_write function 4 top) || not (access_ok verify_write stack 4 top)
    then (k, efault)
    else cloned function stack exit_func (allocate_process (k.tasks k.current).dir k)
