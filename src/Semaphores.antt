-- ===== src/Semaphores.antt =====
-- sys.c: the semaphores, `sys_sem_init`, `sys_sem_wait`, `sys_sem_signal`, `sys_sem_destroy` and
-- `free_semaphores`.
-- A call returns the new kernel and its result; `none` for the result is that the caller has lost
-- the CPU, and goes on at its `Context`.
pub mod Waking
pub mod Calls
pub mod Woken
pub mod Destroy
use so2_zeos.Prelude.{
  ℕ, zero, suc, ◌+◌, ◌-◌, ◌%◌, ◌^◌, Bool, true, false, not, Option, none, some, ◌==◌, leb,
  if◌then◌else◌, update, ℤ, pos, negsuc, neg,
}
use so2_zeos.LinkedList.{Ptr, list_add, list_del, list_empty, list_first, init_list_head}
use so2_zeos.Stats.{sys_to_blocked, blocked_to_ready}
use so2_zeos.Kernel.{
  Kernel, Semaphore, Task, in_sem_wait, nr_semaphores, set_task, set_links, update_stats,
}
use so2_zeos.Kernel.Addresses.{
  owned_semaphores, sem_anchor, sem_blocked, list_head_to_task, list_head_to_semaphore,
}
use so2_zeos.Scheduler.{update_process_state_rr, add_process_to_scheduling, sched_next_rr}

-- include/errno.h
abbrev pub einval : ℤ
einval = neg 22

abbrev pub ebusy : ℤ
ebusy = neg 16

-- `semaphores[n] = s`
abbrev pub set_semaphore : ℕ → Semaphore → Kernel → Kernel
set_semaphore n s k = record k { semaphores = update k.semaphores n s }

-- `sys_sem_init` behind its check of `n_sem`. (`value < 0` is false of an unsigned value.)
unfoldable pub open_semaphore : ℕ → ℕ → Kernel → Kernel × ℤ
open_semaphore n value k = if (k.semaphores n).used then (k, ebusy) else (
  set_links
      (list_add (sem_anchor n) (owned_semaphores k.current)
        (init_list_head (sem_blocked n) k.links))
      (set_semaphore n (record { used = true; count = value; owner = k.current }) k),
  pos 0,
)

unfoldable pub sem_init : ℤ → ℕ → Kernel → Kernel × ℤ
unfolding open_semaphore
sem_init (negsuc _) value k = (k, einval)
sem_init (pos n) value k = if leb nr_semaphores n then (k, einval) else open_semaphore n value k

-- the branch of `sys_sem_wait` in which the process blocks
unfoldable pub block_on : ℕ → Kernel → Kernel
block_on n k =
    let k1 = update_process_state_rr k.current (sem_blocked n) k in
    sched_next_rr in_sem_wait (update_stats k1.current sys_to_blocked k1)

-- `sys_sem_wait` behind its check of `n_sem`
unfoldable pub wait_semaphore : ℕ → Kernel → Kernel × Option ℤ
unfolding block_on
wait_semaphore n k =
    let s = k.semaphores n in
    if not s.used
    then (k, some einval)
    else if s.count == 0
    then (block_on n k, none)
    else (set_semaphore n (record s { count = s.count - 1 }) k, some (pos 0))

unfoldable pub sem_wait : ℤ → Kernel → Kernel × Option ℤ
unfolding wait_semaphore
sem_wait (negsuc _) k = (k, some einval)
sem_wait (pos n) k = if leb nr_semaphores n then (k, some einval) else wait_semaphore n k

-- `sys_sem_wait` behind `sched_next_rr()`, when the process runs again
unfoldable pub resume_sem_wait : Kernel → Kernel × ℤ
resume_sem_wait k =
    let t = k.tasks k.current in
    if t.sem_deleted
    then (set_task k.current (record t { sem_deleted = false }) k, neg 1)
    else (k, pos 0)

-- `sys_sem_signal` behind its check of `n_sem`; `++count` wraps.
unfoldable pub signal_semaphore : ℕ → Kernel → Kernel × ℤ
signal_semaphore n k =
    let s = k.semaphores n in
    if not s.used
    then (k, einval)
    else if list_empty (sem_blocked n) k.links
    then (set_semaphore n (record s { count = (s.count + 1) % 2 ^ 32 }) k, pos 0)
    else (
      add_process_to_scheduling (list_head_to_task (list_first (sem_blocked n) k.links))
          blocked_to_ready false k,
      pos 0,
    )

unfoldable pub sem_signal : ℤ → Kernel → Kernel × ℤ
unfolding signal_semaphore
sem_signal (negsuc _) k = (k, einval)
sem_signal (pos n) k = if leb nr_semaphores n then (k, einval) else signal_semaphore n k

-- the body of the loop of `sys_sem_destroy`
unfoldable pub wake_deleted : ℕ → Kernel → Kernel
wake_deleted t k =
    let k1 = add_process_to_scheduling t blocked_to_ready false k in
    set_task t (record (k1.tasks t) { sem_deleted = true }) k1

-- `list_for_each_safe(task_anchor, &sem->blocked)` from `p` on: the next node is read before the
-- body runs. The fuel bounds the rounds; a loop that runs out of it, and so may run for ever, has
-- hung.
unfoldable pub wake_from : ℕ → Ptr → Ptr → Kernel → Kernel
wake_from zero head p k = record k { hung = true }
wake_from (suc fuel) head p k =
    let rest = wake_from fuel head (k.links.next p) (wake_deleted (list_head_to_task p) k) in
    if p == head then k else rest

-- the most tasks that can be blocked, and one round to see the head again
abbrev pub wake_fuel : ℕ
wake_fuel = 11

-- `sys_sem_destroy` behind its check of `n_sem`
unfoldable pub close_semaphore : ℕ → Kernel → Kernel × ℤ
close_semaphore n k =
    let s = k.semaphores n in
    if not s.used
    then (k, einval)
    else if not ((k.tasks k.current).pid == (k.tasks s.owner).pid)
    then (k, neg 1)
    else let k1 = set_semaphore n (record s { used = false }) k in
      let k2 = set_links (list_del (sem_anchor n) k1.links) k1 in
      (wake_from wake_fuel (sem_blocked n) (k2.links.next (sem_blocked n)) k2, pos 0)

unfoldable pub sem_destroy : ℤ → Kernel → Kernel × ℤ
unfolding close_semaphore
sem_destroy (negsuc _) k = (k, einval)
sem_destroy (pos n) k = if leb nr_semaphores n then (k, einval) else close_semaphore n k

-- `list_for_each_safe(sem_anchor, &task->semaphores)` from `p` on, on fuel as above
unfoldable pub destroy_from : ℕ → Ptr → Ptr → Kernel → Kernel
destroy_from zero head p k = record k { hung = true }
destroy_from (suc fuel) head p k =
    let rest =
      destroy_from fuel head (k.links.next p) (sem_destroy (pos (list_head_to_semaphore p)) k).0 in
    if p == head then k else rest

-- a task owns `nr_semaphores` semaphores at most
unfoldable pub free_semaphores : ℕ → Kernel → Kernel
unfolding destroy_from
free_semaphores t k =
    let head = owned_semaphores t in
    let k1 = destroy_from 21 head (k.links.next head) k in
    set_links (init_list_head head k1.links) k1
