-- ===== src/Scheduler.antt =====
-- sched.c, the scheduling policy: the queues of processes and the switch to the next one.
-- `task_switch` leaves the running function in the middle: what the task does when it comes back
-- is its `Context`, which the caller of `sched_next_rr` passes.
pub mod Frames
pub mod Consistent
pub mod Moves
pub mod Dispatch
pub mod RoundRobin
pub mod Fairness
pub mod Wakeup
use so2_zeos.Prelude.{ℕ, zero, suc, ◌+◌, Bool, true, false, ◌&&◌, ◌||◌, not, ◌==◌, if◌then◌else◌}
use so2_zeos.LinkedList.{Ptr, null, list_add, list_add_tail, list_del, list_empty, list_first}
use so2_zeos.Stats.{
  Event, sys_to_ready, ready_to_sys, quantum_updated, current_ticks_updated, State, st_run,
  st_ready, st_blocked, st_invalid,
}
use so2_zeos.Kernel.{Context, to_user, Kernel, set_task, set_links, update_stats}
use so2_zeos.Kernel.Addresses.{free_queue, readyqueue, anchor, list_head_to_task}

-- The state of a process by the queue that it is put into; NULL is for the process that runs.
abbrev pub state_in : Ptr → State
state_in dest =
    if dest == null
    then st_run
    else if dest == readyqueue
    then st_ready
    else if dest == free_queue
    then st_invalid
    else st_blocked

-- `if(task->anchor.next != NULL && task->anchor.prev != NULL) list_del(&task->anchor);`
unfoldable pub unlink_task : ℕ → Kernel → Kernel
unlink_task t k =
    if not (k.links.next (anchor t) == null) && not (k.links.prev (anchor t) == null)
    then set_links (list_del (anchor t) k.links) k
    else k

-- the branch `dest != NULL`
unfoldable pub link_task : ℕ → Ptr → Bool → Kernel → Kernel
link_task t dest is_first k =
    if is_first
    then set_links (list_add (anchor t) dest k.links) k
    else set_links (list_add_tail (anchor t) dest k.links) k

abbrev pub set_state : ℕ → State → Kernel → Kernel
set_state t s k = set_task t (record (k.tasks t) { state = s }) k

unfoldable pub update_process_state : ℕ → Ptr → Bool → Kernel → Kernel
unfolding unlink_task link_task
update_process_state t dest is_first k =
    let k' = unlink_task t k in
    set_state t (state_in dest) (if dest == null then k' else link_task t dest is_first k')

unfoldable pub update_process_state_rr : ℕ → Ptr → Kernel → Kernel
update_process_state_rr t dest k = update_process_state t dest false k

unfoldable pub add_process_to_scheduling : ℕ → Event → Bool → Kernel → Kernel
add_process_to_scheduling t e is_first k =
    update_stats t e (update_process_state t readyqueue is_first k)

-- `task_switch` and `inner_task_switch`: the running task keeps its stack, `update_TSS` puts the end
-- of the stack of `t` into the TSS, and `current()` is `t`.
unfoldable pub task_switch : ℕ → Context → Kernel → Kernel
task_switch t ctx k =
    let k' = set_task k.current (record (k.tasks k.current) { context = ctx }) k in
    record k' { esp0 = t; current = t }

unfoldable pub next_task : Kernel → ℕ
next_task k =
    if not (list_empty readyqueue k.links)
    then list_head_to_task (list_first readyqueue k.links)
    else k.idle_task

-- the rest of `sched_next_rr`, once the next task is chosen
unfoldable pub dispatch : ℕ → Context → Kernel → Kernel
dispatch t ctx k =
    let k1 = update_stats t ready_to_sys (update_process_state_rr t null k) in
    let k2 = update_stats t current_ticks_updated (record k1 { current_ticks = 0 }) in
    task_switch t ctx k2

unfoldable pub sched_next_rr : Context → Kernel → Kernel
sched_next_rr ctx k = dispatch (next_task k) ctx k

unfoldable pub update_sched_data_rr : Kernel → Kernel
update_sched_data_rr k =
    update_stats k.current current_ticks_updated (record k { current_ticks = k.current_ticks + 1 })

unfoldable pub needs_sched_rr : Kernel → Bool
needs_sched_rr k =
    ((k.current == k.idle_task) && not (list_empty readyqueue k.links))
    || ((k.tasks k.current).st.remaining_ticks == 0)

-- the body of `if(needs_sched_rr())`
unfoldable pub preempt : Kernel → Kernel
preempt k =
    let k' =
      if not (k.current == k.idle_task)
      then update_process_state_rr k.current readyqueue k
      else k in
    sched_next_rr to_user (update_stats k'.current sys_to_ready k')

unfoldable pub execute_scheduling : Kernel → Kernel
execute_scheduling k =
    let k' = update_sched_data_rr k in if needs_sched_rr k' then preempt k' else k'

abbrev pub is_running : State → Bool
is_running st_run = true
is_running _ = false

-- interrupt.c: nothing is scheduled before a process runs. (`zeos_show_clock` is not under src/.)
unfoldable pub clock_routine : Kernel → Kernel
clock_routine k =
    if is_running (k.tasks k.current).state
    then execute_scheduling (record k { zeos_ticks = k.zeos_ticks + 1 })
    else k

unfoldable pub get_quantum : ℕ → Kernel → ℕ
get_quantum t k = (k.tasks t).quantum

-- The statistics that it brings up to date are those of the running process.
unfoldable pub set_quantum : ℕ → ℕ → Kernel → Kernel
set_quantum t new_quantum k =
    let k' = set_task t (record (k.tasks t) { quantum = new_quantum }) k in
    update_stats k'.current quantum_updated k'
