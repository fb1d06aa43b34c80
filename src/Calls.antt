-- ===== src/Calls.antt =====
-- The system calls that only read, or that pass on to a device: `sys_read`, `sys_get_stats`,
-- `sys_getpid`, `sys_gettime` and `sys_ni_syscall` of sys.c; `update_entering_sys` and
-- `update_leaving_sys` of stats.c; and `init_sched` of sched.c.
use so2_zeos.Prelude.{
  ℕ, zero, suc, ◌+◌, Bool, true, false, not, ◌||◌, Option, none, some, List, ◌++◌, ◌==◌,
  if◌then◌else◌, ℤ, pos, negsuc, neg, is_neg,
}
use so2_zeos.LinkedList.{init_list_head}
use so2_zeos.Stats.{
  Stats, State, st_ready, st_blocked, st_invalid, refresh, user_to_sys, sys_to_user,
}
use so2_zeos.Kernel.{Kernel, update_stats, set_links, nr_tasks, nr_semaphores}
use so2_zeos.Kernel.Addresses.{free_queue, readyqueue}
use so2_zeos.Scheduler.{update_process_state_rr}
use so2_zeos.Semaphores.{set_semaphore}
use so2_zeos.Faults.{store_bytes, dword_bytes}
use so2_zeos.Keyboard.{sys_read_keyboard}
use so2_zeos.Console.{check_fd, read_operation, efault, einval}
use so2_zeos.AccessOk.{access_ok, verify_write}

unfoldable pub update_entering_sys : Kernel → Kernel
update_entering_sys k = update_stats k.current user_to_sys k

unfoldable pub update_leaving_sys : Kernel → Kernel
update_leaving_sys k = update_stats k.current sys_to_user k

unfoldable pub sys_ni_syscall : ℤ
sys_ni_syscall = neg 38

unfoldable pub sys_getpid : Kernel → ℕ
sys_getpid k = (k.tasks k.current).pid

unfoldable pub sys_gettime : Kernel → ℕ
sys_gettime k = k.zeos_ticks

-- What a read ends with: an error, the keys and their number, or `blocked`, the loss of the CPU.
pub data ReadResult : Type 0 where
  error : ℤ → ReadResult
  got_keys : ℕ → List ℕ → ReadResult
  blocked : ReadResult

abbrev pub read_result : Option (ℕ × List ℕ) → ReadResult
read_result none = blocked
read_result (some (n, keys)) = got_keys n keys

-- behind `check_fd`
unfoldable pub read_checked : (buffer : ℕ) → ℤ → Kernel → Kernel × ReadResult
read_checked buffer (negsuc n) k = if buffer == 0 then (k, error efault) else (k, error einval)
read_checked buffer (pos size) k =
    if (buffer == 0) || not (access_ok verify_write buffer size (k.tasks k.current).heap_top)
    then (k, error efault)
    else let (k', r) = sys_read_keyboard buffer size k in (k', read_result r)

unfoldable pub sys_read : ℤ → ℕ → ℤ → Kernel → Kernel × ReadResult
unfolding read_checked
sys_read fd buffer size k =
    if is_neg (check_fd fd read_operation)
    then (k, error (check_fd fd read_operation))
    else read_checked buffer size k

abbrev pub waits : State → Bool
waits st_ready = true
waits st_blocked = true
waits _ = false

abbrev pub is_invalid : State → Bool
is_invalid st_invalid = true
is_invalid _ = false

-- ESRCH of include/errno.h
abbrev pub esrch : ℤ
esrch = neg 3

-- `struct stats` in memory
abbrev pub stats_bytes : Stats → List ℕ
stats_bytes s =
    dword_bytes s.user_ticks
    ++ (dword_bytes s.system_ticks
        ++ (dword_bytes s.blocked_ticks
            ++ (dword_bytes s.ready_ticks
                ++ (dword_bytes s.elapsed_total_ticks
                    ++ (dword_bytes s.total_trans ++ dword_bytes s.remaining_ticks)))))

-- the body of `if(tasks[i].task.PID == pid)`, with `*st = tasks[i].task.st`
unfoldable pub stats_of : (st i : ℕ) → Kernel → Kernel × ℤ
stats_of st i k =
    let s = (k.tasks i).state in
    if is_invalid s
    then (k, esrch)
    else let k' = if waits s then update_stats i refresh k else k in
      (store_bytes st (stats_bytes (k'.tasks i).st) k', pos 0)

-- the loop from task `i` on; the fuel is the rounds left
unfoldable pub search_pid : (st rounds i pid : ℕ) → Kernel → Kernel × ℤ
unfolding stats_of
search_pid st zero i pid k = (k, esrch)
search_pid st (suc rounds) i pid k =
    let rest = search_pid st rounds (i + 1) pid k in
    if (k.tasks i).pid == pid then stats_of st i k else rest

-- 28 is `sizeof(struct stats)`.
unfoldable pub sys_get_stats : ℤ → (st : ℕ) → Kernel → Kernel × ℤ
unfolding search_pid
sys_get_stats (negsuc n) st k = (k, einval)
sys_get_stats (pos pid) st k =
    if (st == 0) || not (access_ok verify_write st 28 (k.tasks k.current).heap_top)
    then (k, efault)
    else search_pid st nr_tasks 0 pid k

-- the first loop of `init_sched`, from task `i` on
unfoldable pub free_tasks : (rounds i : ℕ) → Kernel → Kernel
free_tasks zero i k = k
free_tasks (suc rounds) i k = free_tasks rounds (i + 1) (update_process_state_rr i free_queue k)

-- its second loop
unfoldable pub clear_semaphores : (rounds n : ℕ) → Kernel → Kernel
clear_semaphores zero n k = k
clear_semaphores (suc rounds) n k =
    clear_semaphores rounds (n + 1)
      (set_semaphore n (record (k.semaphores n) { used = false; count = 0 }) k)

unfoldable pub init_sched : Kernel → Kernel
unfolding free_tasks clear_semaphores
init_sched k =
    let k1 = record k { current_ticks = 0; last_pid = 0 } in
    let k2 = set_links (init_list_head readyqueue (init_list_head free_queue k1.links)) k1 in
    clear_semaphores nr_semaphores 0 (free_tasks nr_tasks 0 k2)
