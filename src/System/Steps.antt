-- ===== src/System/Steps.antt =====
-- The steps of the kernel, and what holds in every state that they reach.
use so2_zeos.Prelude.{ℕ, ◌≡◌, ◌≢◌, refl, ◌∙◌, List, ℤ}
use so2_zeos.LinkedList.Queues.{View}
use so2_zeos.Faults.{pf_rsi}
use so2_zeos.Kernel.{in_read, in_sem_wait, Kernel}
use so2_zeos.Stats.{user_to_sys, sys_to_user}
use so2_zeos.Scheduler.{clock_routine, set_quantum}
use so2_zeos.Keyboard.{keyboard_routine, read_on}
use so2_zeos.Semaphores.{sem_init, sem_wait, resume_sem_wait, sem_signal, sem_destroy}
use so2_zeos.Calls.{update_entering_sys, update_leaving_sys, sys_read, sys_get_stats}
use so2_zeos.Heap.{sys_sbrk}
use so2_zeos.Processes.{sys_exit, sys_fork, sys_clone}
use so2_zeos.System.Shape.{Sound}
use so2_zeos.System.Moves.{IsSound}
use so2_zeos.System.Interrupts.{Keeps, clock_routine-Keeps}
use so2_zeos.System.Typing.{keyboard_routine-Keeps}
use so2_zeos.System.SemCalls.{sem_wait-Keeps, sem_signal-Keeps}
use so2_zeos.System.SemLife.{sem_init-Keeps, sem_destroy-Keeps}
use so2_zeos.System.Reads.{
  read_on-Keeps, sys_read-Keeps, update_stats-Keeps, resume_sem_wait-Keeps, pf_rsi-Keeps,
  set_quantum-Keeps,
}
use so2_zeos.System.Creation.{sys_fork-Keeps, sys_clone-Keeps}
use so2_zeos.System.Exit.{sys_exit-Keeps}
use so2_zeos.System.Queries.{sys_get_stats-Keeps, sys_sbrk-Keeps}

-- An interrupt, a page fault at any address, with whatever comes of it, a call that the running
-- process makes with any arguments, the rest of a call that had lost the CPU, or the entry and the
-- exit of a call. The idle task makes no calls that block. The page faults of the kernel's own stores
-- to the user's memory are part of the calls.
pub data Step (k : Kernel) : Kernel → Type 0 where
  clock : Step k (clock_routine k)
  key : (value : ℕ) → Step k (keyboard_routine value k)
  enter : Step k (update_entering_sys k)
  leave : Step k (update_leaving_sys k)
  init : (n : ℤ) (value : ℕ) → Step k (sem_init n value k).0
  wait : (n : ℤ) → k.current ≢ k.idle_task → Step k (sem_wait n k).0
  wait_resumed : (k.tasks k.current).context ≡ in_sem_wait → Step k (resume_sem_wait k).0
  signal : (n : ℤ) → Step k (sem_signal n k).0
  destroy : (n : ℤ) → Step k (sem_destroy n k).0
  read :
      (fd : ℤ) (buffer : ℕ) (size : ℤ)
      → k.current ≢ k.idle_task
      → Step k (sys_read fd buffer size k).0
  read_resumed :
      (buffer total size : ℕ) (got : List ℕ)
      → (k.tasks k.current).context ≡ in_read buffer total size got
      → k.current ≢ k.idle_task
      → Step k (read_on buffer total size got k).0
  get_stats : (pid : ℤ) (st : ℕ) → Step k (sys_get_stats pid st k).0
  quantum : (t q : ℕ) → Step k (set_quantum t q k)
  sbrk : (d increment : ℕ) → Step k (sys_sbrk d increment k).0
  exit : k.current ≢ k.idle_task → Step k (sys_exit k)
  fork : Step k (sys_fork k).0
  clone : (function stack exit_func : ℕ) → Step k (sys_clone function stack exit_func k).0
  fault : (address : ℕ) → Step k (pf_rsi address k)

pub data Reach (k : Kernel) : Kernel → Type 0 where
  here : Reach k k
  next : {k' k'' : Kernel} → Reach k k' → Step k' k'' → Reach k k''

-- Every step keeps the invariant, and hangs nothing.
pub Step-Keeps : {k k' : Kernel} → Step k k' → (v : View) → Sound k v → Keeps k k'
unfolding update_entering_sys update_leaving_sys
Step-Keeps {k} clock v s = clock_routine-Keeps k v s
Step-Keeps {k} (key value) v s = keyboard_routine-Keeps value k v s
Step-Keeps {k} enter v s = update_stats-Keeps k.current user_to_sys k v s (λ e. cc)
Step-Keeps {k} leave v s = update_stats-Keeps k.current sys_to_user k v s (λ e. cc)
Step-Keeps {k} (init n value) v s = sem_init-Keeps n value k v s
Step-Keeps {k} (wait n busy) v s = sem_wait-Keeps n k v s busy
Step-Keeps {k} (wait_resumed ctx) v s = resume_sem_wait-Keeps k v s
Step-Keeps {k} (signal n) v s = sem_signal-Keeps n k v s
Step-Keeps {k} (destroy n) v s = sem_destroy-Keeps n k v s
Step-Keeps {k} (read fd buffer size busy) v s = sys_read-Keeps fd buffer size k v s busy
Step-Keeps {k} (read_resumed buffer total size got ctx busy) v s =
    read_on-Keeps buffer total size got k v s busy
Step-Keeps {k} (get_stats pid st) v s = sys_get_stats-Keeps pid st k v s
Step-Keeps {k} (quantum t q) v s = set_quantum-Keeps t q k v s
Step-Keeps {k} (sbrk d increment) v s = sys_sbrk-Keeps d increment k v s
Step-Keeps {k} (exit busy) v s = sys_exit-Keeps k v s busy
Step-Keeps {k} fork v s = sys_fork-Keeps k v s
Step-Keeps {k} (clone function stack exit_func) v s = sys_clone-Keeps k v s function stack exit_func
Step-Keeps {k} (fault address) v s = pf_rsi-Keeps address k v s

-- In every state that the kernel reaches by clock and keyboard interrupts, by forks, new threads and
-- exits, by calls on semaphores, reads, queries and changes of the heap, and by page faults at any
-- address, resolved or not, in any order, from one where the invariant holds, it holds again: every
-- process is in the queue that its state names, one process runs, the lists of the semaphores are in
-- order, a semaphore whose count is not 0 has nobody blocked, and each directory counts its processes
-- and is free exactly if it has none. But for the loops of `pf_rsi` on a fault that it does not
-- resolve, which set `halted`, the kernel enters a `while(1)` only if it had.
pub Reach-Sound :
    {k k' : Kernel} (v : View) → Sound k v → Reach k k' → IsSound k' × (k'.hung ≡ k.hung)
Reach-Sound v s here = ((v, s), refl)
Reach-Sound v s (next r st) =
    let (found, same) = Reach-Sound v s r in
    let after = Step-Keeps st found.0 found.1 in (after.0, after.1 ∙ same)
