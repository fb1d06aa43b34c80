-- ===== src/Kernel.antt =====
-- The state that the kernel's modules share: include/sched.h, the globals of sched.c, keyboard.c,
-- system.c, and the accesses to them.
-- A task is its index in `tasks`, a semaphore its index in `semaphores`. A pointer to a
-- `list_head` is a number; the constants below stand for the addresses that the linker gives.
pub mod Addresses
use so2_zeos.Prelude.{
  ℕ, ◌+◌, ◌-◌, ◌*◌, Bool, true, false, Option, none, some, List, ◌==◌, if◌then◌else◌, update, ℤ,
}
use so2_zeos.LinkedList.{Ptr, Links}
use so2_zeos.Stats
use so2_zeos.Stats.{Stats, Event, State}
use so2_zeos.Clock.{get_ticks}
use so2_zeos.Memory.{Memory}

-- What a task does when it is switched in again: the frames that it left on its kernel stack.
pub data Context : Type 0 where
  -- it returns from its handler to user mode
  to_user : Context
  -- it goes on in `sys_sem_wait`, behind `sched_next_rr()`
  in_sem_wait : Context
  -- it goes on in `sys_read_keyboard`, behind `block_in_read`: `size` bytes are to be read of
  -- `total`, and `got` stands at the start of the user's `buffer`
  in_read : (buffer total size : ℕ) (got : List ℕ) → Context
  -- a new process: it returns 0 from `ret_from_fork` to user mode
  in_fork : Context
  -- a new thread: it starts at `function` in user mode, on the stack `stack - 4`, where the address
  -- of `exit_func` stands
  in_clone : (function stack exit_func : ℕ) → Context
  -- `cpu_idle`, with interrupts on
  in_idle : Context
  -- it has exited: its stack is used no more
  exited : Context

-- `struct task_struct`; its two `list_head`s are in `links`
pub record Task : Type 0 where
  pub pid : ℕ
  pub state : State
  pub quantum : ℕ
  pub st : Stats
  pub sem_deleted : Bool
  -- `dir_pages_baseAddr`: the index of the directory, `none` is NULL
  pub dir : Option ℕ
  pub heap_top : ℕ
  -- the stack at `kernel_esp`
  pub context : Context

-- `struct semaphore`; `count` is the 32-bit pattern of the `int`
pub record Semaphore : Type 0 where
  pub used : Bool
  pub count : ℕ
  pub owner : ℕ

-- the globals of keyboard.c
pub record Keyboard : Type 0 where
  pub buffer : ℕ → ℕ
  pub buff_from : ℕ
  pub buff_to : ℕ
  pub remaining_to_read : ℤ

pub record Kernel : Type 0 where
  pub links : Links
  pub tasks : ℕ → Task
  pub semaphores : ℕ → Semaphore
  pub last_pid : ℕ
  pub current_ticks : ℕ
  pub zeos_ticks : ℕ
  -- the task whose kernel stack `%esp` points into, which `current()` computes
  pub current : ℕ
  pub idle_task : ℕ
  pub keyboard : Keyboard
  pub mem : Memory
  -- the readings of the time-stamp counter, high and low half, and how many have been made
  pub tsc : ℕ → ℕ × ℕ
  pub readings : ℕ
  -- `tss.esp0`, as the task at the end of whose stack it points
  pub esp0 : ℕ
  -- the kernel has entered the `while(1)` of `update_stats`, or one of those of `pf_rsi` by a NULL
  -- of its own, with interrupts off, or a loop over a list that does not end: nothing runs any
  -- more
  pub hung : Bool
  -- It has entered a `while(1)` of `pf_rsi` by an address that the user has used or passed to it. What
  -- a definition still does to the record behind that is no run of the program.
  pub halted : Bool

abbrev pub nr_tasks : ℕ
nr_tasks = 10

abbrev pub nr_semaphores : ℕ
nr_semaphores = 20

abbrev pub default_quantum : ℕ
default_quantum = 100

-- `tasks[t] = f(tasks[t])`
abbrev pub set_task : ℕ → Task → Kernel → Kernel
set_task t x k = record k { tasks = update k.tasks t x }

abbrev pub set_links : Links → Kernel → Kernel
set_links l k = record k { links = l }

-- what `get_ticks()` returns now
abbrev pub ticks_now : Kernel → ℕ
ticks_now k = get_ticks (k.tsc k.readings).0 (k.tsc k.readings).1

-- whether `update_stats` reads the clock at this event
abbrev pub reads_clock : Event → Bool
reads_clock Event.quantum_updated = false
reads_clock Event.current_ticks_updated = false
reads_clock _ = true

-- The result of the update of one process's statistics, put back. `none` is the `while(1)`.
abbrev pub put_stats : ℕ → Option Stats → Kernel → Kernel
put_stats t none k = record k { hung = true }
put_stats t (some s) k = set_task t (record (k.tasks t) { st = s }) k

-- `update_stats(&tasks[t], e)`
unfoldable pub update_stats : ℕ → Event → Kernel → Kernel
update_stats t e k =
    let x = k.tasks t in
    put_stats t (Stats.update_stats e x.state x.quantum k.current_ticks (ticks_now k) x.st)
      (record k { readings = if reads_clock e then k.readings + 1 else k.readings })
