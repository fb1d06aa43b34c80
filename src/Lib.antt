-- ===== src/Lib.antt =====
-- ZeOS: a small multiprocess kernel for a 32-bit Intel machine (repository GonMolon/SO2-ZEOS).
-- Each module below models a part of it, and its child modules prove that part.
--
-- LinkedList: list.c and include/list.h, at the level of pointers. `Links` holds the `next` and
--   `prev` of every `struct list_head`; LinkedList/Queues relates it to a `View`, the plain lists.
-- Clock: `get_ticks` and `do_div` of utils.c.  Stats: stats.c, one process's times.
-- Kernel: the state that all share (include/sched.h and the globals of sched.c, keyboard.c), one
--   record; a task, a semaphore or a directory is its index. Kernel/Addresses gives each
--   `list_head` of the kernel a number for its address, and `list_entry` subtracts.
-- Scheduler: the scheduling half of sched.c, and `clock_routine` of interrupt.c.
-- Semaphores: the `sys_sem_*` calls of sys.c.  Keyboard: keyboard.c.
-- Memory: frames, page tables and copy on write of mm.c, and what `pf_rsi` of sys.c does to them.
-- Faults: `pf_rsi` whole, and the stores of the kernel to the user's memory, which may raise faults.
-- Heap: `sys_sbrk` of sys.c.  AccessOk: `access_ok` of utils.c.  Interrupts: the gates of interrupt.c.
-- Calls: `sys_read` and the calls of sys.c that only read, and `init_sched` of sched.c.
-- Directories: the page directories of mm.c and the pages of a process.  Processes: fork, clone and
--   exit, `allocate_process` and `free_process` (sys.c, sched.c).  Boot: `init_idle`, `init_task1`
--   and `main` (system.c) from `init_mm` to `init_keyboard`.  Libc: libc.c.
-- Segments: `setGdt` and `setTSS` of mm.c.  Main: `main` of system.c, from `setGdt` to the jump into
--   user mode, on a record `Machine` of the kernel and the tables of the processor.
-- System: the invariant of the whole kernel (System/Shape), each call and interrupt against it, and
--   the step relation `Step` with the states that it reaches (System/Steps). The invariant says
--   what each queue, each list of semaphores and each directory holds; Boot/Booted is its start.
-- Console: io.c, devices.c and `sys_write` of sys.c.  CopyData: the copying of utils.c.
--
-- The scheduler, the semaphores and the keyboard act on the record `Kernel`, through `update_stats`
-- and `update_process_state`; these use the list operations on its `links`. A C function that
-- changes globals takes the record and returns the new one, with its result beside it. A call that
-- loses the CPU (`sched_next_rr`) ends there in the model: what the process does when it runs again
-- is its `Context`, and the function for it stands next to the call (`resume_sem_wait`,
-- `read_on`). `current()` is the field `current`, which `task_switch` changes, and `init_task1` sets.
--
-- `unsigned long` is taken modulo 2 ^ 32 and bytes modulo 256; PIDs and indices do not reach their
-- limits. `while(1)` sets the field `hung`, or `halted` for those of `pf_rsi`, or is a result of its
-- own (`Fault`, `none`). Loops over linked lists run on fuel: 11 rounds for the at most 10 tasks of a
-- queue, 21 for the at most 20 semaphores of a task, and one to see the head again; a loop that runs
-- out of it sets `hung`. The search for a frame has 384 rounds, all of its candidates; `sys_write` has
-- size / 256 + 1, which covers the size. `itoa` has as many rounds as the number, which has no more
-- digits.
--
-- The user's memory is that of the frames (`frame_data`): the stores of `read`, `get_stats` and `clone`
-- go through the page table of the process, and fault on a page that is not there; cr0 has no WP, so a
-- page that is read-only for the user takes them. `sys_write` reads memory that is an argument, with
-- which reads come back. `tss.esp0` is the task whose stack it points into.
--
-- Not modelled: registers, stacks, the TLB, port input (a scan code is an argument), the
-- time-stamp counter (its readings are part of the state), assembly, the moving of the user image,
-- the binary libraries, build.c. The words of a new process's kernel stack are its `Context`.
mod Prelude
pub mod LinkedList
pub mod Clock
pub mod Stats
pub mod Memory
pub mod Kernel
pub mod Faults
pub mod Scheduler
pub mod Semaphores
pub mod Keyboard
pub mod Console
pub mod CopyData
pub mod Interrupts
pub mod Segments
pub mod Main
pub mod AccessOk
pub mod Heap
pub mod Calls
pub mod Directories
pub mod Processes
pub mod Boot
pub mod Libc
pub mod System
mod Tests
