-- ===== src/Boot.antt =====
-- How the kernel starts: `init_idle` and `init_task1` of sched.c, and the part of `main` in system.c
-- behind the descriptor tables. Registers, the user image that `copy_data` moves, and the messages
-- are not modelled.
pub mod Lists
pub mod Started
pub mod Views
pub mod Booted
use so2_zeos.Prelude.{ℕ, true, Option, none, some}
use so2_zeos.Stats.{st_run, st_ready, free_to_ready}
use so2_zeos.Kernel.{in_idle, Kernel, set_task, update_stats}
use so2_zeos.Scheduler.{set_state}
use so2_zeos.Keyboard.{init_keyboard}
use so2_zeos.Calls.{init_sched}
use so2_zeos.Directories.{set_mem, init_mm, set_user_pages}
use so2_zeos.Processes.{allocate_process}

-- A write through NULL faults: the handler of page faults loops for ever.
abbrev pub null_fault : Kernel → Kernel
null_fault k = record k { hung = true }

-- `init_idle` with the result of `allocate_process`
abbrev pub idle_on : Kernel × Option ℕ → Kernel
idle_on (k, none) = null_fault k
idle_on (k, some t) =
    set_task t (record (k.tasks t) { context = in_idle; state = st_ready })
      (record k { idle_task = t })

unfoldable pub init_idle : Kernel → Kernel
init_idle k = idle_on (allocate_process none k)

-- `set_user_pages(task)`
abbrev pub user_pages_of : ℕ → Kernel → Kernel
user_pages_of t k = elim (k.tasks t).dir [
  | none ↦ null_fault k
  | some d ↦ set_mem (set_user_pages d k.mem) k
]

-- `init_task1` with the result of `allocate_process`. `update_TSS` puts the end of its stack into the
-- TSS: it is the task whose stack the kernel runs on, and so `current()`, from the first entry on.
abbrev pub task1_on : Kernel × Option ℕ → Kernel
task1_on (k, none) = null_fault k
task1_on (k, some t) =
    let k1 = user_pages_of t k in
    update_stats t free_to_ready (set_state t st_run (record k1 { esp0 = t; current = t }))

unfoldable pub init_task1 : Kernel → Kernel
init_task1 k = task1_on (allocate_process none k)

-- `main`, from `init_mm` to `init_keyboard`; `low` and `high` are the pages around the tasks.
unfoldable pub boot : (low high : ℕ) → Kernel → Kernel
unfolding init_idle init_task1
boot low high k = init_keyboard (init_task1 (init_idle (init_sched (init_mm low high k))))
