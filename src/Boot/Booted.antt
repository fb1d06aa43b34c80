-- ===== src/Boot/Booted.antt =====
-- The invariant of the kernel holds when `main` has started the first two processes.
use so2_zeos.Prelude.{
  ℕ, ◌+◌, ◌-◌, ◌*◌, ◌≤◌, ◌<◌, ◌≡◌, ◌≢◌, ◌∙◌, sym, refl, ap, Bool, true, false, arith, none, some,
  update,
}
use mathlib.Core.Path.{subst}
use so2_zeos.LinkedList.Queues.{Represents, open_list}
use so2_zeos.Stats.{st_run, st_ready, st_invalid, free_to_ready}
use so2_zeos.Kernel.{in_idle, Kernel, nr_tasks, set_task}
use so2_zeos.Kernel
use so2_zeos.Kernel.Addresses.{free_queue, keyboardqueue}
use so2_zeos.Scheduler.{set_state}
use so2_zeos.Scheduler.Frames.{update_stats-SameKernel, hung-update_stats}
use so2_zeos.Keyboard.{init_keyboard}
use so2_zeos.Directories.{set_mem, set_user_pages, init_mm}
use so2_zeos.Directories.UserPages.{IsUser, set_user_pages-maps, set_user_pages-frames}
use so2_zeos.Memory.{
  Memory, total_pages, num_pag_kernel, num_pag_code, num_pag_data, pag_log_init_code,
  pag_log_init_data,
}
use so2_zeos.Calls.{init_sched}
use so2_zeos.Processes.{allocate_process}
use so2_zeos.Boot.{idle_on, init_idle, null_fault, task1_on, init_task1, boot}
use so2_zeos.Boot.Lists.{no_links}
use so2_zeos.Boot.Started.{started_view, own-started_view, Started, Started-Stocked, started}
use so2_zeos.System.Shape.{nobody, facts, facts-eq, Shape, Sound}
use so2_zeos.System.Moves.{facts-update_stats}
use so2_zeos.System.Counts.{set_user_pages-SameCounts}
use so2_zeos.System.Allocated.{Stocked, Allocated, allocate_new}
use so2_zeos.Boot.Views.{idle_view, running_view, own-idle_view, own-running_view, keyboard_ready}

-- `init_idle` and `init_task1` behind `init_sched`
idle_made :
    (k : Kernel) (h : Bool)
    → Started k h
    → (k1 : Kernel) × (allocate_process none k ≡ (k1, some 0))
      × Allocated k k1 started_view 0 9 true
idle_made k h s = allocate_new k started_view (Started-Stocked k h s) 0 9 _ _ refl refl

-- the kernel when the idle task has been made
abbrev idle_kernel : Kernel → Kernel
idle_kernel k1 =
    set_task 0 (record (k1.tasks 0) { context = in_idle; state = st_ready })
      (record k1 { idle_task = 0 })

idle_Stocked :
    (k k1 : Kernel) → Allocated k k1 started_view 0 9 true → Stocked (idle_kernel k1) idle_view
idle_Stocked k k1 a =
    let own = own-idle_view started_view own-started_view in
    record {
      lists = a.lists;
      head = (own free_queue).1;
      tasks_only = λ b e. ground (arith, own b);
      shape =
          subst (λ f. Shape nobody f idle_view)
            (sym (facts-eq k1 (idle_kernel k1) refl (λ u. ground arith) refl)) a.shape;
    }

first_made :
    (k : Kernel)
    → Stocked k idle_view
    → (k1 : Kernel) × (allocate_process none k ≡ (k1, some 1)) × Allocated k k1 idle_view 1 8 true
first_made k s = allocate_new k idle_view s 1 8 _ _ refl refl

-- the kernel when the first process runs
abbrev first_kernel : Kernel → Kernel
first_kernel k =
    let k1 = record k { mem = set_user_pages 8 k.mem; esp0 = 1; current = 1 } in
    Kernel.update_stats 1 free_to_ready (set_state 1 st_run k1)

first_Sound :
    (k0 k1 k2 : Kernel) (h : Bool)
    → Started k0 h
    → Allocated k0 k1 started_view 0 9 true
    → Allocated (idle_kernel k1) k2 idle_view 1 8 true
    → Sound (init_keyboard (first_kernel k2)) (open_list keyboardqueue running_view)
      × ((first_kernel k2).hung ≡ h)
first_Sound k0 k1 k2 h s a b =
    let k3 =
      set_state 1 st_run (record k2 { mem = set_user_pages 8 k2.mem; esp0 = 1; current = 1 }) in
    let same = update_stats-SameKernel 1 free_to_ready k3 in
    let k4 = first_kernel k2 in
    let f : facts k4 ≡ facts k2 =
      facts-update_stats 1 free_to_ready k3
      ∙ facts-eq k2 k3 refl (λ u. ground arith) (set_user_pages-SameCounts 8 k2.mem) in
    (
      keyboard_ready k4 running_view
          (subst (λ l. Represents l running_view) (sym same.links) b.lists) own-running_view
          (subst (λ x. Shape nobody x running_view) (sym f) b.shape) (same.idle_task ∙ b.idle_task)
          same.current ((same.tasks 1).state) (λ t le lt. (same.tasks t).state ∙ others t le lt),
      hung-update_stats 1 free_to_ready k3 (λ e. cc) ∙ b.hung ∙ a.hung ∙ s.hung,
    )
  where
    others :
        (t : ℕ)
        → 2 ≤ t
        → t < nr_tasks
        → ((set_state 1 st_run
              (record k2 { mem = set_user_pages 8 k2.mem; esp0 = 1; current = 1 })).tasks
            t).state
          ≡ st_invalid
    others t le lt =
        let made : k2.tasks t ≡ (idle_kernel k1).tasks t = b.tasks t (λ e. omega arith) in
        let idle : k1.tasks t ≡ k0.tasks t = a.tasks t (λ e. omega arith) in
        let first : (update k2.tasks 1 (record (k2.tasks 1) { state = st_run }) t).state
            ≡ (k2.tasks t).state =
          ground arith in
        let second : ((idle_kernel k1).tasks t).state ≡ (k1.tasks t).state = ground arith in
        first ∙ ap (λ x. x.state) made ∙ second ∙ ap (λ x. x.state) idle ∙ s.states t lt

-- `init_task1` when its process has a directory
task1_on-first : (k : Kernel) → (k.tasks 1).dir ≡ some 8 → task1_on (k, some 1) ≡ first_kernel k
task1_on-first k e =
    ap
      (λ o. Kernel.update_stats 1 free_to_ready (
        set_state 1 st_run
          (record (elim o [ none ↦ null_fault k | some d ↦ set_mem (set_user_pages d k.mem) k ]) {
            esp0 = 1;
            current = 1;
          })))
      e

-- `boot` is `init_keyboard` on a kernel with the two processes.
boot_first :
    (low high : ℕ) (k : Kernel)
    → k.links ≡ no_links
    → (k1 : Kernel) × (k2 : Kernel) × Allocated
        (init_sched (init_mm low high k))
        k1
        started_view
        0
        9
        true
      × Allocated (idle_kernel k1) k2 idle_view 1 8 true
      × (boot low high k ≡ init_keyboard (first_kernel k2))
unfolding boot init_idle init_task1
boot_first low high k zero_links =
    let k0 = init_sched (init_mm low high k) in
    let s = started low high k zero_links in
    let (k1, e1, a) = idle_made k0 k.hung s in
    let (k2, e2, b) = first_made (idle_kernel k1) (idle_Stocked k0 k1 a) in
    (
      k1,
      k2,
      a,
      b,
      ap (λ r. init_keyboard (task1_on (allocate_process none (idle_on r)))) e1
          ∙ ap (λ r. init_keyboard (task1_on r)) e2
          ∙ ap init_keyboard (task1_on-first k2 b.dir),
    )

-- From a kernel whose lists are zero, `main`, from `init_mm` to `init_keyboard`, reaches the
-- invariant of the kernel with the queues and lists of `running_view`, and hangs only if the kernel
-- did before.
pub boot-Sound :
    (low high : ℕ) (k : Kernel)
    → k.links ≡ no_links
    → Sound (boot low high k) (open_list keyboardqueue running_view)
      × ((boot low high k).hung ≡ k.hung)
unfolding init_keyboard
boot-Sound low high k zero_links =
    let (k1, k2, a, b, e) = boot_first low high k zero_links in
    let k0 = init_sched (init_mm low high k) in
    subst (λ j. Sound j (open_list keyboardqueue running_view) × (j.hung ≡ k.hung)) (sym e)
      (first_Sound k0 k1 k2 k.hung (started low high k zero_links) a b)

-- It is not the idle task that runs then.
pub boot-busy :
    (low high : ℕ) (k : Kernel)
    → k.links ≡ no_links
    → (boot low high k).current ≢ (boot low high k).idle_task
unfolding init_keyboard
boot-busy low high k zero_links =
    let (k1, k2, a, b, e) = boot_first low high k zero_links in
    let k3 =
      set_state 1 st_run (record k2 { mem = set_user_pages 8 k2.mem; esp0 = 1; current = 1 }) in
    let same = update_stats-SameKernel 1 free_to_ready k3 in
    subst (λ (j : Kernel). j.current ≢ j.idle_task) (sym e)
      (λ at. omega (arith, at, same.current, same.idle_task, b.idle_task))

-- The TSS points to the stack of the process that runs.
pub boot-esp0 :
    (low high : ℕ) (k : Kernel)
    → k.links ≡ no_links
    → (boot low high k).esp0 ≡ (boot low high k).current
unfolding init_keyboard
boot-esp0 low high k zero_links =
    let (k1, k2, a, b, e) = boot_first low high k zero_links in
    let k3 =
      set_state 1 st_run (record k2 { mem = set_user_pages 8 k2.mem; esp0 = 1; current = 1 }) in
    let same = update_stats-SameKernel 1 free_to_ready k3 in
    subst (λ (j : Kernel). j.esp0 ≡ j.current) (sym e) (same.esp0 ∙ sym same.current)

-- The process that runs then has a directory in which its pages of code can be read by it, and its
-- pages of data read and written, each in a frame of its own.
pub boot-maps :
    (low high : ℕ) (k : Kernel)
    → k.links ≡ no_links
    → let k' = boot low high k in
      (d : ℕ) × ((k'.tasks k'.current).dir ≡ some d)
      × ((p : ℕ)
          → (pag_log_init_code ≤ p
              → p < pag_log_init_code + num_pag_code
              → IsUser false (k'.mem.page_table d p))
            × (pag_log_init_data ≤ p
                → p < pag_log_init_data + num_pag_data
                → IsUser true (k'.mem.page_table d p))
            × (pag_log_init_code ≤ p
                → p < pag_log_init_data + num_pag_data
                → (k'.mem.page_table d p).pbase_addr
                  ≡ num_pag_kernel + 2 * (p - pag_log_init_code)))
unfolding init_keyboard
boot-maps low high k zero_links =
    let (k1, k2, a, b, e) = boot_first low high k zero_links in
    let k3 =
      set_state 1 st_run (record k2 { mem = set_user_pages 8 k2.mem; esp0 = 1; current = 1 }) in
    let same = update_stats-SameKernel 1 free_to_ready k3 in
    let s = started low high k zero_links in
    let frames = λ (f : ℕ) (lo : num_pag_kernel ≤ f) (hi : f < total_pages).
      ap (λ g. g f) (b.phys_mem ∙ a.phys_mem) ∙ s.frames f lo hi in
    subst
      (λ j.
        (d : ℕ) × ((j.tasks j.current).dir ≡ some d)
        × ((p : ℕ)
            → (pag_log_init_code ≤ p
                → p < pag_log_init_code + num_pag_code
                → IsUser false (j.mem.page_table d p))
              × (pag_log_init_data ≤ p
                  → p < pag_log_init_data + num_pag_data
                  → IsUser true (j.mem.page_table d p))
              × (pag_log_init_code ≤ p
                  → p < pag_log_init_data + num_pag_data
                  → (j.mem.page_table d p).pbase_addr
                    ≡ num_pag_kernel + 2 * (p - pag_log_init_code))))
      (sym e)
      (
        8,
        ap (λ u. ((first_kernel k2).tasks u).dir) same.current ∙ (same.tasks 1).dir ∙ b.dir,
        λ p.
            let maps = set_user_pages-maps 8 k2.mem p in
            let entry : (first_kernel k2).mem.page_table 8 p
                ≡ (set_user_pages 8 k2.mem).page_table 8 p =
              ap (λ (m : Memory). m.page_table 8 p) same.mem in
            (
              λ lo hi. subst (IsUser false) (sym entry) (maps.0 lo hi),
              λ lo hi. subst (IsUser true) (sym entry) (maps.1 lo hi),
              λ lo hi. ap (λ x. x.pbase_addr) entry ∙ set_user_pages-frames 8 k2.mem frames p lo hi,
            ),
      )
