-- ===== src/System/Creation.antt =====
-- `sys_fork` and `sys_clone` keep the invariant.
use so2_zeos.Prelude.{
  ℕ, ◌+◌, ◌-◌, ◌%◌, ◌^◌, ◌<◌, ◌≡◌, ◌≢◌, ◌∙◌, ◌||◌, not, sym, refl, ap, inl, inr, Bool, true, false,
  ◌==◌, arith, Bool-cases, Option, none, some, List, [], ◌∷◌, has,
}
use mathlib.Core.Path.{subst}
use so2_zeos.LinkedList.{Ptr, null}
use so2_zeos.LinkedList.Queues.{View, Represents}
use so2_zeos.Stats.{free_to_ready}
use so2_zeos.Kernel.{in_fork, in_clone, Kernel, nr_tasks, set_task}
use so2_zeos.Kernel.Addresses.{free_queue, free_dirs, readyqueue, anchor, dir_anchor}
use so2_zeos.Scheduler.{state_in, update_process_state, add_process_to_scheduling}
use so2_zeos.Scheduler.Consistent.{Queued, QueuedBut, moved}
use so2_zeos.Scheduler.Moves.{update_process_state-QueuedBut}
use so2_zeos.Scheduler.Dispatch.{update_stats-Queued}
use so2_zeos.Scheduler.Wakeup.{hung-add_process_to_scheduling, add_process_to_scheduling-Kept}
use so2_zeos.AccessOk.{access_ok, verify_write}
use so2_zeos.Faults.{store_bytes, dword_bytes}
use so2_zeos.Faults.Stores.{store_bytes-SameButMem}
use so2_zeos.Directories.{set_mem}
use so2_zeos.Processes.{
  inherit_pages, inherit_memory, allocate_process, fork_into, forked, sys_fork, clone_into, cloned,
  sys_clone,
}
use so2_zeos.System.Counts.{inherit_pages-SameCounts}
use so2_zeos.System.Shape.{nobody, facts, facts-eq, Shape, Sound, ready-Place, Shape-moved}
use so2_zeos.System.Moves.{first-Waiting, facts-add_process_to_scheduling}
use so2_zeos.System.Interrupts.{Keeps}
use so2_zeos.System.Allocate.{given_view}
use so2_zeos.System.Allocated.{
  Stocked, Allocated, allocate_new, allocate_thread, allocate_none, allocate_no_dir,
}

pub Sound-Stocked : (k : Kernel) (v : View) → Sound k v → Stocked k v
Sound-Stocked k v s = record {
  lists = s.consistent.queued.lists;
  head = s.consistent.queued.heads.0;
  tasks_only = s.consistent.queued.tasks_only;
  shape = s.shape;
}

-- A new process, once its memory is there, is made ready.
module _ (k k1 k2 : Kernel) (v : View) (t d : ℕ) (taken : Bool) (s : Sound k v)
    (a : Allocated k k1 v t d taken) (links : k2.links ≡ k1.links)
    (states : (u : ℕ) → u ≢ t → (k2.tasks u).state ≡ (k1.tasks u).state)
    (idle : k2.idle_task ≡ k1.idle_task) (current : k2.current ≡ k1.current)
    (hung : k2.hung ≡ k1.hung) (same_facts : facts k2 ≡ facts k1) where
  abbrev new_view : View
  new_view = given_view t d taken v

  idle_kept : k2.idle_task ≡ k.idle_task
  idle_kept = idle ∙ a.idle_task

  stays : (u : ℕ) → u < nr_tasks → u ≢ t → new_view.own (anchor u) ≡ v.own (anchor u)
  stays u l ne = ground arith

  not_idle : t ≢ k.idle_task
  not_idle e = ground (arith, s.consistent.queued.idle, a.free)

  not_current : k.current ≢ t
  not_current e = ground (arith, s.consistent.on_cpu, a.free)

  new-QueuedBut : QueuedBut t k2 new_view
  new-QueuedBut =
      let q = s.consistent.queued in
      record {
        lists = subst (λ l. Represents l new_view) (sym links) a.lists;
        heads = ground (arith, q.heads);
        nodes = λ u l. ground (arith, q.nodes u l, a.range);
        states = λ u l ne other.
            states u other
            ∙ ap (λ x. x.state) (a.tasks u other)
            ∙ q.states u l (λ e. ne (e ∙ sym idle_kept))
            ∙ ap state_in (sym (stays u l other));
        idle =
            rw idle_kept (q.idle.0, stays k.idle_task q.idle.0 (λ e. not_idle (sym e)) ∙ q.idle.1);
        tasks_only = λ b e. ground (arith, q.tasks_only b);
      }

  abbrev ready_view : View
  ready_view = moved (anchor t) readyqueue false new_view

  abbrev ready_kernel : Kernel
  ready_kernel = add_process_to_scheduling t free_to_ready false k2

  new-Queued : Queued ready_kernel ready_view
  unfolding add_process_to_scheduling
  new-Queued =
      let q = new-QueuedBut in
      update_stats-Queued t free_to_ready (update_process_state t readyqueue false k2) ready_view (
        update_process_state-QueuedBut t readyqueue false k2 new_view q a.range
          (inr (record { head = q.heads.1; queue = refl }, λ e. not_idle (e ∙ idle_kept))))

  pub made_ready : Sound ready_kernel ready_view × (ready_kernel.hung ≡ k.hung)
  made_ready =
      let c = s.consistent in
      let same = add_process_to_scheduling-Kept t free_to_ready false k2 in
      let runs : ready_kernel.current ≡ k.current = same.current ∙ current ∙ a.current in
      (
        record {
          consistent = record {
            queued = new-Queued;
            on_cpu = rw runs (
              c.on_cpu.0,
              ground (arith, stays k.current c.on_cpu.0 not_current, c.on_cpu, not_current),
            );
            only = λ u l ne out.
                let other : u ≢ t = λ e. ground (arith, e) in
                let old : v.own (anchor u) ≡ null = ground (arith, stays u l other) in
                c.only u l (λ e. ne (e ∙ sym (same.idle_task ∙ idle_kept))) old ∙ sym runs;
          };
          keyboard = ground (arith, s.keyboard);
          shape =
              subst (λ f. Shape nobody f ready_view)
                (sym (facts-add_process_to_scheduling t free_to_ready false k2 ∙ same_facts))
                (Shape-moved nobody (facts k1) new_view t readyqueue false a.shape a.range
                  (ground arith) (ready-Place (facts k1)));
        },
        hung-add_process_to_scheduling t free_to_ready false k2 (λ e. cc) ∙ hung ∙ a.hung,
      )

-- `fork_into` once the directories of both processes are known
fork_ready :
    (k k1 k2 : Kernel) (v : View) (t d parent top : ℕ) (taken : Bool) (from_dir to_dir : Option ℕ)
    → Sound k v
    → Allocated k k1 v t d taken
    → k2.links ≡ k1.links
    → ((u : ℕ) → u ≢ t → (k2.tasks u).state ≡ (k1.tasks u).state)
    → k2.idle_task ≡ k1.idle_task
    → k2.current ≡ k1.current
    → k2.hung ≡ k1.hung
    → facts k2 ≡ facts k1
    → from_dir ≡ some parent
    → to_dir ≡ some d
    → Keeps k
        (add_process_to_scheduling t free_to_ready false (inherit_memory from_dir to_dir top k2))
unfolding inherit_memory
fork_ready k k1 k2 v t d parent top taken from_dir to_dir s a l st i c h f p q =
    let m = inherit_pages parent d top k2.mem in
    let k3 = set_mem m k2 in
    let same = facts-eq k2 k3 refl (λ u. refl) (inherit_pages-SameCounts parent d top k2.mem) in
    let r = made_ready k k1 k3 v t d taken s a l st i c h (same ∙ f) in rw (p, q) ((_, r.0), r.1)

module _ (k : Kernel) (v : View) (s : Sound k v) where
  stocked : Stocked k v
  stocked = Sound-Stocked k v s

  -- the directory of the process that calls
  caller_dir : (d : ℕ) × (d < nr_tasks) × ((k.tasks k.current).dir ≡ some d)
  caller_dir =
      let cpu = s.consistent.on_cpu in s.shape.dirs.live k.current cpu.0 (ground (arith, cpu))

  fork_into-Keeps :
      (k1 : Kernel) (t d : ℕ) (taken : Bool) → Allocated k k1 v t d taken → Keeps k (fork_into t k1)
  unfolding fork_into
  fork_into-Keeps k1 t d taken a =
      let parent = k1.tasks k1.current in
      let k2 =
        set_task t
          (record (k1.tasks t) {
            quantum = parent.quantum;
            heap_top = parent.heap_top;
            context = in_fork;
          })
          k1 in
      let (e, lt, at) = caller_dir in
      let other : k1.current ≢ t = λ w. ground (arith, s.consistent.on_cpu, a.free, a.current, w) in
      let mine : parent.dir ≡ some e =
        ap (λ x. x.dir) (a.tasks k1.current other) ∙ ap (λ u. (k.tasks u).dir) a.current ∙ at in
      fork_ready k k1 k2 v t d e parent.heap_top taken parent.dir (k1.tasks t).dir s a refl
        (λ u ne. ground arith) refl refl refl (facts-eq k1 k2 refl (λ u. ground arith) refl) mine
        a.dir

  clone_into-Keeps :
      (function stack exit_func : ℕ) (k1 : Kernel) (t d : ℕ) (taken : Bool)
      → Allocated k k1 v t d taken
      → Keeps k (clone_into function stack exit_func t k1)
  unfolding clone_into
  clone_into-Keeps function stack exit_func k1 t d taken a =
      let k2 =
        set_task t
          (record (k1.tasks t) {
            quantum = (k1.tasks k1.current).quantum;
            context = in_clone function stack exit_func;
          })
          k1 in
      let top = (stack + 2 ^ 32 - 4) % 2 ^ 32 in
      let k3 = store_bytes top (dword_bytes exit_func) k2 in
      let m = store_bytes-SameButMem top (dword_bytes exit_func) k2 in
      let r =
        made_ready k k1 k3 v t d taken s a m.links
          (λ u ne. ap (λ f. (f u).state) m.tasks ∙ ground arith) m.idle_task m.current m.hung
          (facts-eq k2 k3 m.semaphores (λ u. ap (λ f. (f u).dir) m.tasks) m.dir_count
            ∙ facts-eq k1 k2 refl (λ u. ground arith) refl) in
      ((_, r.0), r.1)

  first_free : (x : Ptr) (xs : List Ptr) → v.items free_queue ≡ x ∷ xs → anchor (x - 100) ≡ x
  first_free x xs e = (first-Waiting free_queue x xs k v s.consistent.queued stocked.head refl e).at

  first_free_dir : (y : Ptr) (ys : List Ptr) → v.items free_dirs ≡ y ∷ ys → dir_anchor (y - 500) ≡ y
  first_free_dir y ys e =
      let m : has y (y ∷ ys) ≡ (v.own y == free_dirs) =
        rw e at (stocked.lists.member free_dirs y s.shape.dirs_head) in
      let b = s.shape.dirs_only y (ground (arith, m)) in omega arith

  pub sys_fork-Keeps : Keeps k (sys_fork k).0
  unfolding sys_fork
  sys_fork-Keeps = go (v.items free_queue) (v.items free_dirs) refl refl
    where
      go :
          (ts ds : List Ptr)
          → v.items free_queue ≡ ts
          → v.items free_dirs ≡ ds
          → Keeps k (forked (allocate_process none k)).0
      go [] ds et ed = rw (allocate_none k v stocked none et) ((v, s), refl)
      go (x ∷ ts) [] et ed = rw (allocate_no_dir k v stocked ed) ((v, s), refl)
      go (x ∷ ts) (y ∷ ds) et ed =
          let ax = first_free x ts et in
          let ay : dir_anchor (y - 500) ≡ y = first_free_dir y ds ed in
          let (k1, e, a) =
            allocate_new k v stocked (x - 100) (y - 500) ts ds (rw ax et) (rw ay ed) in
          rw e (fork_into-Keeps k1 (x - 100) (y - 500) true a)

  pub sys_clone-Keeps :
      (function stack exit_func : ℕ) → Keeps k (sys_clone function stack exit_func k).0
  unfolding sys_clone
  sys_clone-Keeps function stack exit_func =
      let top = (k.tasks k.current).heap_top in
      elim (Bool-cases
        (not (access_ok verify_write function 4 top) || not (access_ok verify_write stack 4 top))) [
          | inl bad ↦ rw bad ((v, s), refl)
          | inr fine ↦ rw fine (go (v.items free_queue) refl)
        ]
    where
      go :
          (ts : List Ptr)
          → v.items free_queue ≡ ts
          → Keeps k (cloned function stack exit_func (allocate_process (k.tasks k.current).dir k)).0
      go [] et = rw (allocate_none k v stocked (k.tasks k.current).dir et) ((v, s), refl)
      go (x ∷ ts) et =
          let cpu = s.consistent.on_cpu in
          let (d, lt, at) = caller_dir in
          let (k1, e, a) =
            allocate_thread k v stocked (x - 100) d k.current ts (rw (first_free x ts et) et) cpu.0
              (ground (arith, cpu)) at lt in
          rw (at, e) (clone_into-Keeps function stack exit_func k1 (x - 100) d false a)
