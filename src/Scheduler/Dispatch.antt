-- ===== src/Scheduler/Dispatch.antt =====
-- `sched_next_rr` gives the CPU to the first process of the ready queue.
use so2_zeos.Prelude.{
  ℕ, ◌<◌, ◌≡◌, ◌≢◌, inl, inr, refl, ◌∙◌, false, List, [], ◌∷◌, ◌==◌, arith, Bool-cases, has,
}
use so2_zeos.LinkedList.{Ptr, null, list_empty}
use so2_zeos.LinkedList.Queues.{View}
use so2_zeos.LinkedList.Queues.Open.{list_empty_iff, list_first-items}
use so2_zeos.Kernel.{Context, Kernel, nr_tasks}
use so2_zeos.Kernel
use so2_zeos.Stats.{Event, ready_to_sys, current_ticks_updated}
use so2_zeos.Kernel.Addresses.{readyqueue, anchor}
use so2_zeos.Scheduler.{
  update_process_state, update_process_state_rr, dispatch, next_task, sched_next_rr, task_switch,
}
use so2_zeos.Scheduler.Frames.{
  update_process_state-SameBut, update_stats-SameKernel, hung-update_stats,
}
use so2_zeos.Scheduler.Consistent.{Queued, Consistent, unlinked, first_ready}
use so2_zeos.Scheduler.Moves.{update_process_state-Queued, own-unlinked}

-- `Queued` reads the links, the states and the number of the idle task.
pub Queued-same :
    (k k' : Kernel) (v : View)
    → Queued k v
    → k'.links ≡ k.links
    → ((t : ℕ) → (k'.tasks t).state ≡ (k.tasks t).state)
    → k'.idle_task ≡ k.idle_task
    → Queued k' v
Queued-same k k' v q l s i = record {
  lists = rw l q.lists;
  heads = q.heads;
  nodes = q.nodes;
  states = λ t h ne. rw (s t) (q.states t h (rw i at ne));
  idle = rw i q.idle;
  tasks_only = q.tasks_only;
}

pub update_stats-Queued :
    (t : ℕ) (e : Event) (k : Kernel) (v : View) → Queued k v → Queued (Kernel.update_stats t e k) v
update_stats-Queued t e k v q =
    let s = update_stats-SameKernel t e k in
    Queued-same k (Kernel.update_stats t e k) v q s.links (λ u. (s.tasks u).state) s.idle_task

-- The next task is the first of the ready queue, or the idle task if that is empty.
next_task-first_ready :
    (k : Kernel) (v : View)
    → Queued k v
    → next_task k ≡ first_ready (v.items readyqueue) k.idle_task
unfolding next_task
next_task-first_ready k v q = go (v.items readyqueue) refl
  where
    go :
        (xs : List Ptr)
        → v.items readyqueue ≡ xs
        → next_task k ≡ first_ready (v.items readyqueue) k.idle_task
    go [] e = rw (e, (list_empty_iff q.lists readyqueue q.heads.1).1 e)
    go (x ∷ xs) e = elim (Bool-cases (list_empty readyqueue k.links)) [
      | inl empty ↦ cc ((list_empty_iff q.lists readyqueue q.heads.1).0 empty)
      | inr some_ready ↦ rw (e, some_ready, list_first-items q.lists readyqueue x xs q.heads.1 e)
    ]

-- A task of the ready queue, or the idle task.
pub first_ready-bounds :
    (k : Kernel) (v : View) → Queued k v → first_ready (v.items readyqueue) k.idle_task < nr_tasks
first_ready-bounds k v q = go (v.items readyqueue) refl
  where
    go :
        (xs : List Ptr)
        → v.items readyqueue ≡ xs
        → first_ready (v.items readyqueue) k.idle_task < nr_tasks
    go [] e = rw e q.idle.0
    go (x ∷ xs) e =
        let m = q.lists.member readyqueue x q.heads.1 in
        let m' : has x (x ∷ xs) ≡ (v.own x == readyqueue) = rw e at m in
        rw e (ground (arith, q.tasks_only x))

-- Every process but the idle task waits in a queue: so it is when the running process has just been
-- put into one, and nobody runs.
abbrev pub AllWait : Kernel → View → Type 0
AllWait k v = (t : ℕ) → t < nr_tasks → t ≢ k.idle_task → v.own (anchor t) ≢ null

task_switch-Queued :
    (t : ℕ) (ctx : Context) (k : Kernel) (v : View) → Queued k v → Queued (task_switch t ctx k) v
unfolding task_switch
task_switch-Queued t ctx k v q =
    Queued-same k (task_switch t ctx k) v q refl (λ u. ground arith) refl

module _ (t : ℕ) (ctx : Context) (k : Kernel) where
  -- the kernel before the switch
  abbrev before_switch : Kernel
  before_switch =
      let k1 = Kernel.update_stats t ready_to_sys (update_process_state_rr t null k) in
      Kernel.update_stats t current_ticks_updated (record k1 { current_ticks = 0 })

  before_switch-Queued :
      (v : View) → Queued k v → t < nr_tasks → Queued before_switch (unlinked (anchor t) v)
  unfolding update_process_state_rr
  before_switch-Queued v q lt =
      let k0 = update_process_state t null false k in
      let q0 = update_process_state-Queued t null false k v q lt (inl refl) in
      let q1 = update_stats-Queued t ready_to_sys k0 (unlinked (anchor t) v) q0 in
      let k1 = Kernel.update_stats t ready_to_sys k0 in
      update_stats-Queued t current_ticks_updated (record k1 { current_ticks = 0 })
        (unlinked (anchor t) v)
        (Queued-same k1 (record k1 { current_ticks = 0 }) (unlinked (anchor t) v) q1 refl
          (λ u. refl) refl)

  before_switch-fields :
      (before_switch.idle_task ≡ k.idle_task)
      × (before_switch.hung ≡ k.hung)
      × (before_switch.current_ticks ≡ 0)
  unfolding update_process_state_rr
  before_switch-fields =
      let k0 = update_process_state t null false k in
      let k1 = Kernel.update_stats t ready_to_sys k0 in
      let s0 = update_process_state-SameBut t null false k in
      let s1 = update_stats-SameKernel t ready_to_sys k0 in
      let s2 = update_stats-SameKernel t current_ticks_updated (record k1 { current_ticks = 0 }) in
      let h1 = hung-update_stats t ready_to_sys k0 (λ e. cc) in
      let h2 =
        hung-update_stats t current_ticks_updated (record k1 { current_ticks = 0 }) (λ e. cc) in
      (s2.idle_task ∙ s1.idle_task ∙ s0.idle_task, h2 ∙ h1 ∙ s0.hung, s2.current_ticks)

dispatch-Consistent :
    (t : ℕ) (ctx : Context) (k : Kernel) (v : View)
    → Queued k v
    → AllWait k v
    → t < nr_tasks
    → Consistent (dispatch t ctx k) (unlinked (anchor t) v)
      × ((dispatch t ctx k).current ≡ t)
      × ((dispatch t ctx k).current_ticks ≡ 0)
      × ((dispatch t ctx k).hung ≡ k.hung)
      × ((dispatch t ctx k).esp0 ≡ t)
unfolding dispatch task_switch
dispatch-Consistent t ctx k v q wait lt =
    let f = before_switch-fields t ctx k in
    (
      record {
        queued =
            task_switch-Queued t ctx (before_switch t ctx k) (unlinked (anchor t) v)
              (before_switch-Queued t ctx k v q lt);
        on_cpu = (lt, own-unlinked (anchor t) v);
        only = λ u h ne out. ground (arith, wait u, f.0);
      },
      refl,
      f.2,
      f.1,
      refl,
    )

dispatch-rest :
    (t : ℕ) (ctx : Context) (k : Kernel)
    → (((dispatch t ctx k).tasks k.current).context ≡ ctx)
      × ((dispatch t ctx k).keyboard ≡ k.keyboard)
      × ((dispatch t ctx k).halted ≡ k.halted)
unfolding dispatch task_switch update_process_state_rr
dispatch-rest t ctx k =
    let k0 = update_process_state t null false k in
    let k1 = Kernel.update_stats t ready_to_sys k0 in
    let s0 = update_process_state-SameBut t null false k in
    let s1 = update_stats-SameKernel t ready_to_sys k0 in
    let s2 = update_stats-SameKernel t current_ticks_updated (record k1 { current_ticks = 0 }) in
    (
      ground (arith, s2.current, s1.current, s0.current),
      s2.keyboard ∙ s1.keyboard ∙ s0.keyboard,
      s2.halted ∙ s1.halted ∙ s0.halted,
    )

-- The process that loses the CPU keeps its context, and the keyboard its keys; nothing halts.
pub sched_next_rr-rest :
    (ctx : Context) (k : Kernel)
    → (((sched_next_rr ctx k).tasks k.current).context ≡ ctx)
      × ((sched_next_rr ctx k).keyboard ≡ k.keyboard)
      × ((sched_next_rr ctx k).halted ≡ k.halted)
unfolding sched_next_rr
sched_next_rr-rest ctx k = dispatch-rest (next_task k) ctx k

-- If every process but the idle task stands in a queue, `sched_next_rr` gives the CPU to the first
-- process of the ready queue, or to the idle task if no process is ready; it takes that process out
-- of the queue, starts a new quantum, makes the TSS point to its stack, and leaves the scheduler's
-- state consistent; nothing hangs.
pub sched_next_rr-Consistent :
    (ctx : Context) (k : Kernel) (v : View)
    → Queued k v
    → AllWait k v
    → let t = first_ready (v.items readyqueue) k.idle_task in
      Consistent (sched_next_rr ctx k) (unlinked (anchor t) v)
      × ((sched_next_rr ctx k).current ≡ t)
      × ((sched_next_rr ctx k).current_ticks ≡ 0)
      × ((sched_next_rr ctx k).hung ≡ k.hung)
      × ((sched_next_rr ctx k).esp0 ≡ t)
unfolding sched_next_rr
sched_next_rr-Consistent ctx k v q wait = rw (next_task-first_ready k v q) (
    dispatch-Consistent (first_ready (v.items readyqueue) k.idle_task) ctx k v q wait
      (first_ready-bounds k v q))
