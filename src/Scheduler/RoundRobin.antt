-- ===== src/Scheduler/RoundRobin.antt =====
-- The clock interrupt: round robin with quanta.
use so2_zeos.Prelude.{
  ◌+◌, ◌-◌, ◌≡◌, ◌≢◌, inl, inr, refl, ◌∙◌, ◌↔◌, Bool, true, false, ◌&&◌, ◌||◌, not, leb, List, [],
  ◌∷◌, ◌==◌, if◌then◌else◌, arith, Bool-cases, ap,
}
use mathlib.Core.Path.{subst}
use so2_zeos.LinkedList.{Ptr, list_empty}
use so2_zeos.LinkedList.Queues.{View}
use so2_zeos.LinkedList.Queues.Open.{list_empty_iff}
use so2_zeos.Kernel.{Context, to_user, Kernel, nr_tasks}
use so2_zeos.Kernel
use so2_zeos.Stats.{sys_to_ready, current_ticks_updated, update_stats}
use so2_zeos.Kernel.Addresses.{readyqueue, anchor}
use so2_zeos.Scheduler.{
  update_process_state, update_process_state_rr, sched_next_rr, preempt, update_sched_data_rr,
  needs_sched_rr, execute_scheduling,
}
use so2_zeos.Scheduler.Frames.{
  update_process_state-SameBut, SameKernel, update_stats-SameKernel, hung-update_stats,
}
use so2_zeos.Scheduler.Consistent.{Queued, Consistent, unlinked, moved, first_ready}
use so2_zeos.Scheduler.Moves.{update_process_state-Queued, Destination}
use so2_zeos.Scheduler.Dispatch.{
  Queued-same, update_stats-Queued, AllWait, sched_next_rr-Consistent,
}

-- the queues after the running process has gone to the end of the ready queue, if it is not the
-- idle task
abbrev pub requeued : Kernel → View → View
requeued k v = if k.current == k.idle_task then v else moved (anchor k.current) readyqueue false v

-- the queues after a preemption: then the first of them leaves
abbrev pub rotated : Kernel → View → View
rotated k v =
    let v' = requeued k v in unlinked (anchor (first_ready (v'.items readyqueue) k.idle_task)) v'

-- the preempted process put back
abbrev requeue : Kernel → Kernel
requeue k =
    if not (k.current == k.idle_task) then update_process_state_rr k.current readyqueue k else k

record Requeued (k k' : Kernel) (v' : View) : Type 0 where
  queued : Queued k' v'
  wait : AllWait k' v'
  idle : k'.idle_task ≡ k.idle_task
  current : k'.current ≡ k.current
  hung : k'.hung ≡ k.hung

ready-Destination : {k : Kernel} {v : View} → Queued k v → Destination v readyqueue
ready-Destination q = record { head = q.heads.1; queue = refl }

requeue-busy :
    (k : Kernel) (v : View)
    → Consistent k v
    → k.current ≢ k.idle_task
    → Requeued k
        (update_process_state k.current readyqueue false k)
        (moved (anchor k.current) readyqueue false v)
requeue-busy k v c busy =
    let s = update_process_state-SameBut k.current readyqueue false k in
    record {
      queued =
          update_process_state-Queued k.current readyqueue false k v c.queued c.on_cpu.0
            (inr (ready-Destination c.queued, busy));
      wait = λ t h ne. ground (arith, c.only t h, s.idle_task);
      idle = s.idle_task;
      current = s.current;
      hung = s.hung;
    }

requeue-Requeued : (k : Kernel) (v : View) → Consistent k v → Requeued k (requeue k) (requeued k v)
unfolding update_process_state_rr
requeue-Requeued k v c = elim (Bool-cases (k.current == k.idle_task)) [
  | inl idle ↦
      let e : k.current ≡ k.idle_task = ground arith in
      rw idle (record {
        queued = c.queued;
        wait = λ t h ne out. ground (arith, c.only t h ne out);
        idle = refl;
        current = refl;
        hung = refl;
      })
  | inr busy ↦ rw busy (requeue-busy k v c (ground arith))
]

module _ (k : Kernel) (v : View) (c : Consistent k v) where
  pub preempt-Consistent :
      Consistent (preempt k) (rotated k v)
      × ((preempt k).current ≡ first_ready ((requeued k v).items readyqueue) k.idle_task)
      × ((preempt k).hung ≡ k.hung)
  unfolding preempt
  preempt-Consistent =
      let r = requeue-Requeued k v c in
      let k1 = requeue k in
      let k2 = Kernel.update_stats k1.current sys_to_ready k1 in
      let s = update_stats-SameKernel k1.current sys_to_ready k1 in
      let q = update_stats-Queued k1.current sys_to_ready k1 (requeued k v) r.queued in
      let d =
        sched_next_rr-Consistent to_user k2 (requeued k v) q
          (λ t h ne. r.wait t h (rw s.idle_task at ne)) in
      let i = s.idle_task ∙ r.idle in
      let ready = (requeued k v).items readyqueue in
      (
        subst
            (λ j.
              Consistent (sched_next_rr to_user k2)
                (unlinked (anchor (first_ready ready j)) (requeued k v)))
            i d.0,
        subst (λ j. (sched_next_rr to_user k2).current ≡ first_ready ready j) i d.1,
        d.3 ∙ hung-update_stats k1.current sys_to_ready k1 (λ e. cc) ∙ r.hung,
      )

SameKernel-update_sched_data_rr :
    (k : Kernel)
    → SameKernel (record k { current_ticks = k.current_ticks + 1 }) (update_sched_data_rr k)
unfolding update_sched_data_rr
SameKernel-update_sched_data_rr k = update_stats-SameKernel k.current current_ticks_updated _

hung-update_sched_data_rr : (k : Kernel) → (update_sched_data_rr k).hung ≡ k.hung
unfolding update_sched_data_rr
hung-update_sched_data_rr k = hung-update_stats k.current current_ticks_updated _ (λ e. cc)

-- whether a list is empty
abbrev pub is_nil : List Ptr → Bool
is_nil [] = true
is_nil (x ∷ xs) = false

Consistent-update_sched_data_rr :
    (k : Kernel) (v : View) → Consistent k v → Consistent (update_sched_data_rr k) v
unfolding update_sched_data_rr
Consistent-update_sched_data_rr k v c =
    let k1 = record k { current_ticks = k.current_ticks + 1 } in
    let s = update_stats-SameKernel k.current current_ticks_updated k1 in
    record {
      queued =
          update_stats-Queued k.current current_ticks_updated k1 v
            (Queued-same k k1 v c.queued refl (λ u. refl) refl);
      on_cpu = rw s.current c.on_cpu;
      only = λ t h ne out. ground (arith, c.only t h, s.current, s.idle_task);
    }

-- The two ways that `execute_scheduling` can go.
execute_scheduling-stay :
    (k : Kernel)
    → needs_sched_rr (update_sched_data_rr k) ≡ false
    → execute_scheduling k ≡ update_sched_data_rr k
unfolding execute_scheduling
execute_scheduling-stay k e = rw e

execute_scheduling-switch :
    (k : Kernel)
    → needs_sched_rr (update_sched_data_rr k) ≡ true
    → execute_scheduling k ≡ preempt (update_sched_data_rr k)
unfolding execute_scheduling
execute_scheduling-switch k e = rw e

-- whether the running process must make way at this tick: it is the idle task and another process is
-- ready, or with this tick it has run for its quantum
abbrev pub must_switch : Kernel → View → Bool
must_switch k v =
    ((k.current == k.idle_task) && not (is_nil (v.items readyqueue)))
    || leb (k.tasks k.current).quantum (k.current_ticks + 1)

remaining-update_sched_data_rr :
    (k : Kernel)
    → ((update_sched_data_rr k).tasks k.current).st.remaining_ticks
      ≡ (k.tasks k.current).quantum - (k.current_ticks + 1)
unfolding update_sched_data_rr Kernel.update_stats update_stats
remaining-update_sched_data_rr k = ground arith

ready_is_nil :
    (k : Kernel) (v : View)
    → Queued k v
    → list_empty readyqueue k.links ≡ is_nil (v.items readyqueue)
ready_is_nil k v q = go (v.items readyqueue) (list_empty_iff q.lists readyqueue q.heads.1)
  where
    go :
        (xs : List Ptr)
        → (list_empty readyqueue k.links ≡ true) ↔ (xs ≡ [])
        → list_empty readyqueue k.links ≡ is_nil xs
    go [] e = e.1 refl
    go (x ∷ xs) e = elim (Bool-cases (list_empty readyqueue k.links)) [
      | inl empty ↦ cc (e.0 empty)
      | inr full ↦ full
    ]

needs_sched_rr-must_switch :
    (k : Kernel) (v : View)
    → Consistent k v
    → needs_sched_rr (update_sched_data_rr k) ≡ must_switch k v
unfolding needs_sched_rr
needs_sched_rr-must_switch k v c =
    let k' = update_sched_data_rr k in
    let s = SameKernel-update_sched_data_rr k in
    let left = remaining-update_sched_data_rr k in
    let nil = ready_is_nil k v c.queued in
    rw (s.current, s.idle_task, s.links, nil, left) (ground arith)

rotated-same :
    (k k' : Kernel) (v : View)
    → k'.current ≡ k.current
    → k'.idle_task ≡ k.idle_task
    → (rotated k' v ≡ rotated k v) × (requeued k' v ≡ requeued k v)
rotated-same k k' v e f = rw (e, f) (refl, refl)

-- Every clock tick leaves the scheduler consistent, and hangs nothing. If with it the running process
-- has run for its quantum, or if it is the idle task while another is ready, it goes to the end of the
-- ready queue (the idle task to no queue) and the first of that queue runs; if not, the same process
-- runs on and the queues stay.
pub execute_scheduling-Consistent :
    (k : Kernel) (v : View)
    → Consistent k v
    → Consistent (execute_scheduling k) (if must_switch k v then rotated k v else v)
      × ((execute_scheduling k).current ≡ (
          if must_switch k v
          then first_ready ((requeued k v).items readyqueue) k.idle_task
          else k.current))
      × ((execute_scheduling k).hung ≡ k.hung)
execute_scheduling-Consistent k v c =
    let k' = update_sched_data_rr k in
    let c' = Consistent-update_sched_data_rr k v c in
    let s = SameKernel-update_sched_data_rr k in
    let same = rotated-same k k' v s.current s.idle_task in
    let decides = needs_sched_rr-must_switch k v c in
    let ticks = hung-update_sched_data_rr k in
    elim (Bool-cases (must_switch k v)) [
      | inl e ↦
          let p = preempt-Consistent k' v c' in
          rw (e, execute_scheduling-switch k (decides ∙ e))
            (
              subst (Consistent (preempt k')) same.0 p.0,
              p.1
                  ∙ ap (λ w. first_ready (w.items readyqueue) k'.idle_task) same.1
                  ∙ ap (first_ready ((requeued k v).items readyqueue)) s.idle_task,
              p.2 ∙ ticks,
            )
      | inr e ↦ rw (e, execute_scheduling-stay k (decides ∙ e)) (c', s.current, ticks)
    ]
