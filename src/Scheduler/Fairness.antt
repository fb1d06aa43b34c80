-- ===== src/Scheduler/Fairness.antt =====
-- Round robin is fair: who is ready runs after as many preemptions as there are processes before it
-- in the queue, and one.
use so2_zeos.Prelude.{
  ℕ, zero, suc, ◌+◌, ◌-◌, ◌≤◌, ◌≡◌, ◌≢◌, refl, ◌∙◌, sym, ap, true, false, List, [], ◌∷◌, ◌++◌, ◌==◌,
  arith, has, length, drop,
}
use mathlib.Core.List.{append_assoc}
use so2_zeos.LinkedList.{Ptr, null}
use so2_zeos.LinkedList.Queues.{View, enqueue}
use so2_zeos.Kernel.{Context, to_user, Kernel, nr_tasks}
use so2_zeos.Kernel
use so2_zeos.Stats.{ready_to_sys, current_ticks_updated, sys_to_ready}
use so2_zeos.Kernel.Addresses.{readyqueue, anchor, list_head_to_task}
use so2_zeos.Scheduler.{
  preempt, sched_next_rr, dispatch, next_task, task_switch, update_process_state,
  update_process_state_rr,
}
use so2_zeos.Scheduler.Frames.{update_process_state-SameBut, update_stats-SameKernel}
use so2_zeos.Scheduler.Consistent.{Consistent, unlinked, first_ready}
use so2_zeos.Scheduler.RoundRobin.{preempt-Consistent, rotated, requeued}

-- The first process of a queue leaves it.
unlinked-first :
    (w : View) (i x : ℕ) (xs : List Ptr)
    → w.items readyqueue ≡ x ∷ xs
    → w.own x ≡ readyqueue
    → anchor 0 ≤ x
    → (unlinked (anchor (first_ready (w.items readyqueue) i)) w).items readyqueue ≡ xs
unlinked-first w i x xs e own le =
    let at : anchor (x - 100) ≡ x = omega arith in rw (e, at, own) (ground arith)

-- A preempted process other than the idle task goes to the end of the ready queue, and the first
-- process leaves it: the queue is turned by one place.
rotated-drop :
    (k : Kernel) (v : View)
    → Consistent k v
    → k.current ≢ k.idle_task
    → (rotated k v).items readyqueue ≡ drop 1 (v.items readyqueue ++ (anchor k.current ∷ []))
rotated-drop k v c busy =
    let no_idle : (k.current == k.idle_task) ≡ false = ground arith in
    let free : (v.own (anchor k.current) == null) ≡ true = ground (arith, c.on_cpu) in
    rw (no_idle, free) (go (v.items readyqueue) refl)
  where
    after : View
    after = enqueue (anchor k.current) readyqueue v

    go :
        (xs : List Ptr)
        → v.items readyqueue ≡ xs
        → (unlinked (anchor (first_ready (after.items readyqueue) k.idle_task)) after).items
            readyqueue
          ≡ drop 1 (v.items readyqueue ++ (anchor k.current ∷ []))
    go [] e =
        unlinked-first after k.idle_task (anchor k.current) [] (rw e) (ground arith) (omega arith)
        ∙ sym (ap (λ xs. drop 1 (xs ++ (anchor k.current ∷ []))) e)
    go (x ∷ xs) e =
        let m : has x (x ∷ xs) ≡ (v.own x == readyqueue) =
          rw e at (c.queued.lists.member readyqueue x c.queued.heads.1) in
        let own : v.own x ≡ readyqueue = ground (arith, m) in
        unlinked-first after k.idle_task x (xs ++ (anchor k.current ∷ [])) (rw e) (ground arith)
          (c.queued.tasks_only x (rw own)).0
        ∙ sym (ap (λ ys. drop 1 (ys ++ (anchor k.current ∷ []))) e)

idle_task-sched_next_rr :
    (ctx : Context) (k : Kernel) → (sched_next_rr ctx k).idle_task ≡ k.idle_task
unfolding sched_next_rr dispatch task_switch update_process_state_rr
idle_task-sched_next_rr ctx k =
    let t = next_task k in
    let k0 = update_process_state t null false k in
    let k1 = Kernel.update_stats t ready_to_sys k0 in
    (update_stats-SameKernel t current_ticks_updated (record k1 { current_ticks = 0 })).idle_task
    ∙ (update_stats-SameKernel t ready_to_sys k0).idle_task
    ∙ (update_process_state-SameBut t null false k).idle_task

idle_task-preempt : (k : Kernel) → k.current ≢ k.idle_task → (preempt k).idle_task ≡ k.idle_task
unfolding preempt update_process_state_rr
idle_task-preempt k busy =
    let e : (k.current == k.idle_task) ≡ false = ground arith in
    let k1 = update_process_state k.current readyqueue false k in
    rw e (
      idle_task-sched_next_rr to_user (Kernel.update_stats k1.current sys_to_ready k1)
      ∙ (update_stats-SameKernel k1.current sys_to_ready k1).idle_task
      ∙ (update_process_state-SameBut k.current readyqueue false k).idle_task)

-- `n` preemptions, one after the other
abbrev pub preemptions : ℕ → Kernel → Kernel
preemptions zero k = k
preemptions (suc n) k = preemptions n (preempt k)

requeued-items :
    (k : Kernel) (v : View)
    → Consistent k v
    → k.current ≢ k.idle_task
    → (requeued k v).items readyqueue ≡ v.items readyqueue ++ (anchor k.current ∷ [])
requeued-items k v c busy =
    let e : (k.current == k.idle_task) ≡ false = ground arith in
    let free : (v.own (anchor k.current) == null) ≡ true = ground (arith, c.on_cpu) in
    rw (e, free) refl

-- The first process of the ready queue runs after a preemption, and it is not the idle task.
preempt-first :
    (k : Kernel) (v : View) (x : Ptr) (xs : List Ptr)
    → Consistent k v
    → k.current ≢ k.idle_task
    → v.items readyqueue ≡ x ∷ xs
    → ((preempt k).current ≡ list_head_to_task x) × ((preempt k).current ≢ (preempt k).idle_task)
preempt-first k v x xs c busy e =
    let r : (preempt k).current ≡ list_head_to_task x =
      (preempt-Consistent k v c).1
      ∙ ap (λ ys. first_ready ys k.idle_task)
          (requeued-items k v c busy ∙ ap (λ ys. ys ++ (anchor k.current ∷ [])) e) in
    let m : has x (x ∷ xs) ≡ (v.own x == readyqueue) =
      rw e at (c.queued.lists.member readyqueue x c.queued.heads.1) in
    let own : v.own x ≡ readyqueue = ground (arith, m) in
    let lo = (c.queued.tasks_only x (rw own)).0 in
    let at : anchor (x - 100) ≡ x = omega arith in
    let i = idle_task-preempt k busy in
    (r, λ same. absurd (ground (arith, c.queued.idle, ap v.own at, ap anchor (sym r ∙ same ∙ i))))

-- Where a process that is not the idle task runs, a process in the ready queue runs after as many
-- preemptions as there are processes before it in the queue, and one.
pub preemptions-fair :
    (xs ys : List Ptr) (t : ℕ) (k : Kernel) (v : View)
    → Consistent k v
    → k.current ≢ k.idle_task
    → v.items readyqueue ≡ xs ++ (anchor t ∷ ys)
    → (preemptions (length xs + 1) k).current ≡ t
preemptions-fair [] ys t k v c busy e = (preempt-first k v (anchor t) ys c busy e).0 ∙ (omega arith)
preemptions-fair (x ∷ xs) ys t k v c busy e =
    let last = anchor k.current ∷ [] in
    let f = preempt-first k v x (xs ++ (anchor t ∷ ys)) c busy e in
    let turned : (rotated k v).items readyqueue ≡ xs ++ (anchor t ∷ (ys ++ last)) =
      rotated-drop k v c busy
      ∙ ap (λ zs. drop 1 (zs ++ last)) e
      ∙ append_assoc xs (anchor t ∷ ys) last in
    let rounds : suc (length xs) + 1 ≡ suc (length xs + 1) = omega arith in
    rw rounds (
      preemptions-fair xs (ys ++ last) t (preempt k) (rotated k v) (preempt-Consistent k v c).0 f.1
        turned)
