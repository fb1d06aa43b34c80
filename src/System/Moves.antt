-- ===== src/System/Moves.antt =====
-- The invariant under the moves that the calls and interrupts are made of: who runs makes way, who
-- waits is made ready, the next one runs.
use so2_zeos.Prelude.{
  ℕ, ◌-◌, ◌<◌, ◌≡◌, ◌≢◌, inl, inr, ap, Bool-cases, refl, ◌∙◌, sym, Bool, true, false, ◌==◌, arith,
  List, [], ◌∷◌, has,
}
use mathlib.Core.Path.{subst}
use so2_zeos.LinkedList.{Ptr, null}
use so2_zeos.LinkedList.Queues.{View}
use so2_zeos.Stats.{Event, refresh, ready_to_sys, current_ticks_updated}
use so2_zeos.Kernel.{Context, Kernel, Semaphore, nr_tasks}
use so2_zeos.Kernel
use so2_zeos.Kernel.Addresses.{free_queue, readyqueue, keyboardqueue, anchor, list_head_to_task}
use so2_zeos.Scheduler.{
  update_process_state, update_process_state_rr, add_process_to_scheduling, sched_next_rr, dispatch,
  next_task, task_switch,
}
use so2_zeos.Scheduler.Frames.{
  update_process_state-SameBut, update_stats-SameKernel, hung-update_stats,
}
use so2_zeos.Scheduler.Consistent.{is_task_queue, Queued, moved, unlinked, first_ready}
use so2_zeos.Scheduler.Moves.{Destination, update_process_state-Queued}
use so2_zeos.Scheduler.Dispatch.{
  AllWait, sched_next_rr-Consistent, first_ready-bounds, update_stats-Queued,
}
use so2_zeos.Semaphores.Woken.{Consistent-same}
use so2_zeos.System.Shape.{
  nobody, facts, facts-eq, Shape, Sound, Place, nowhere, ready-Place, Shape-moved,
}
use so2_zeos.Scheduler.Wakeup.{add_process_to_scheduling-Consistent}

-- The invariant holds with some view of the lists.
abbrev pub IsSound : Kernel → Type 0
IsSound k = (v : View) × Sound k v

pub facts-update_stats :
    (t : ℕ) (e : Event) (k : Kernel) → facts (Kernel.update_stats t e k) ≡ facts k
facts-update_stats t e k =
    let s = update_stats-SameKernel t e k in
    facts-eq k (Kernel.update_stats t e k) s.semaphores (λ u. (s.tasks u).dir)
      (ap (λ m. m.dir_count) s.mem)

pub facts-update_process_state :
    (t : ℕ) (dest : Ptr) (first : Bool) (k : Kernel)
    → facts (update_process_state t dest first k) ≡ facts k
facts-update_process_state t dest first k =
    let k' = update_process_state t dest first k in
    let s = update_process_state-SameBut t dest first k in
    facts-eq k k' s.semaphores
      (λ u. elim (Bool-cases (u == t)) [
        | inl e ↦ let at : u ≡ t = ground arith in rw at s.dir
        | inr e ↦ ap (λ x. x.dir) (s.tasks u (ground arith))
      ])
      (ap (λ m. m.dir_count) s.mem)

pub facts-add_process_to_scheduling :
    (t : ℕ) (e : Event) (first : Bool) (k : Kernel)
    → facts (add_process_to_scheduling t e first k) ≡ facts k
unfolding add_process_to_scheduling
facts-add_process_to_scheduling t e first k =
    facts-update_stats t e (update_process_state t readyqueue first k)
    ∙ facts-update_process_state t readyqueue first k

facts-task_switch : (t : ℕ) (ctx : Context) (k : Kernel) → facts (task_switch t ctx k) ≡ facts k
unfolding task_switch
facts-task_switch t ctx k = facts-eq k (task_switch t ctx k) refl (λ u. ground arith) refl

-- Nothing of the scheduler's changes.
pub Sound-same :
    (k k' : Kernel) (v : View)
    → Sound k v
    → k'.links ≡ k.links
    → ((t : ℕ) → (k'.tasks t).state ≡ (k.tasks t).state)
    → k'.idle_task ≡ k.idle_task
    → k'.current ≡ k.current
    → facts k' ≡ facts k
    → Sound k' v
Sound-same k k' v s l t i c e = record {
  consistent = Consistent-same k k' v s.consistent l t i c;
  keyboard = s.keyboard;
  shape = subst (λ x. Shape nobody x v) (sym e) s.shape;
}

pub update_stats-Sound :
    (t : ℕ) (e : Event) (k : Kernel) (v : View) → Sound k v → Sound (Kernel.update_stats t e k) v
update_stats-Sound t e k v s =
    let same = update_stats-SameKernel t e k in
    Sound-same k (Kernel.update_stats t e k) v s same.links (λ u. (same.tasks u).state)
      same.idle_task same.current (facts-update_stats t e k)

facts-sched_next_rr : (ctx : Context) (k : Kernel) → facts (sched_next_rr ctx k) ≡ facts k
unfolding sched_next_rr dispatch update_process_state_rr
facts-sched_next_rr ctx k =
    let t = next_task k in
    let k0 = update_process_state t null false k in
    let k1 = Kernel.update_stats t ready_to_sys k0 in
    let k2 = record k1 { current_ticks = 0 } in
    facts-task_switch t ctx (Kernel.update_stats t current_ticks_updated k2)
    ∙ facts-update_stats t current_ticks_updated k2
    ∙ facts-update_stats t ready_to_sys k0
    ∙ facts-update_process_state t null false k

-- The next task is not free.
pub first_ready-not_free :
    (k : Kernel) (v : View)
    → Queued k v
    → v.own (anchor (first_ready (v.items readyqueue) k.idle_task)) ≢ free_queue
first_ready-not_free k v q = go (v.items readyqueue) refl
  where
    go :
        (xs : List Ptr)
        → v.items readyqueue ≡ xs
        → v.own (anchor (first_ready (v.items readyqueue) k.idle_task)) ≢ free_queue
    go [] e = rw e (ground (arith, q.idle))
    go (x ∷ xs) e =
        let m : has x (x ∷ xs) ≡ (v.own x == readyqueue) =
          rw e at (q.lists.member readyqueue x q.heads.1) in
        let own : v.own x ≡ readyqueue = ground (arith, m) in
        let lo = (q.tasks_only x (rw own)).0 in
        let at : anchor (x - 100) ≡ x = omega arith in rw (e, at, own) (omega arith)

-- When every process but the idle one waits, `sched_next_rr` restores the invariant.
pub switch-Sound :
    (ctx : Context) (k : Kernel) (v : View)
    → Queued k v
    → AllWait k v
    → v.is_head keyboardqueue ≡ true
    → Shape nobody (facts k) v
    → Sound
        (sched_next_rr ctx k)
        (unlinked (anchor (first_ready (v.items readyqueue) k.idle_task)) v)
      × ((sched_next_rr ctx k).hung ≡ k.hung)
switch-Sound ctx k v q w kh h =
    let t = first_ready (v.items readyqueue) k.idle_task in
    let d = sched_next_rr-Consistent ctx k v q w in
    (
      record {
        consistent = d.0;
        keyboard = ground (arith, kh);
        shape =
            subst (λ x. Shape nobody x (unlinked (anchor t) v)) (sym (facts-sched_next_rr ctx k))
              (Shape-moved nobody (facts k) v t null false h (first_ready-bounds k v q)
                (first_ready-not_free k v q) (nowhere (facts k)));
      },
      d.3,
    )

-- The kernel when the running process has gone to `dest`, and its time has been charged.
abbrev pub left : Ptr → Bool → Event → Kernel → Kernel
left dest first e k =
    let k1 = update_process_state k.current dest first k in Kernel.update_stats k1.current e k1

-- Who runs makes way, in a call that blocks or at the end of a quantum.
pub leave-Sound :
    (dest : Ptr) (first : Bool) (e : Event) (ctx : Context) (k : Kernel) (v : View)
    → Sound k v
    → k.current ≢ k.idle_task
    → Destination v dest
    → Place (facts k) dest
    → e ≢ refresh
    → IsSound (sched_next_rr ctx (left dest first e k))
      × ((sched_next_rr ctx (left dest first e k)).hung ≡ k.hung)
leave-Sound dest first e ctx k v s busy d p ne =
    let c = s.consistent in
    let v' = moved (anchor k.current) dest first v in
    let k1 = update_process_state k.current dest first k in
    let s1 = update_process_state-SameBut k.current dest first k in
    let q1 =
      update_process_state-Queued k.current dest first k v c.queued c.on_cpu.0 (inr (d, busy)) in
    let s2 = update_stats-SameKernel k1.current e k1 in
    let q2 = update_stats-Queued k1.current e k1 v' q1 in
    let i = s2.idle_task ∙ s1.idle_task in
    let h =
      Shape-moved nobody (facts k) v k.current dest first s.shape c.on_cpu.0
        (ground (arith, c.on_cpu)) p in
    let r =
      switch-Sound ctx (left dest first e k) v' q2
        (λ t l n out. ground (arith, c.only t l, i, d.head, c.queued.lists.null_free))
        (ground (arith, s.keyboard))
        (subst (λ x. Shape nobody x v')
          (sym (
            facts-update_stats k1.current e k1 ∙ facts-update_process_state k.current dest first k))
          h) in
    ((_, r.0), r.1 ∙ hung-update_stats k1.current e k1 ne ∙ s1.hung)

-- A process that waits, and is not free, is made ready.
pub wake-Sound :
    (t : ℕ) (e : Event) (first : Bool) (k : Kernel) (v : View)
    → Sound k v
    → t < nr_tasks
    → v.own (anchor t) ≢ null
    → v.own (anchor t) ≢ free_queue
    → Sound (add_process_to_scheduling t e first k) (moved (anchor t) readyqueue first v)
wake-Sound t e first k v s lt waits busy = record {
  consistent = add_process_to_scheduling-Consistent t e first k v s.consistent lt waits;
  keyboard = ground (arith, s.keyboard);
  shape =
      subst (λ x. Shape nobody x (moved (anchor t) readyqueue first v))
        (sym (facts-add_process_to_scheduling t e first k))
        (Shape-moved nobody (facts k) v t readyqueue first s.shape lt busy (ready-Place (facts k)));
}

-- The first process of a queue that is not the free one.
pub record Waiting (h x : Ptr) (v : View) : Type 0 where
  pub own : v.own x ≡ h
  pub task : list_head_to_task x < nr_tasks
  pub at : anchor (list_head_to_task x) ≡ x

pub first-Waiting :
    (h x : Ptr) (xs : List Ptr) (k : Kernel) (v : View)
    → Queued k v
    → v.is_head h ≡ true
    → is_task_queue h ≡ true
    → v.items h ≡ x ∷ xs
    → Waiting h x v
first-Waiting h x xs k v q hh tq e =
    let m : has x (x ∷ xs) ≡ (v.own x == h) = rw e at (q.lists.member h x hh) in
    let own : v.own x ≡ h = ground (arith, m) in
    let b = q.tasks_only x (rw own tq) in record { own = own; task = omega arith; at = omega arith }
