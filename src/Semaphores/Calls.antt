-- ===== src/Semaphores/Calls.antt =====
-- What `sys_sem_wait` and `sys_sem_signal` do to the queues.
use mathlib.Core.Path.{subst}
use so2_zeos.Prelude.{
  ℕ, ◌+◌, ◌-◌, ◌%◌, ◌^◌, ◌≤◌, ◌<◌, ◌≡◌, ◌≢◌, inl, inr, refl, ◌∙◌, true, false, List, [], ◌∷◌, ◌==◌,
  leb, arith, Bool-cases, update, has, none, some, pos,
}
use so2_zeos.LinkedList.{Ptr, list_empty, list_first}
use so2_zeos.LinkedList.Queues.{View}
use so2_zeos.LinkedList.Queues.Open.{list_empty_iff, list_first-items}
use so2_zeos.Kernel.{Context, in_sem_wait, Kernel, nr_tasks, nr_semaphores}
use so2_zeos.Kernel
use so2_zeos.Stats.{sys_to_blocked, blocked_to_ready}
use so2_zeos.Kernel.Addresses.{readyqueue, anchor, sem_blocked, list_head_to_task}
use so2_zeos.Scheduler.{
  update_process_state, update_process_state_rr, add_process_to_scheduling, sched_next_rr,
}
use so2_zeos.Scheduler.Frames.{
  update_process_state-SameBut, update_stats-SameKernel, hung-update_stats,
}
use so2_zeos.Scheduler.Consistent.{is_task_queue, Consistent, unlinked, moved, first_ready}
use so2_zeos.Scheduler.Moves.{update_process_state-Queued, Destination}
use so2_zeos.Scheduler.Dispatch.{update_stats-Queued, sched_next_rr-Consistent}
use so2_zeos.Scheduler.Wakeup.{
  add_process_to_scheduling-Consistent, add_process_to_scheduling-Kept,
  hung-add_process_to_scheduling,
}
use so2_zeos.Semaphores.{sem_wait, sem_signal, block_on}

-- A semaphore in use: its list of blocked processes is open.
pub record InUse (n : ℕ) (k : Kernel) (v : View) : Type 0 where
  pub range : n < nr_semaphores
  pub used : (k.semaphores n).used ≡ true
  pub head : v.is_head (sem_blocked n) ≡ true

-- where a process that blocks stands
blocked-Destination : {n : ℕ} {k : Kernel} {v : View} → InUse n k v → Destination v (sem_blocked n)
blocked-Destination u = record { head = u.head; queue = ground (arith, u.range) }

-- the queues when the running process has gone to the end of the semaphore's list, and then the
-- first ready one has left the ready queue
abbrev pub blocked_view : ℕ → Kernel → View → View
blocked_view n k v = moved (anchor k.current) (sem_blocked n) false v

block_on-Consistent :
    (n : ℕ) (k : Kernel) (v : View)
    → Consistent k v
    → InUse n k v
    → k.current ≢ k.idle_task
    → let v' = blocked_view n k v in
      let t = first_ready (v'.items readyqueue) k.idle_task in
      Consistent (block_on n k) (unlinked (anchor t) v')
      × ((block_on n k).current ≡ t)
      × ((block_on n k).hung ≡ k.hung)
unfolding block_on update_process_state_rr
block_on-Consistent n k v c u busy =
    let v' = blocked_view n k v in
    let k1 = update_process_state k.current (sem_blocked n) false k in
    let s1 = update_process_state-SameBut k.current (sem_blocked n) false k in
    let q1 =
      update_process_state-Queued k.current (sem_blocked n) false k v c.queued c.on_cpu.0
        (inr (blocked-Destination u, busy)) in
    let k2 = Kernel.update_stats k1.current sys_to_blocked k1 in
    let s2 = update_stats-SameKernel k1.current sys_to_blocked k1 in
    let q2 = update_stats-Queued k1.current sys_to_blocked k1 v' q1 in
    let i = s2.idle_task ∙ s1.idle_task in
    let d =
      sched_next_rr-Consistent in_sem_wait k2 v' q2 (λ t h ne. ground (arith, c.only t h, i)) in
    let ready = v'.items readyqueue in
    (
      subst
          (λ j.
            Consistent (sched_next_rr in_sem_wait k2) (unlinked (anchor (first_ready ready j)) v'))
          i d.0,
      subst (λ j. (sched_next_rr in_sem_wait k2).current ≡ first_ready ready j) i d.1,
      d.3 ∙ hung-update_stats k1.current sys_to_blocked k1 (λ e. cc) ∙ s1.hung,
    )

-- Waiting on a semaphore in use with a count above 0 takes one from the count, returns 0 and
-- changes nothing else.
pub sem_wait-takes :
    (n : ℕ) (k : Kernel) (v : View)
    → InUse n k v
    → (k.semaphores n).count ≢ 0
    → sem_wait (pos n) k ≡ (
      record k {
        semaphores =
            update k.semaphores n (record (k.semaphores n) { count = (k.semaphores n).count - 1 });
      },
      some (pos 0),
    )
unfolding sem_wait
sem_wait-takes n k v u left =
    let r : leb nr_semaphores n ≡ false = ground (arith, u.range) in
    let z : ((k.semaphores n).count == 0) ≡ false = ground arith in rw (r, u.used, z)

-- A process other than the idle task that waits on a semaphore in use with a count of 0 goes to the
-- end of the semaphore's list and does not return; the first ready process runs, or the idle task
-- if none is ready, and states and queues stay consistent.
pub sem_wait-blocks :
    (n : ℕ) (k : Kernel) (v : View)
    → Consistent k v
    → InUse n k v
    → k.current ≢ k.idle_task
    → (k.semaphores n).count ≡ 0
    → let v' = blocked_view n k v in
      let t = first_ready (v'.items readyqueue) k.idle_task in
      ((sem_wait (pos n) k).1 ≡ none)
      × Consistent (sem_wait (pos n) k).0 (unlinked (anchor t) v')
      × ((sem_wait (pos n) k).0.current ≡ t)
unfolding sem_wait
sem_wait-blocks n k v c u busy nothing_left =
    let r : leb nr_semaphores n ≡ false = ground (arith, u.range) in
    let z : ((k.semaphores n).count == 0) ≡ true = ground arith in
    let d = block_on-Consistent n k v c u busy in rw (r, u.used, z) (refl, d.0, d.1)

module _ (n : ℕ) (k : Kernel) (v : View) (c : Consistent k v) (u : InUse n k v) where
  not_empty :
      (x : Ptr) (xs : List Ptr)
      → v.items (sem_blocked n) ≡ x ∷ xs
      → list_empty (sem_blocked n) k.links ≡ false
  not_empty x xs e = elim (Bool-cases (list_empty (sem_blocked n) k.links)) [
    | inl empty ↦ cc (e, (list_empty_iff c.queued.lists (sem_blocked n) u.head).0 empty)
    | inr full ↦ full
  ]

  -- the first blocked process is a task, which neither runs nor idles
  first_blocked :
      (x : Ptr) (xs : List Ptr)
      → v.items (sem_blocked n) ≡ x ∷ xs
      → (v.own x ≡ sem_blocked n) × (anchor 0 ≤ x) × (x < anchor nr_tasks)
  first_blocked x xs e =
      let m : has x (x ∷ xs) ≡ (v.own x == sem_blocked n) =
        rw e at (c.queued.lists.member (sem_blocked n) x u.head) in
      let own : v.own x ≡ sem_blocked n = ground (arith, m) in
      let q : is_task_queue (v.own x) ≡ true = rw own (ground (arith, u.range)) in
      let b = c.queued.tasks_only x q in (own, b.0, b.1)

  abbrev wakes : Ptr → Kernel
  wakes p = add_process_to_scheduling (list_head_to_task p) blocked_to_ready false k

  first_wakes :
      (x : Ptr) (xs : List Ptr)
      → v.items (sem_blocked n) ≡ x ∷ xs
      → let k' = wakes (list_first (sem_blocked n) k.links) in
        Consistent k' (moved x readyqueue false v)
        × (k'.semaphores ≡ k.semaphores)
        × (k'.hung ≡ k.hung)
  first_wakes x xs e =
      let (own, lo, hi) = first_blocked x xs e in
      let at : anchor (x - 100) ≡ x = omega arith in
      let t = list_head_to_task x in
      rw (list_first-items c.queued.lists (sem_blocked n) x xs u.head e) (
        subst (λ a. Consistent (wakes x) (moved a readyqueue false v)) at
            (add_process_to_scheduling-Consistent t blocked_to_ready false k v c (omega arith)
              (λ out. absurd (ground (arith, at)))),
        (add_process_to_scheduling-Kept t blocked_to_ready false k).semaphores,
        hung-add_process_to_scheduling t blocked_to_ready false k (λ d. cc),
      )

-- Signalling a semaphore in use on which no process is blocked adds one to the count, modulo
-- 2 ^ 32, returns 0 and changes nothing else.
pub sem_signal-counts :
    (n : ℕ) (k : Kernel) (v : View)
    → Consistent k v
    → InUse n k v
    → v.items (sem_blocked n) ≡ []
    → sem_signal (pos n) k ≡ (
      record k {
        semaphores =
            update k.semaphores n
              (record (k.semaphores n) { count = ((k.semaphores n).count + 1) % 2 ^ 32 });
      },
      pos 0,
    )
unfolding sem_signal
sem_signal-counts n k v c u e =
    let r : leb nr_semaphores n ≡ false = ground (arith, u.range) in
    rw (r, u.used, (list_empty_iff c.queued.lists (sem_blocked n) u.head).1 e)

-- Signalling a semaphore in use on which processes are blocked returns 0 and hangs nothing: the one
-- that has waited longest goes to the end of the ready queue, all semaphores stay as they are, and
-- states and queues stay consistent.
pub sem_signal-wakes :
    (n : ℕ) (k : Kernel) (v : View) (x : Ptr) (xs : List Ptr)
    → Consistent k v
    → InUse n k v
    → v.items (sem_blocked n) ≡ x ∷ xs
    → ((sem_signal (pos n) k).1 ≡ pos 0)
      × Consistent (sem_signal (pos n) k).0 (moved x readyqueue false v)
      × ((sem_signal (pos n) k).0.semaphores ≡ k.semaphores)
      × ((sem_signal (pos n) k).0.hung ≡ k.hung)
unfolding sem_signal
sem_signal-wakes n k v x xs c u e =
    let r : leb nr_semaphores n ≡ false = ground (arith, u.range) in
    let w = first_wakes n k v c u x xs e in
    rw (r, u.used, not_empty n k v c u x xs e) (refl, w.0, w.1, w.2)
