-- ===== src/Semaphores/Destroy.antt =====
-- `sys_sem_destroy` wakes every process that is blocked on the semaphore.
use mathlib.Core.Path.{subst}
use mathlib.Core.List.{append-nil, append_assoc}
use so2_zeos.Prelude.{
  if◌then◌else◌, ℕ, ◌≤◌, ◌<◌, ◌≡◌, ◌≢◌, refl, ◌∙◌, sym, ap, true, false, List, [], ◌∷◌, ◌++◌, ◌==◌,
  leb, arith, has, length, length-le-range, pos, update, Distinct,
}
use so2_zeos.LinkedList.{Ptr, null, list_del}
use so2_zeos.LinkedList.Queues.{View, remove}
use so2_zeos.Kernel.{Kernel, nr_tasks, nr_semaphores, set_links}
use so2_zeos.Kernel.Addresses.{readyqueue, anchor, sem_blocked, sem_anchor}
use so2_zeos.Scheduler.Consistent.{is_task_queue, Placed, Consistent, Consistent-Placed, moved}
use so2_zeos.Semaphores.{wake_from, wake_fuel, sem_destroy, set_semaphore}
use so2_zeos.Semaphores.Calls.{InUse}
use so2_zeos.Semaphores.Woken.{
  Placed-same, all_ready, own-all_ready, Calm, first_of, first-next, wake_from-Placed,
  Placed-remove,
}

-- The queues when all of one list have become ready.
items-all_ready :
    (h : Ptr) (xs : List Ptr) (v : View)
    → ((a : Ptr) → has a xs ≡ true → v.own a ≡ h)
    → Distinct xs
    → h ≢ readyqueue
    → h ≢ null
    → (all_ready xs v).items readyqueue ≡ v.items readyqueue ++ xs
items-all_ready h [] v own d nr nn = sym (append-nil (v.items readyqueue))
items-all_ready h (x ∷ xs) v own d nr nn =
    let e : v.own x ≡ h = own x (ground arith) in
    let now : (moved x readyqueue false v).items readyqueue ≡ v.items readyqueue ++ (x ∷ []) =
      rw e (ground arith) in
    items-all_ready h xs (moved x readyqueue false v) (λ a m. ground (arith, own a)) d.1 nr nn
    ∙ ap (λ ys. ys ++ xs) now
    ∙ append_assoc (v.items readyqueue) (x ∷ []) xs

emptied-all_ready :
    (h : Ptr) (xs : List Ptr) (v : View)
    → ((a : Ptr) → has a xs ≡ true → v.own a ≡ h)
    → Distinct xs
    → h ≢ readyqueue
    → h ≢ null
    → v.items h ≡ xs
    → (all_ready xs v).items h ≡ []
emptied-all_ready h [] v own d nr nn e = e
emptied-all_ready h (x ∷ xs) v own d nr nn e =
    let o : v.own x ≡ h = own x (ground arith) in
    emptied-all_ready h xs (moved x readyqueue false v) (λ a m. ground (arith, own a)) d.1 nr nn
      (rw (o, e) (ground arith))

module _ (n : ℕ) (k : Kernel) (v : View) (c : Placed k v) (lt : n < nr_semaphores)
    (head : v.is_head (sem_blocked n) ≡ true) where
  blocked_queue : is_task_queue (sem_blocked n) ≡ true
  blocked_queue = ground (arith, lt)

  blocked_own : (a : Ptr) → has a (v.items (sem_blocked n)) ≡ true → v.own a ≡ sem_blocked n
  blocked_own a m = ground (arith, c.queued.lists.member (sem_blocked n) a head)

  -- ten tasks at most can be blocked
  blocked_few : length (v.items (sem_blocked n)) ≤ nr_tasks
  blocked_few =
      length-le-range nr_tasks (anchor 0) (v.items (sem_blocked n))
        (c.queued.lists.distinct (sem_blocked n) head)
        (λ a m. c.queued.tasks_only a (rw (blocked_own a m) blocked_queue))

  first_blocked : first_of (v.items (sem_blocked n)) (sem_blocked n) ≡ k.links.next (sem_blocked n)
  first_blocked =
      first-next k.links (sem_blocked n) (v.items (sem_blocked n))
        (c.queued.lists.ring (sem_blocked n) head)

  wake_all :
      Placed
        (wake_from wake_fuel (sem_blocked n) (k.links.next (sem_blocked n)) k)
        (all_ready (v.items (sem_blocked n)) v)
      × Calm k (wake_from wake_fuel (sem_blocked n) (k.links.next (sem_blocked n)) k)
  wake_all =
      subst
        (λ p.
          Placed (wake_from wake_fuel (sem_blocked n) p k) (all_ready (v.items (sem_blocked n)) v)
          × Calm k (wake_from wake_fuel (sem_blocked n) p k))
        first_blocked
        (wake_from-Placed wake_fuel (sem_blocked n) (v.items (sem_blocked n)) k v c head
          blocked_queue (omega arith) refl (omega (arith, blocked_few)))

  all_woken :
      ((all_ready (v.items (sem_blocked n)) v).items readyqueue
        ≡ v.items readyqueue ++ v.items (sem_blocked n))
      × ((all_ready (v.items (sem_blocked n)) v).items (sem_blocked n) ≡ [])
  all_woken =
      let d = c.queued.lists.distinct (sem_blocked n) head in
      (
        items-all_ready (sem_blocked n) (v.items (sem_blocked n)) v blocked_own d (omega arith)
            (omega arith),
        emptied-all_ready (sem_blocked n) (v.items (sem_blocked n)) v blocked_own d (omega arith)
            (omega arith) refl,
      )

-- The kernel in which `sys_sem_destroy` begins its loop, and its queues: the semaphore is out of
-- use, and its owner has it no more.
abbrev pub closed : ℕ → Kernel → Kernel
closed n k =
    let k1 = set_semaphore n (record (k.semaphores n) { used = false }) k in
    set_links (list_del (sem_anchor n) k1.links) k1

abbrev pub destroyed_view : ℕ → View → View
destroyed_view n v = let w = remove (sem_anchor n) v in all_ready (w.items (sem_blocked n)) w

module _ (n : ℕ) (k : Kernel) (v : View) (c : Placed k v) (u : InUse n k v)
    (owned : v.own (sem_anchor n) ≢ null) where
  no_process : (h : Ptr) → is_task_queue h ≡ true → (v.own (sem_anchor n) == h) ≡ false
  no_process h q = ground (arith, c.queued.tasks_only (sem_anchor n))

  closed-Placed : Placed (closed n k) (remove (sem_anchor n) v)
  closed-Placed =
      let k1 = set_semaphore n (record (k.semaphores n) { used = false }) k in
      Placed-remove (sem_anchor n) k1 v (Placed-same k k1 v c refl (λ t. refl) refl refl) owned
        (omega arith)

  pub kept : (remove (sem_anchor n) v).items (sem_blocked n) ≡ v.items (sem_blocked n)
  kept = ground (arith, no_process (sem_blocked n) (blocked_queue n k v c u.range u.head))

  same_items : (h : Ptr) → is_task_queue h ≡ true → (remove (sem_anchor n) v).items h ≡ v.items h
  same_items h q = ground (arith, no_process h q)

  -- The owner destroys it, and may stand in a queue.
  pub sem_destroy-Placed :
      (k.tasks k.current).pid ≡ (k.tasks (k.semaphores n).owner).pid
      → let (k', r) = sem_destroy (pos n) k in
        let v' = destroyed_view n v in
        (r ≡ pos 0)
        × Placed k' v'
        × (v'.items readyqueue ≡ v.items readyqueue ++ v.items (sem_blocked n))
        × (v'.items (sem_blocked n) ≡ [])
        × Calm (closed n k) k'
  unfolding sem_destroy
  sem_destroy-Placed mine =
      let r : leb nr_semaphores n ≡ false = ground (arith, u.range) in
      let same : ((k.tasks k.current).pid == (k.tasks (k.semaphores n).owner).pid) ≡ true =
        ground (arith, mine) in
      let ready = same_items readyqueue refl in
      let w = wake_all n (closed n k) (remove (sem_anchor n) v) closed-Placed u.range u.head in
      let all = all_woken n (closed n k) (remove (sem_anchor n) v) closed-Placed u.range u.head in
      rw (r, u.used, same)
        (
          refl,
          w.0,
          all.0
              ∙ ap (λ xs. xs ++ (remove (sem_anchor n) v).items (sem_blocked n)) ready
              ∙ ap (λ xs. v.items readyqueue ++ xs) kept,
          all.1,
          w.1,
        )

  -- where everything stands when the semaphore is destroyed
  pub own-destroyed_view :
      (b : Ptr)
      → (destroyed_view n v).own b ≡ (
          if v.own b == sem_blocked n
          then readyqueue
          else if b == sem_anchor n
          then null
          else v.own b)
  own-destroyed_view b =
      own-all_ready ((remove (sem_anchor n) v).items (sem_blocked n)) (remove (sem_anchor n) v) b
      ∙ rw (kept, c.queued.lists.member (sem_blocked n) b u.head) refl

-- The owner of a semaphore in use destroys it: the call returns 0, the semaphore is out of use and
-- no other changes, every process that was blocked on it is ready, in the order in which they have
-- waited and behind those that were ready before; nothing hangs, the caller goes on to run, and
-- states and queues stay consistent.
pub sem_destroy-wakes :
    (n : ℕ) (k : Kernel) (v : View)
    → Consistent k v
    → InUse n k v
    → v.own (sem_anchor n) ≢ null
    → (k.tasks k.current).pid ≡ (k.tasks (k.semaphores n).owner).pid
    → let (k', r) = sem_destroy (pos n) k in
      let v' = destroyed_view n v in
      (r ≡ pos 0)
      × Consistent k' v'
      × (v'.items readyqueue ≡ v.items readyqueue ++ v.items (sem_blocked n))
      × (v'.items (sem_blocked n) ≡ [])
      × (k'.semaphores ≡ update k.semaphores n (record (k.semaphores n) { used = false }))
      × (k'.current ≡ k.current)
      × (k'.hung ≡ k.hung)
sem_destroy-wakes n k v c u owned mine =
    let p = Consistent-Placed c in
    let d = sem_destroy-Placed n k v p u owned mine in
    let calm = d.4 in
    let cpu = own-destroyed_view n k v p u owned (anchor k.current) in
    (
      d.0,
      record {
        queued = d.1.queued;
        only = d.1.only;
        on_cpu = rw calm.current (c.on_cpu.0, ground (arith, cpu, c.on_cpu, u.range));
      },
      d.2,
      d.3,
      calm.semaphores,
      calm.current,
      calm.hung,
    )
