-- ===== src/Semaphores/Woken.antt =====
-- The loop of `sys_sem_destroy`, which wakes the processes of a list one by one.
use mathlib.Core.Path.{subst}
use so2_zeos.Prelude.{
  if◌then◌else◌, ℕ, zero, suc, ◌-◌, ◌≤◌, ◌<◌, ◌≡◌, ◌≢◌, refl, ◌∙◌, sym, ap, true, false, List, [],
  ◌∷◌, ◌==◌, arith, has, length,
}
use so2_zeos.LinkedList.{Ptr, null, Links, list_del}
use so2_zeos.LinkedList.Chain.{Chain}
use so2_zeos.LinkedList.Queues.{View, remove}
use so2_zeos.LinkedList.Queues.Remove.{list_del-remove}
use so2_zeos.Kernel.{Kernel, nr_tasks, set_links}
use so2_zeos.Stats.{blocked_to_ready}
use so2_zeos.Kernel.Addresses.{readyqueue, anchor, list_head_to_task}
use so2_zeos.Scheduler.{add_process_to_scheduling}
use so2_zeos.Scheduler.Consistent.{is_task_queue, Placed, Consistent, moved}
use so2_zeos.Scheduler.Dispatch.{Queued-same}
use so2_zeos.Scheduler.Wakeup.{
  add_process_to_scheduling-Placed, add_process_to_scheduling-Kept, hung-add_process_to_scheduling,
}
use so2_zeos.Semaphores.{wake_deleted, wake_from}

-- `Consistent` reads the links, the states, who runs and who idles.
pub Consistent-same :
    (k k' : Kernel) (v : View)
    → Consistent k v
    → k'.links ≡ k.links
    → ((t : ℕ) → (k'.tasks t).state ≡ (k.tasks t).state)
    → k'.idle_task ≡ k.idle_task
    → k'.current ≡ k.current
    → Consistent k' v
Consistent-same k k' v c l s i r = record {
  queued = Queued-same k k' v c.queued l s i;
  on_cpu = rw r c.on_cpu;
  only = λ t h ne out. ground (arith, c.only t h, i, r);
}

pub Placed-same :
    (k k' : Kernel) (v : View)
    → Placed k v
    → k'.links ≡ k.links
    → ((t : ℕ) → (k'.tasks t).state ≡ (k.tasks t).state)
    → k'.idle_task ≡ k.idle_task
    → k'.current ≡ k.current
    → Placed k' v
Placed-same k k' v c l s i r = record {
  queued = Queued-same k k' v c.queued l s i;
  only = λ t h ne out. ground (arith, c.only t h, i, r);
}

-- the queues after the processes `xs` have gone to the end of the ready queue, one by one
abbrev pub all_ready : List Ptr → View → View
all_ready [] v = v
all_ready (x ∷ xs) v = all_ready xs (moved x readyqueue false v)

pub own-all_ready :
    (xs : List Ptr) (v : View) (b : Ptr)
    → (all_ready xs v).own b ≡ (if has b xs then readyqueue else v.own b)
own-all_ready [] v b = refl
own-all_ready (x ∷ xs) v b = ground (arith, own-all_ready xs (moved x readyqueue false v) b)

pub is_head-all_ready : (xs : List Ptr) (v : View) → (all_ready xs v).is_head ≡ v.is_head
is_head-all_ready [] v = refl
is_head-all_ready (x ∷ xs) v = is_head-all_ready xs (moved x readyqueue false v) ∙ (ground arith)

-- who runs, who idles, and whether the kernel hangs
pub record Calm (k k' : Kernel) : Type 0 where
  pub current : k'.current ≡ k.current
  pub idle_task : k'.idle_task ≡ k.idle_task
  pub hung : k'.hung ≡ k.hung
  pub semaphores : k'.semaphores ≡ k.semaphores
  pub keyboard : k'.keyboard ≡ k.keyboard
  pub dirs : (t : ℕ) → (k'.tasks t).dir ≡ (k.tasks t).dir
  pub counts : k'.mem.dir_count ≡ k.mem.dir_count

wake_deleted-Placed :
    (t : ℕ) (k : Kernel) (v : View)
    → Placed k v
    → t < nr_tasks
    → v.own (anchor t) ≢ null
    → Placed (wake_deleted t k) (moved (anchor t) readyqueue false v) × Calm k (wake_deleted t k)
unfolding wake_deleted
wake_deleted-Placed t k v c lt waits =
    let k1 = add_process_to_scheduling t blocked_to_ready false k in
    let s = add_process_to_scheduling-Kept t blocked_to_ready false k in
    (
      Placed-same k1 (wake_deleted t k) (moved (anchor t) readyqueue false v)
          (add_process_to_scheduling-Placed t blocked_to_ready false k v c lt waits) refl
          (λ u. ground arith) refl refl,
      record {
        current = s.current;
        idle_task = s.idle_task;
        hung = hung-add_process_to_scheduling t blocked_to_ready false k (λ e. cc);
        semaphores = s.semaphores;
        keyboard = s.keyboard;
        dirs = λ u. (ground arith) ∙ s.dirs u;
        counts = s.counts;
      },
    )

-- the node behind a head, or the head itself
abbrev pub first_of : List Ptr → Ptr → Ptr
first_of [] h = h
first_of (x ∷ xs) h = x

pub next_of_first :
    (l : Links) (h x : Ptr) (xs : List Ptr) → Chain l h (x ∷ xs) h → l.next x ≡ first_of xs h
next_of_first l h x [] c = c.2.0
next_of_first l h x (y ∷ ys) c = c.2.0

pub first-next : (l : Links) (h : Ptr) (xs : List Ptr) → Chain l h xs h → first_of xs h ≡ l.next h
first-next l h [] c = sym c.0
first-next l h (x ∷ xs) c = sym c.0

-- The first process of a queue, as a task.
first_waits :
    (h x : Ptr) (xs : List Ptr) (k : Kernel) (v : View)
    → Placed k v
    → v.is_head h ≡ true
    → is_task_queue h ≡ true
    → v.items h ≡ x ∷ xs
    → (v.own x ≡ h) × (anchor 0 ≤ x) × (x < anchor nr_tasks)
first_waits h x xs k v c hh q e =
    let m : has x (x ∷ xs) ≡ (v.own x == h) = rw e at (c.queued.lists.member h x hh) in
    let own : v.own x ≡ h = ground (arith, m) in
    let b = c.queued.tasks_only x (rw own q) in (own, b.0, b.1)

-- The first process of a queue is woken, and leaves it.
wake_first :
    (h x : Ptr) (xs : List Ptr) (k : Kernel) (v : View)
    → Placed k v
    → v.is_head h ≡ true
    → is_task_queue h ≡ true
    → h ≢ readyqueue
    → v.items h ≡ x ∷ xs
    → Placed (wake_deleted (list_head_to_task x) k) (moved x readyqueue false v)
      × Calm k (wake_deleted (list_head_to_task x) k)
      × ((moved x readyqueue false v).items h ≡ xs)
      × ((x == h) ≡ false)
wake_first h x xs k v c hh q nr e =
    let (own, lo, hi) = first_waits h x xs k v c hh q e in
    let at : anchor (x - 100) ≡ x = omega arith in
    let real : h ≢ null = λ z. ground (arith, c.queued.lists.null_free) in
    let w =
      wake_deleted-Placed (x - 100) k v c (omega arith)
        (λ out. real (sym own ∙ ap v.own (sym at) ∙ out)) in
    (
      subst (λ a. Placed (wake_deleted (x - 100) k) (moved a readyqueue false v)) at w.0,
      w.1,
      rw (own, e) (ground arith),
      ground (arith, c.queued.lists.head_free h hh),
    )

-- The loop of `sys_sem_destroy` from the first process of the list on: with fuel for all of them it
-- makes each ready.
pub wake_from-Placed :
    (fuel : ℕ) (h : Ptr) (xs : List Ptr) (k : Kernel) (v : View)
    → Placed k v
    → v.is_head h ≡ true
    → is_task_queue h ≡ true
    → h ≢ readyqueue
    → v.items h ≡ xs
    → length xs < fuel
    → Placed (wake_from fuel h (first_of xs h) k) (all_ready xs v)
      × Calm k (wake_from fuel h (first_of xs h) k)
unfolding wake_from
wake_from-Placed zero h xs k v c hh q nr e lt = absurd (omega arith)
wake_from-Placed (suc fuel) h [] k v c hh q nr e lt =
    let same : (h == h) ≡ true = ground arith in
    rw same (
      c,
      record {
        current = refl;
        idle_task = refl;
        hung = refl;
        semaphores = refl;
        keyboard = refl;
        dirs = λ t. refl;
        counts = refl;
      },
    )
wake_from-Placed (suc fuel) h (x ∷ xs) k v c hh q nr e lt =
    let w = wake_first h x xs k v c hh q nr e in
    let next = next_of_first k.links h x xs (rw e at (c.queued.lists.ring h hh)) in
    let ih =
      wake_from-Placed fuel h xs (wake_deleted (list_head_to_task x) k) (moved x readyqueue false v)
        w.0 (ground arith) q nr w.2 (omega arith) in
    rw (w.3, next)
      (
        ih.0,
        record {
          current = ih.1.current ∙ w.1.current;
          idle_task = ih.1.idle_task ∙ w.1.idle_task;
          hung = ih.1.hung ∙ w.1.hung;
          semaphores = ih.1.semaphores ∙ w.1.semaphores;
          keyboard = ih.1.keyboard ∙ w.1.keyboard;
          dirs = λ t. ih.1.dirs t ∙ w.1.dirs t;
          counts = ih.1.counts ∙ w.1.counts;
        },
      )

-- A node that is no process leaves its list.
pub Placed-remove :
    (a : Ptr) (k : Kernel) (v : View)
    → Placed k v
    → v.own a ≢ null
    → anchor nr_tasks ≤ a
    → Placed (set_links (list_del a k.links) k) (remove a v)
Placed-remove a k v c linked le = record {
  queued = record {
    lists = list_del-remove c.queued.lists a linked;
    heads = c.queued.heads;
    nodes = c.queued.nodes;
    states = λ t h ne. ground (arith, c.queued.states t h ne);
    idle = ground (arith, c.queued.idle);
    tasks_only = λ b q. ground (arith, c.queued.tasks_only b);
  };
  only = λ t h ne out. ground (arith, c.only t h ne);
}
