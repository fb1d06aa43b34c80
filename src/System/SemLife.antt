-- ===== src/System/SemLife.antt =====
-- `sys_sem_init` and `sys_sem_destroy` keep the invariant.
use so2_zeos.Prelude.{
  ℕ, ◌<◌, ◌≡◌, ◌≢◌, inl, inr, refl, sym, true, false, ◌==◌, leb, arith, Bool-cases, update, ℤ, pos,
  negsuc,
}
use mathlib.Core.Path.{subst}
use so2_zeos.LinkedList.{null, init_list_head, list_add}
use so2_zeos.LinkedList.Queues.{View, Represents, open_list, push, remove}
use so2_zeos.LinkedList.Queues.Open.{init_list_head-open_list}
use so2_zeos.LinkedList.Queues.Insert.{list_add-push}
use so2_zeos.Kernel.{Kernel, nr_semaphores}
use so2_zeos.Kernel.Addresses.{
  keyboardqueue, anchor, dir_anchor, sem_anchor, sem_blocked, owned_semaphores,
}
use so2_zeos.Scheduler.Consistent.{Consistent, Placed, Consistent-Placed}
use so2_zeos.Semaphores.{sem_init, sem_destroy}
use so2_zeos.Semaphores.Calls.{InUse}
use so2_zeos.Semaphores.Destroy.{
  closed, destroyed_view, own-destroyed_view, sem_destroy-Placed, sem_destroy-wakes,
}
use so2_zeos.Semaphores.Woken.{is_head-all_ready, Calm}
use so2_zeos.System.Shape.{Shape, Sound, facts, facts-eq, nobody, Dirs-facts, Dirs-frame}
use so2_zeos.System.Interrupts.{Keeps}

-- The shape when a semaphore is destroyed by its owner; `x` may be leaving.
module _ (x n : ℕ) (k : Kernel) (v : View) (c : Placed k v) (sh : Shape x (facts k) v)
    (lt : n < nr_semaphores) (used : (k.semaphores n).used ≡ true) where
  in_use : InUse n k v
  in_use = record { range = lt; used = used; head = sh.used_head n lt used }

  owned : v.own (sem_anchor n) ≢ null
  owned e = ground (arith, sh.used_owned n lt used)

  destroyed-Shape : Shape x (facts (closed n k)) (destroyed_view n v)
  destroyed-Shape =
      let h =
        is_head-all_ready ((remove (sem_anchor n) v).items (sem_blocked n))
          (remove (sem_anchor n) v) in
      let o = own-destroyed_view n k v c in_use owned in
      let tasks = c.queued.tasks_only in
      record {
        lists = λ g e. sh.lists g (rw h at e);
        nodes = λ a ne. ground (arith, sh.nodes a, o a);
        owned_only = λ a e. ground (arith, sh.owned_only a, o a);
        used_head = λ m l u. rw h (ground (arith, sh.used_head m l));
        used_owned = λ m l u. ground (arith, sh.used_owned m l, o (sem_anchor m));
        unused_loose =
            λ m l u. ground (arith, sh.unused_loose m l, o (sem_anchor m), tasks (sem_anchor m));
        unused_empty = λ m l u a e. elim (Bool-cases (m == n)) [
          | inl same ↦ ground (arith, o a)
          | inr other ↦ ground (arith, o a, sh.unused_empty m l (rw other at u) a)
        ];
        counted_empty = λ m l u c a e. elim (Bool-cases (m == n)) [
          | inl same ↦ ground (arith, o a)
          | inr other ↦ ground (arith, o a, sh.counted_empty m l (rw other at u) (rw other at c) a)
        ];
        owners = λ t l ne. rw h (ground (arith, sh.owners t l, o (anchor t)));
        fresh =
            λ t l ne at a e. ground (arith, sh.fresh t l ne (ground (arith, o (anchor t))) a, o a);
        dirs_head = rw h sh.dirs_head;
        dirs_only = λ a e. ground (arith, sh.dirs_only a, o a);
        dirs = Dirs-facts (facts k) (facts (closed n k)) (destroyed_view n v) refl refl (
            Dirs-frame (facts k) v (destroyed_view n v) (λ t l. ground (arith, o (anchor t)))
              (λ d l. ground (arith, o (dir_anchor d), tasks (dir_anchor d))) sh.dirs);
      }

  pub destroy-Shape :
      (k.tasks k.current).pid ≡ (k.tasks (k.semaphores n).owner).pid
      → Placed (sem_destroy (pos n) k).0 (destroyed_view n v)
        × Shape x (facts (sem_destroy (pos n) k).0) (destroyed_view n v)
        × ((destroyed_view n v).is_head ≡ v.is_head)
        × Calm (closed n k) (sem_destroy (pos n) k).0
  destroy-Shape mine =
      let d = sem_destroy-Placed n k v c in_use owned mine in
      let k' = (sem_destroy (pos n) k).0 in
      let calm = d.4 in
      (
        d.1,
        subst (λ f. Shape x f (destroyed_view n v))
            (sym (facts-eq (closed n k) k' calm.semaphores calm.dirs calm.counts)) destroyed-Shape,
        is_head-all_ready ((remove (sem_anchor n) v).items (sem_blocked n))
            (remove (sem_anchor n) v),
        calm,
      )

module _ (n : ℕ) (k : Kernel) (v : View) (s : Sound k v) (lt : n < nr_semaphores) where
  -- the owner destroys it
  destroyed-Keeps :
      (k.semaphores n).used ≡ true
      → (k.tasks k.current).pid ≡ (k.tasks (k.semaphores n).owner).pid
      → Keeps k (sem_destroy (pos n) k).0
  destroyed-Keeps used mine =
      let d = destroy-Shape nobody n k v (Consistent-Placed s.consistent) s.shape lt used mine in
      let w =
        sem_destroy-wakes n k v s.consistent
          (record { range = lt; used = used; head = s.shape.used_head n lt used })
          (λ e. ground (arith, s.shape.used_owned n lt used)) mine in
      let still : (destroyed_view n v).is_head keyboardqueue ≡ true = rw d.2 s.keyboard in
      ((destroyed_view n v, record { consistent = w.1; keyboard = still; shape = d.1 }), d.3.hung)

  close_semaphore-Keeps : Keeps k (sem_destroy (pos n) k).0
  unfolding sem_destroy
  close_semaphore-Keeps =
      let r : leb nr_semaphores n ≡ false = ground (arith, lt) in
      elim (Bool-cases (k.semaphores n).used) [
        | inr unused ↦ rw (r, unused) ((v, s), refl)
        | inl used ↦
            elim (Bool-cases ((k.tasks k.current).pid == (k.tasks (k.semaphores n).owner).pid)) [
              | inl mine ↦ destroyed-Keeps used (ground arith)
              | inr other ↦ rw (r, used, other) ((v, s), refl)
            ]
      ]

pub sem_destroy-Keeps : (z : ℤ) (k : Kernel) (v : View) → Sound k v → Keeps k (sem_destroy z k).0
unfolding sem_destroy
sem_destroy-Keeps (negsuc n) k v s = ((v, s), refl)
sem_destroy-Keeps (pos n) k v s = elim (Bool-cases (leb nr_semaphores n)) [
  | inl out ↦ rw out ((v, s), refl)
  | inr within ↦ close_semaphore-Keeps n k v s (ground arith)
]

-- the lists of a semaphore that is opened
abbrev opened_view : ℕ → Kernel → View → View
opened_view n k v = push (sem_anchor n) (owned_semaphores k.current) (open_list (sem_blocked n) v)

module _ (n value : ℕ) (k : Kernel) (v : View) (s : Sound k v) (lt : n < nr_semaphores)
    (unused : (k.semaphores n).used ≡ false) where
  abbrev opened_kernel : Kernel
  opened_kernel = record k {
    semaphores = update k.semaphores n (record { used = true; count = value; owner = k.current });
    links =
        list_add (sem_anchor n) (owned_semaphores k.current)
          (init_list_head (sem_blocked n) k.links);
  }

  no_node : v.own (sem_blocked n) ≡ null
  no_node = elim (Bool-cases (v.own (sem_blocked n) == null)) [
    | inl e ↦ ground arith
    | inr e ↦ absurd (ground (arith, s.shape.nodes (sem_blocked n)))
  ]

  not_head : v.is_head (sem_anchor n) ≡ false
  not_head = elim (Bool-cases (v.is_head (sem_anchor n))) [
    | inl e ↦ absurd (ground (arith, s.shape.lists (sem_anchor n)))
    | inr e ↦ e
  ]

  opened-Represents : Represents opened_kernel.links (opened_view n k v)
  opened-Represents =
      let c = s.consistent in
      let r =
        init_list_head-open_list c.queued.lists (sem_blocked n) (omega arith) no_node
          (s.shape.unused_empty n lt unused) in
      let list = s.shape.owners k.current c.on_cpu.0 (ground (arith, c.on_cpu)) in
      list_add-push r {a = sem_anchor n} {h = owned_semaphores k.current} (record {
        head = ground (arith, list);
        node = ground (arith, not_head);
        real = omega arith;
        free = s.shape.unused_loose n lt unused;
      })

  opened-Consistent : Consistent opened_kernel (opened_view n k v)
  opened-Consistent =
      let c = s.consistent in
      let q = c.queued in
      record {
        queued = record {
          lists = opened-Represents;
          heads = ground (arith, q.heads);
          nodes = λ t h. ground (arith, q.nodes t h);
          states = λ t h ne. ground (arith, q.states t h ne);
          idle = ground (arith, q.idle);
          tasks_only = λ a h. ground (arith, q.tasks_only a, c.on_cpu);
        };
        on_cpu = ground (arith, c.on_cpu);
        only = λ t h ne out. ground (arith, c.only t h ne);
      }

  opened-Shape : Shape nobody (facts opened_kernel) (opened_view n k v)
  opened-Shape =
      let sh = s.shape in
      let v' = opened_view n k v in
      let cpu = s.consistent.on_cpu in
      record {
        lists = λ h e. ground (arith, sh.lists h);
        nodes = λ a ne. ground (arith, sh.nodes a);
        owned_only = λ a e. ground (arith, sh.owned_only a);
        used_head = λ m l u. ground (arith, sh.used_head m l);
        used_owned = λ m l u. ground (arith, sh.used_owned m l, cpu);
        unused_loose = λ m l u. ground (arith, sh.unused_loose m l);
        unused_empty = λ m l u a. elim (Bool-cases (m == n)) [
          | inl same ↦ λ e. ground (arith, cpu)
          | inr other ↦
              let old = sh.unused_empty m l (rw other at u) a in λ e. ground (arith, old, cpu)
        ];
        counted_empty = λ m l u c a. elim (Bool-cases (m == n)) [
          | inl same ↦ λ e. ground (arith, sh.unused_empty n lt unused a, cpu)
          | inr other ↦
              let old = sh.counted_empty m l (rw other at u) (rw other at c) a in
              λ e. ground (arith, old, cpu)
        ];
        owners = λ t l ne. ground (arith, sh.owners t l);
        fresh = λ t l ne at a e. ground (arith, sh.fresh t l ne (ground (arith, cpu)) a, cpu);
        dirs_head = ground (arith, sh.dirs_head);
        dirs_only = λ a e. ground (arith, sh.dirs_only a, cpu);
        dirs =
            Dirs-facts (facts k) (facts opened_kernel) v' refl refl
              (Dirs-frame (facts k) v v' (λ t l. ground arith) (λ d l. ground arith) sh.dirs);
      }

pub sem_init-Keeps :
    (z : ℤ) (value : ℕ) (k : Kernel) (v : View) → Sound k v → Keeps k (sem_init z value k).0
unfolding sem_init
sem_init-Keeps (negsuc n) value k v s = ((v, s), refl)
sem_init-Keeps (pos n) value k v s = elim (Bool-cases (leb nr_semaphores n)) [
  | inl out ↦ rw out ((v, s), refl)
  | inr within ↦ rw within (elim (Bool-cases (k.semaphores n).used) [
    | inl used ↦ rw used ((v, s), refl)
    | inr unused ↦
        let lt : n < nr_semaphores = ground arith in
        rw unused (
          (
            opened_view n k v,
            record {
              consistent = opened-Consistent n value k v s lt unused;
              keyboard = ground (arith, s.keyboard);
              shape = opened-Shape n value k v s lt unused;
            },
          ),
          refl,
        )
  ])
]
