-- ===== src/System/Cleaning.antt =====
-- The loop of `free_semaphores` to its end.
use so2_zeos.Prelude.{
  ℕ, zero, suc, ◌≤◌, ◌<◌, ◌≡◌, ◌≢◌, ◌∙◌, refl, inl, inr, true, false, ◌==◌, arith, Bool-cases, List,
  [], ◌∷◌, length, length-le-range, pos,
}
use mathlib.Core.Path.{subst}
use so2_zeos.LinkedList.{Ptr, null, init_list_head}
use so2_zeos.LinkedList.Queues.{View, open_list}
use so2_zeos.LinkedList.Queues.Open.{init_list_head-open_list}
use so2_zeos.Kernel.{Kernel, nr_tasks, nr_semaphores, set_links}
use so2_zeos.Kernel.Addresses.{
  free_queue, keyboardqueue, anchor, sem_anchor, owned_semaphores, list_head_to_semaphore,
}
use so2_zeos.Scheduler.Consistent.{Queued}
use so2_zeos.Semaphores.{sem_destroy, destroy_from, free_semaphores}
use so2_zeos.Semaphores.Destroy.{destroyed_view}
use so2_zeos.Semaphores.Woken.{first_of, next_of_first, first-next}
use so2_zeos.System.Shape.{nobody, facts, Shape, Dirs-frame}
use so2_zeos.System.Dropped.{Dropping}
use so2_zeos.System.Owned.{destroy_first}

-- Task `x` is free, the lists are in order, and all but the idle task wait.
abbrev pub Cleaned : ℕ → Kernel → Kernel → Type 0
Cleaned x k k' =
    (v' : View) × Queued k' v'
    × Shape nobody (facts k') v'
    × (v'.is_head keyboardqueue ≡ true)
    × (v'.own (anchor x) ≡ free_queue)
    × ((t : ℕ) → t < nr_tasks → t ≢ k'.idle_task → v'.own (anchor t) ≢ null)
    × (k'.hung ≡ k.hung)
    × (k'.idle_task ≡ k.idle_task)

module _ (x : ℕ) (lt : x < nr_tasks) where
  abbrev list : Ptr
  list = owned_semaphores x

  next_owned :
      (p : Ptr) (xs : List Ptr) (k : Kernel) (v : View)
      → Dropping x k v
      → v.items list ≡ p ∷ xs
      → k.links.next p ≡ first_of xs list
  next_owned p xs k v h e =
      let ring = h.placed.queued.lists.ring list h.owns in
      next_of_first k.links list p xs (rw e at ring)

  -- The loop of `free_semaphores`: with fuel for all semaphores it destroys each.
  destroy_all :
      (fuel : ℕ) (xs : List Ptr) (k : Kernel) (v : View)
      → Dropping x k v
      → v.items list ≡ xs
      → length xs < fuel
      → let k' = destroy_from fuel list (first_of xs list) k in
        (v' : View) × Dropping x k' v'
        × (v'.items list ≡ [])
        × (k'.hung ≡ k.hung)
        × (k'.idle_task ≡ k.idle_task)
  unfolding destroy_from
  destroy_all zero xs k v h e few = absurd (omega arith)
  destroy_all (suc fuel) [] k v h e few =
      let same : (list == list) ≡ true = ground arith in rw same (v, h, e, refl, refl)
  destroy_all (suc fuel) (p ∷ xs) k v h e few =
      let s = destroy_first x p xs k v h lt e in
      let sem = list_head_to_semaphore p in
      let ih =
        destroy_all fuel xs (sem_destroy (pos sem) k).0 (destroyed_view sem v) s.0 s.1
          (omega arith) in
      rw (s.4, next_owned p xs k v h e) (ih.0, ih.1, ih.2, ih.3 ∙ s.2, ih.4 ∙ s.3)

  -- More fuel changes nothing.
  destroy_all-ends :
      (fuel enough : ℕ) (xs : List Ptr) (k : Kernel) (v : View)
      → Dropping x k v
      → v.items list ≡ xs
      → length xs < fuel
      → length xs < enough
      → destroy_from fuel list (first_of xs list) k ≡ destroy_from enough list (first_of xs list) k
  unfolding destroy_from
  destroy_all-ends zero enough xs k v h e few also = absurd (omega arith)
  destroy_all-ends (suc fuel) zero xs k v h e few also = absurd (omega arith)
  destroy_all-ends (suc fuel) (suc enough) [] k v h e few also =
      let same : (list == list) ≡ true = ground arith in rw same refl
  destroy_all-ends (suc fuel) (suc enough) (p ∷ xs) k v h e few also =
      let s = destroy_first x p xs k v h lt e in
      let sem = list_head_to_semaphore p in
      rw (s.4, next_owned p xs k v h e)
        (destroy_all-ends fuel enough xs (sem_destroy (pos sem) k).0 (destroyed_view sem v) s.0 s.1
          (omega arith) (omega arith))

  module _ (k : Kernel) (v : View) (h : Dropping x k v) where
    owned_few : length (v.items list) < 21
    owned_few =
        let l = h.placed.queued.lists in
        let few =
          length-le-range nr_semaphores (sem_anchor 0) (v.items list) (l.distinct list h.owns)
            (λ a m. h.shape.owned_only a (ground (arith, l.member list a h.owns, lt))) in
        omega (arith, few)

    first_owned : first_of (v.items list) list ≡ k.links.next list
    first_owned = first-next k.links list (v.items list) (h.placed.queued.lists.ring list h.owns)

    no_owner : v.own list ≡ null
    no_owner = elim (Bool-cases (v.own list == null)) [
      | inl e ↦ ground arith
      | inr e ↦ absurd (ground (arith, h.shape.nodes list, lt))
    ]

    unowned : v.items list ≡ [] → (a : Ptr) → v.own a ≢ list
    unowned none_left a e =
        let m : false ≡ (v.own a == list) =
          rw none_left at (h.placed.queued.lists.member list a h.owns) in
        ground (arith, m)

    -- The list is initialised again, and the process can be used again.
    cleaned :
        v.items list ≡ []
        → (Queued (set_links (init_list_head list k.links) k) (open_list list v))
          × Shape nobody (facts k) (open_list list v)
    cleaned none_left =
        let q = h.placed.queued in
        let sh = h.shape in
        (
          record {
            lists =
                init_list_head-open_list q.lists list (omega arith) no_owner (unowned none_left);
            heads = ground (arith, q.heads);
            nodes = λ t l. ground (arith, q.nodes t l, lt);
            states = q.states;
            idle = q.idle;
            tasks_only = q.tasks_only;
          },
          record {
            lists = λ g e. ground (arith, sh.lists g, lt);
            nodes = sh.nodes;
            owned_only = sh.owned_only;
            used_head = λ n l u. ground (arith, sh.used_head n l u);
            used_owned = sh.used_owned;
            unused_loose = sh.unused_loose;
            unused_empty = sh.unused_empty;
            counted_empty = sh.counted_empty;
            owners = λ t l ne. ground (arith, sh.owners t l ne);
            fresh = λ t l ne at a e. elim (Bool-cases (t == x)) [
              | inl same ↦ ground (arith, unowned none_left a)
              | inr other ↦ sh.fresh t l (ground arith) at a e
            ];
            dirs_head = ground (arith, sh.dirs_head);
            dirs_only = sh.dirs_only;
            dirs = Dirs-frame (facts k) v (open_list list v) (λ t l. refl) (λ d l. refl) sh.dirs;
          },
        )

    -- The loop ends within its 21 rounds, before the fuel runs out, which would hang the kernel.
    pub free_semaphores-ends :
        (fuel : ℕ)
        → 21 ≤ fuel
        → ((destroy_from fuel list (k.links.next list) k).hung ≡ k.hung)
          × (destroy_from fuel list (k.links.next list) k
              ≡ destroy_from 21 list (k.links.next list) k)
    free_semaphores-ends fuel enough =
        let few : length (v.items list) < fuel = omega (arith, owned_few) in
        let all = destroy_all fuel (v.items list) k v h refl few in
        subst
          (λ p.
            ((destroy_from fuel list p k).hung ≡ k.hung)
            × (destroy_from fuel list p k ≡ destroy_from 21 list p k))
          first_owned (all.3, destroy_all-ends fuel 21 (v.items list) k v h refl few owned_few)

  -- A process that has become free owns no semaphore when `free_semaphores` has ended.
  pub free_semaphores-clean :
      (k : Kernel) (v : View) → Dropping x k v → let k' = free_semaphores x k in Cleaned x k k'
  unfolding free_semaphores
  free_semaphores-clean k v h =
      let all = destroy_all 21 (v.items list) k v h refl (owned_few k v h) in
      let start = first_owned k v h in
      subst
        (λ p.
          let k1 = destroy_from 21 list p k in
          let k' = set_links (init_list_head list k1.links) k1 in Cleaned x k k')
        start (finish all)
    where
      finish :
          let k1 = destroy_from 21 list (first_of (v.items list) list) k in
          (v1 : View) × Dropping x k1 v1
            × (v1.items list ≡ [])
            × (k1.hung ≡ k.hung)
            × (k1.idle_task ≡ k.idle_task)
          → let k' = set_links (init_list_head list k1.links) k1 in Cleaned x k k'
      finish (v1, h1, none_left, hung, idle) =
          let k1 = destroy_from 21 list (first_of (v.items list) list) k in
          let c = cleaned k1 v1 h1 none_left in
          (
            open_list list v1,
            c.0,
            c.1,
            ground (arith, h1.keyboard),
            h1.free,
            λ t l ne out. ground (arith, h1.placed.only t l ne out, h1.runs, h1.free),
            hung,
            idle,
          )
