-- ===== src/System/Owned.antt =====
-- `free_semaphores`: a process that exits destroys every semaphore that it owns.
use so2_zeos.Prelude.{
  ℕ, ◌<◌, ◌≡◌, ◌≢◌, ◌∙◌, sym, refl, ap, inl, inr, true, false, ◌==◌, arith, Bool-cases, List,
  Distinct, [], ◌∷◌, has, pos,
}
use mathlib.Core.Path.{subst}
use so2_zeos.LinkedList.{Ptr, null}
use so2_zeos.LinkedList.Queues.{View, remove}
use so2_zeos.Kernel.{Kernel, nr_tasks, nr_semaphores}
use so2_zeos.Kernel.Addresses.{
  readyqueue, anchor, sem_anchor, sem_blocked, owned_semaphores, list_head_to_semaphore,
}
use so2_zeos.Scheduler.Consistent.{moved}
use so2_zeos.Semaphores.{sem_destroy}
use so2_zeos.Semaphores.Calls.{InUse}
use so2_zeos.Semaphores.Destroy.{destroyed_view, own-destroyed_view, kept}
use so2_zeos.Semaphores.Woken.{all_ready}
use so2_zeos.System.SemLife.{destroy-Shape}
use so2_zeos.System.Dropped.{Dropping}

-- Processes that become ready leave the list `g`, and no other.
kept-all_ready :
    (g h : Ptr) (xs : List Ptr) (v : View)
    → ((a : Ptr) → has a xs ≡ true → v.own a ≡ g)
    → Distinct xs
    → g ≢ h
    → g ≢ null
    → h ≢ readyqueue
    → (all_ready xs v).items h ≡ v.items h
kept-all_ready g h [] v own d ne nn nr = refl
kept-all_ready g h (x ∷ xs) v own d ne nn nr =
    let e : v.own x ≡ g = own x (ground arith) in
    kept-all_ready g h xs (moved x readyqueue false v) (λ a m. ground (arith, own a)) d.1 ne nn nr
    ∙ rw e (ground arith)

-- The first semaphore of the list is destroyed, and leaves it.
module _ (x p : ℕ) (xs : List Ptr) (k : Kernel) (v : View) (h : Dropping x k v) (lt : x < nr_tasks)
    (first : v.items (owned_semaphores x) ≡ p ∷ xs) where
  abbrev sem : ℕ
  sem = list_head_to_semaphore p

  owned_here : v.own p ≡ owned_semaphores x
  owned_here =
      let m : has p (p ∷ xs) ≡ (v.own p == owned_semaphores x) =
        rw first at (h.placed.queued.lists.member (owned_semaphores x) p h.owns) in
      ground (arith, m)

  in_range : (sem_anchor sem ≡ p) × (sem < nr_semaphores)
  in_range = let b = h.shape.owned_only p (ground (arith, owned_here, lt)) in omega (arith, b)

  in_list : v.own (sem_anchor sem) ≡ owned_semaphores x
  in_list = ap v.own in_range.0 ∙ owned_here

  is_used : (k.semaphores sem).used ≡ true
  is_used = elim (Bool-cases (k.semaphores sem).used) [
    | inl e ↦ e
    | inr e ↦ absurd (ground (arith, h.shape.unused_loose sem in_range.1 e, in_list))
  ]

  is_owner : (k.semaphores sem).owner ≡ x
  is_owner = let o = h.shape.used_owned sem in_range.1 is_used in omega (arith, o, in_list)

  is_open : InUse sem k v
  is_open = record {
    range = in_range.1;
    used = is_used;
    head = h.shape.used_head sem in_range.1 is_used;
  }

  in_a_list : v.own (sem_anchor sem) ≢ null
  in_a_list e = omega (arith, in_list, e)

  items_left : (destroyed_view sem v).items (owned_semaphores x) ≡ xs
  items_left =
      let w = remove (sem_anchor sem) v in
      let queue = sem_blocked sem in
      let same = kept sem k v h.placed is_open in_a_list in
      let member = h.placed.queued.lists.member queue in
      let before : (a : Ptr) → has a (w.items queue) ≡ true → w.own a ≡ queue =
        λ a m. ground (arith, member a is_open.head, same, m, in_list, in_range, lt) in
      let distinct : Distinct (w.items queue) =
        subst Distinct (sym same) (h.placed.queued.lists.distinct queue is_open.head) in
      kept-all_ready queue (owned_semaphores x) (w.items queue) w before distinct
        (omega (arith, lt)) (omega arith) (omega arith)
      ∙ rw (in_list, first) (ground (arith, in_range))

  pub destroy_first :
      let k' = (sem_destroy (pos sem) k).0 in
      let v' = destroyed_view sem v in
      Dropping x k' v'
      × (v'.items (owned_semaphores x) ≡ xs)
      × (k'.hung ≡ k.hung)
      × (k'.idle_task ≡ k.idle_task)
      × ((p == owned_semaphores x) ≡ false)
  destroy_first =
      let mine = ap (λ u. (k.tasks u).pid) (h.runs ∙ sym is_owner) in
      let d = destroy-Shape x sem k v h.placed h.shape in_range.1 is_used mine in
      let calm = d.3 in
      (
        record {
          placed = d.0;
          shape = d.1;
          keyboard = rw d.2 h.keyboard;
          owns = rw d.2 h.owns;
          free = ground (
            arith,
            own-destroyed_view sem k v h.placed is_open in_a_list (anchor x),
            h.free,
            in_range,
          );
          runs = calm.current ∙ h.runs;
        },
        items_left,
        calm.hung,
        calm.idle_task,
        ground (arith, in_range),
      )
