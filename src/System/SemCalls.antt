-- ===== src/System/SemCalls.antt =====
-- The calls on semaphores keep the invariant, whatever their argument.
use so2_zeos.Prelude.{
  ℕ, ◌<◌, ◌≡◌, ◌≢◌, inl, inr, refl, ◌∙◌, sym, ap, true, false, ◌==◌, leb, arith, Bool-cases, update,
  ℤ, pos, negsuc,
}
use mathlib.Core.Path.{subst}
use so2_zeos.LinkedList.{Ptr, list_empty}
use so2_zeos.LinkedList.Queues.{View}
use so2_zeos.LinkedList.Queues.Open.{list_first-items, list_empty_iff}
use so2_zeos.Stats.{sys_to_blocked, blocked_to_ready}
use so2_zeos.Kernel.{in_sem_wait, Kernel, Semaphore, nr_semaphores}
use so2_zeos.Kernel.Addresses.{anchor, sem_blocked, list_head_to_task}
use so2_zeos.Scheduler.{update_process_state_rr}
use so2_zeos.Scheduler.Wakeup.{hung-add_process_to_scheduling}
use so2_zeos.Semaphores.{
  set_semaphore, block_on, wait_semaphore, sem_wait, signal_semaphore, sem_signal,
}
use so2_zeos.Semaphores.Woken.{Consistent-same}
use so2_zeos.System.Shape.{nobody, facts, Facts, Shape, Sound, Place}
use so2_zeos.System.Moves.{leave-Sound, wake-Sound, first-Waiting}
use so2_zeos.System.Interrupts.{Keeps}
use so2_zeos.System.Typing.{not_empty}

-- The shape reads only which semaphores are in use, and whose.
Shape-semaphores :
    (x : ℕ) (f : Facts) (s' : ℕ → Semaphore) (v : View)
    → ((n : ℕ) → ((s' n).used ≡ (f.semaphores n).used) × ((s' n).owner ≡ (f.semaphores n).owner))
    → ((n : ℕ)
        → n < nr_semaphores
        → (s' n).used ≡ true
        → (s' n).count ≢ 0
        → (a : Ptr) → v.own a ≢ sem_blocked n)
    → Shape x f v
    → Shape x (record f { semaphores = s' }) v
Shape-semaphores x f s' v e empty h = record {
  lists = h.lists;
  nodes = h.nodes;
  owned_only = h.owned_only;
  used_head = λ n l u. h.used_head n l (sym (e n).0 ∙ u);
  used_owned = λ n l u. rw (e n).1 (h.used_owned n l (sym (e n).0 ∙ u));
  unused_loose = λ n l u. h.unused_loose n l (sym (e n).0 ∙ u);
  unused_empty = λ n l u. h.unused_empty n l (sym (e n).0 ∙ u);
  counted_empty = empty;
  owners = h.owners;
  fresh = h.fresh;
  dirs_head = h.dirs_head;
  dirs_only = h.dirs_only;
  dirs = record {
    counted = h.dirs.counted;
    unused = h.dirs.unused;
    loose = h.dirs.loose;
    live = h.dirs.live;
  };
}

-- A semaphore is written, and stays in or out of use, and its owner's.
set_semaphore-Sound :
    (n : ℕ) (x : Semaphore) (k : Kernel) (v : View)
    → x.used ≡ (k.semaphores n).used
    → x.owner ≡ (k.semaphores n).owner
    → (x.used ≡ true → x.count ≢ 0 → (a : Ptr) → v.own a ≢ sem_blocked n)
    → Sound k v
    → Sound (set_semaphore n x k) v
set_semaphore-Sound n x k v e o empty s = record {
  consistent = Consistent-same k (set_semaphore n x k) v s.consistent refl (λ t. refl) refl refl;
  keyboard = s.keyboard;
  shape =
      Shape-semaphores nobody (facts k) (update k.semaphores n x) v (λ m. ground arith)
        (λ m l u c a. elim (Bool-cases (m == n)) [
          | inl same ↦
              let at : m ≡ n = ground arith in rw at (empty (rw same at u) (rw same at c) a)
          | inr other ↦ s.shape.counted_empty m l (rw other at u) (rw other at c) a
        ])
        s.shape;
}

blocked-Place :
    (n : ℕ) (f : Facts)
    → n < nr_semaphores
    → (f.semaphores n).used ≡ true
    → (f.semaphores n).count ≡ 0
    → Place f (sem_blocked n)
blocked-Place n f lt u c = record {
  kept = omega arith;
  unowned = ground arith;
  no_dirs = omega arith;
  in_use =
      λ m l e. let same : n ≡ m = omega arith in subst (λ j. (f.semaphores j).used ≡ true) same u;
  at_zero =
      λ m l e. let same : n ≡ m = omega arith in subst (λ j. (f.semaphores j).count ≡ 0) same c;
}

-- Nobody is blocked where the list is empty.
nobody_blocked :
    (n : ℕ) (k : Kernel) (v : View)
    → Sound k v
    → v.is_head (sem_blocked n) ≡ true
    → list_empty (sem_blocked n) k.links ≡ true
    → (a : Ptr) → v.own a ≢ sem_blocked n
nobody_blocked n k v s hh empty a e =
    let lists = s.consistent.queued.lists in
    let none_there = (list_empty_iff lists (sem_blocked n) hh).0 empty in
    let m : false ≡ (v.own a == sem_blocked n) =
      rw none_there at (lists.member (sem_blocked n) a hh) in
    ground (arith, m)

wait_semaphore-Keeps :
    (n : ℕ) (k : Kernel) (v : View)
    → Sound k v
    → n < nr_semaphores
    → k.current ≢ k.idle_task
    → Keeps k (wait_semaphore n k).0
unfolding wait_semaphore block_on update_process_state_rr
wait_semaphore-Keeps n k v s lt busy = elim (Bool-cases (k.semaphores n).used) [
  | inr unused ↦ rw unused ((v, s), refl)
  | inl used ↦ rw used (elim (Bool-cases ((k.semaphores n).count == 0)) [
    | inl none_left ↦ rw none_left (
        leave-Sound (sem_blocked n) false sys_to_blocked in_sem_wait k v s busy
          (record { head = s.shape.used_head n lt used; queue = ground arith })
          (blocked-Place n (facts k) lt used (ground arith)) (λ d. cc))
    | inr left ↦ rw left (
      (
        v,
        set_semaphore-Sound n _ k v (sym used) refl
            (λ u c. s.shape.counted_empty n lt used (ground arith)) s,
      ),
      refl,
    )
  ])
]

pub sem_wait-Keeps :
    (z : ℤ) (k : Kernel) (v : View) → Sound k v → k.current ≢ k.idle_task → Keeps k (sem_wait z k).0
unfolding sem_wait
sem_wait-Keeps (negsuc n) k v s busy = ((v, s), refl)
sem_wait-Keeps (pos n) k v s busy = elim (Bool-cases (leb nr_semaphores n)) [
  | inl out ↦ rw out ((v, s), refl)
  | inr within ↦ rw within (wait_semaphore-Keeps n k v s (ground arith) busy)
]

signal_semaphore-Keeps :
    (n : ℕ) (k : Kernel) (v : View)
    → Sound k v
    → n < nr_semaphores
    → Keeps k (signal_semaphore n k).0
unfolding signal_semaphore
signal_semaphore-Keeps n k v s lt = elim (Bool-cases (k.semaphores n).used) [
  | inr unused ↦ rw unused ((v, s), refl)
  | inl used ↦ rw used (elim (Bool-cases (list_empty (sem_blocked n) k.links)) [
    | inl empty ↦ rw empty (
      (
        v,
        set_semaphore-Sound n _ k v (sym used) refl
            (λ u c. nobody_blocked n k v s (s.shape.used_head n lt used) empty) s,
      ),
      refl,
    )
    | inr full ↦
        let q = s.consistent.queued in
        let hh = s.shape.used_head n lt used in
        let (x, xs, e) = not_empty (sem_blocked n) k v q hh full in
        let w = first-Waiting (sem_blocked n) x xs k v q hh (ground arith) e in
        let own : v.own (anchor (list_head_to_task x)) ≡ sem_blocked n = ap v.own w.at ∙ w.own in
        rw (full, list_first-items q.lists (sem_blocked n) x xs hh e)
          (
            (
              _,
              wake-Sound (list_head_to_task x) blocked_to_ready false k v s w.task
                  (rw own (omega arith)) (rw own (omega arith)),
            ),
            hung-add_process_to_scheduling (list_head_to_task x) blocked_to_ready false k (λ d. cc),
          )
  ])
]

pub sem_signal-Keeps : (z : ℤ) (k : Kernel) (v : View) → Sound k v → Keeps k (sem_signal z k).0
unfolding sem_signal
sem_signal-Keeps (negsuc n) k v s = ((v, s), refl)
sem_signal-Keeps (pos n) k v s = elim (Bool-cases (leb nr_semaphores n)) [
  | inl out ↦ rw out ((v, s), refl)
  | inr within ↦ rw within (signal_semaphore-Keeps n k v s (ground arith))
]
