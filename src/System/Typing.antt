-- ===== src/System/Typing.antt =====
-- The interrupt of the keyboard keeps the invariant, also when it wakes the reader.
use so2_zeos.Prelude.{
  ℕ, ◌/◌, ◌%◌, ◌<◌, ◌≡◌, ◌≢◌, inl, inr, refl, ◌∙◌, sym, ap, Bool, true, false, ◌&&◌, ◌||◌, ◌==◌,
  ltb, arith, Bool-cases, List, [], ◌∷◌, get_or,
}
use mathlib.Core.Path.{subst}
use so2_zeos.LinkedList.{Ptr, null, list_empty, list_first}
use so2_zeos.LinkedList.Queues.{View}
use so2_zeos.LinkedList.Queues.Open.{list_empty_iff, list_first-items}
use so2_zeos.Stats.{Event, sys_to_ready, blocked_to_ready}
use so2_zeos.Kernel.{to_user, Kernel, nr_tasks}
use so2_zeos.Kernel.Addresses.{free_queue, keyboardqueue, readyqueue, anchor, list_head_to_task}
use so2_zeos.Scheduler.{add_process_to_scheduling, sched_next_rr}
use so2_zeos.Scheduler.Consistent.{Queued, moved}
use so2_zeos.Scheduler.Dispatch.{AllWait}
use so2_zeos.Scheduler.Wakeup.{
  add_process_to_scheduling-Queued, add_process_to_scheduling-Kept, hung-add_process_to_scheduling,
}
use so2_zeos.Keyboard.{
  wake_reader, count_key, type_key, keyboard_routine, is_buffer_full, le_zero, dec, put_key,
  char_map,
}
use so2_zeos.System.Shape.{nobody, facts, Shape, Sound, ready-Place, Shape-moved}
use so2_zeos.System.Moves.{facts-add_process_to_scheduling, Sound-same, switch-Sound, first-Waiting}
use so2_zeos.System.Interrupts.{Keeps}

-- Nobody runs: every process but the idle one waits.
record Paused (k : Kernel) (v : View) : Type 0 where
  queued : Queued k v
  wait : AllWait k v
  keyboard : v.is_head keyboardqueue ≡ true
  shape : Shape nobody (facts k) v

-- A process that is not free is made ready while nobody else runs.
ready-Paused :
    (t : ℕ) (e : Event) (first : Bool) (k : Kernel) (v : View)
    → Queued k v
    → v.is_head keyboardqueue ≡ true
    → Shape nobody (facts k) v
    → t < nr_tasks
    → t ≢ k.idle_task
    → v.own (anchor t) ≢ free_queue
    → ((u : ℕ) → u < nr_tasks → u ≢ k.idle_task → u ≢ t → v.own (anchor u) ≢ null)
    → Paused (add_process_to_scheduling t e first k) (moved (anchor t) readyqueue first v)
ready-Paused t e first k v q kh h lt ni nf wait =
    let s = add_process_to_scheduling-Kept t e first k in
    record {
      queued = add_process_to_scheduling-Queued t e first k v q lt ni;
      wait = λ u l ne out. ground (arith, wait u l, s.idle_task);
      keyboard = ground (arith, kh);
      shape =
          subst (λ x. Shape nobody x (moved (anchor t) readyqueue first v))
            (sym (facts-add_process_to_scheduling t e first k))
            (Shape-moved nobody (facts k) v t readyqueue first h lt nf (ready-Place (facts k)));
    }

module _ (k : Kernel) (v : View) (x : Ptr) (xs : List Ptr) where
  reader : Kernel
  reader =
      add_process_to_scheduling (list_head_to_task (list_first keyboardqueue k.links))
        blocked_to_ready true k

  -- The reader goes to the front of the ready queue, and the next process runs.
  reader-Keeps :
      Paused k v → v.items keyboardqueue ≡ x ∷ xs → Keeps k (sched_next_rr to_user reader)
  unfolding reader
  reader-Keeps p e =
      let w = first-Waiting keyboardqueue x xs k v p.queued p.keyboard refl e in
      let t = list_head_to_task x in
      let own : v.own (anchor t) ≡ keyboardqueue = ap v.own w.at ∙ w.own in
      let r =
        ready-Paused t blocked_to_ready true k v p.queued p.keyboard p.shape w.task
          (λ i. absurd (ground (arith, p.queued.idle, own))) (rw own (omega arith))
          (λ u l ne d. p.wait u l ne) in
      let k1 = add_process_to_scheduling t blocked_to_ready true k in
      let s =
        switch-Sound to_user k1 (moved (anchor t) readyqueue true v) r.queued r.wait r.keyboard
          r.shape in
      rw (list_first-items p.queued.lists keyboardqueue x xs p.keyboard e)
        ((_, s.0), s.1 ∙ hung-add_process_to_scheduling t blocked_to_ready true k (λ d. cc))

wake_reader-Keeps :
    (k : Kernel) (v : View) (x : Ptr) (xs : List Ptr)
    → Sound k v
    → v.items keyboardqueue ≡ x ∷ xs
    → Keeps k (wake_reader k)
unfolding wake_reader reader
wake_reader-Keeps k v x xs s e = elim (Bool-cases (k.current == k.idle_task)) [
  | inl idle ↦ rw idle (
      reader-Keeps k v x xs
        (record {
          queued = s.consistent.queued;
          wait = λ t l n out. ground (arith, s.consistent.only t l n out);
          keyboard = s.keyboard;
          shape = s.shape;
        })
        e)
  | inr busy ↦
      let c = s.consistent in
      let free : v.own (anchor k.current) ≡ null = c.on_cpu.1 in
      let p =
        ready-Paused k.current sys_to_ready false k v c.queued s.keyboard s.shape c.on_cpu.0
          (ground arith) (rw free (omega arith)) (λ t l n d out. d (c.only t l n out)) in
      let r =
        reader-Keeps (add_process_to_scheduling k.current sys_to_ready false k)
          (moved (anchor k.current) readyqueue false v) x xs p (rw free e) in
      rw busy (r.0, r.1 ∙ hung-add_process_to_scheduling k.current sys_to_ready false k (λ d. cc))
]

count_key-Keeps :
    (k : Kernel) (v : View) (x : Ptr) (xs : List Ptr)
    → Sound k v
    → v.items keyboardqueue ≡ x ∷ xs
    → Keeps k (count_key k)
unfolding count_key
count_key-Keeps k v x xs s e =
    let kb = record k.keyboard { remaining_to_read = dec k.keyboard.remaining_to_read } in
    let k' = record k { keyboard = kb } in
    let s' = Sound-same k k' v s refl (λ t. refl) refl refl refl in
    elim (Bool-cases (le_zero kb.remaining_to_read || is_buffer_full kb)) [
      | inl wakes ↦ rw wakes (wake_reader-Keeps k' v x xs s' e)
      | inr waits ↦ rw waits ((v, s'), refl)
    ]

-- A list that is not empty has a first node.
pub not_empty :
    (h : Ptr) (k : Kernel) (v : View)
    → Queued k v
    → v.is_head h ≡ true
    → list_empty h k.links ≡ false
    → (x : Ptr) × (xs : List Ptr) × (v.items h ≡ x ∷ xs)
not_empty h k v q hh ne = go (v.items h) refl
  where
    go : (ys : List Ptr) → v.items h ≡ ys → (x : Ptr) × (xs : List Ptr) × (v.items h ≡ x ∷ xs)
    go [] e = cc (ne, (list_empty_iff q.lists h hh).1 e)
    go (y ∷ ys) e = (y, ys, e)

type_key-Keeps : (key : ℕ) (k : Kernel) (v : View) → Sound k v → Keeps k (type_key key k)
unfolding type_key
type_key-Keeps key k v s =
    let k' = record k { keyboard = put_key key k.keyboard } in
    let s' = Sound-same k k' v s refl (λ t. refl) refl refl refl in
    elim (Bool-cases (is_buffer_full k.keyboard)) [
      | inl full ↦ rw full ((v, s), refl)
      | inr room ↦ rw room (elim (Bool-cases (list_empty keyboardqueue k.links)) [
        | inl empty ↦ rw empty ((v, s'), refl)
        | inr reading ↦
            let (x, xs, e) = not_empty keyboardqueue k v s.consistent.queued s.keyboard reading in
            rw reading (count_key-Keeps k' v x xs s' e)
      ])
    ]

pub keyboard_routine-Keeps :
    (value : ℕ) (k : Kernel) (v : View) → Sound k v → Keeps k (keyboard_routine value k)
unfolding keyboard_routine
keyboard_routine-Keeps value k v s =
    elim (Bool-cases (((value / 128) == 0) && ltb (value % 128) 98)) [
      | inl e ↦ rw e (type_key-Keeps (get_or char_map (value % 128) 0) k v s)
      | inr e ↦ rw e ((v, s), refl)
    ]
