-- ===== src/Scheduler/Moves.antt =====
-- `update_process_state` takes a process out of its queue, puts it into another, and keeps state
-- and queue in step.
use so2_zeos.Prelude.{
  ℕ, ◌≤◌, ◌<◌, ◌≡◌, ◌≢◌, ◌⊎◌, inl, inr, Bool, true, false, not, ◌∙◌, ◌==◌, if◌then◌else◌, arith,
  Bool-cases, ==_iff,
}
use so2_zeos.LinkedList.{Ptr, null}
use so2_zeos.LinkedList.Queues.{View, Represents, enqueue, push, next_node, prev_node}
use so2_zeos.LinkedList.Queues.Insert.{list_add_tail-enqueue, list_add-push}
use so2_zeos.LinkedList.Queues.Remove.{list_del-remove}
use so2_zeos.Kernel.{Kernel, nr_tasks}
use so2_zeos.Kernel.Addresses.{free_queue, readyqueue, anchor}
use so2_zeos.Stats.{st_run, st_ready, st_blocked, st_invalid}
use so2_zeos.Scheduler.{state_in, unlink_task, link_task, update_process_state}
use so2_zeos.Scheduler.Frames.{update_process_state-SameBut}
use so2_zeos.Scheduler.Consistent.{is_task_queue, Queued, QueuedBut, unlinked, moved}

-- The NULL test of `update_process_state` finds out whether the task is in a queue.
unlink_task-unlinked :
    (t : ℕ) (k : Kernel) (v : View)
    → Represents k.links v
    → v.is_head (anchor t) ≡ false
    → Represents (unlink_task t k).links (unlinked (anchor t) v)
unfolding unlink_task
unlink_task-unlinked t k v r na = elim (Bool-cases (v.own (anchor t) == null)) [
  | inl out ↦ rw out (ground (arith, r.loose (anchor t) na))
  | inr in_list ↦
      let ne : v.own (anchor t) ≢ null = ground arith in
      rw in_list (
        ground (
          arith,
          list_del-remove r (anchor t) ne,
          next_node r (anchor t) ne,
          prev_node r (anchor t) ne,
          r.null_free,
          r.owner (anchor t) ne,
        ))
]

pub own-unlinked : (a : Ptr) (v : View) → (unlinked a v).own a ≡ null
own-unlinked a v = ground arith

-- where a task can be put
pub record Destination (v : View) (dest : Ptr) : Type 0 where
  pub head : v.is_head dest ≡ true
  pub queue : is_task_queue dest ≡ true

link_task-moved :
    (t : ℕ) (dest : Ptr) (first : Bool) (k : Kernel) (v : View)
    → Represents k.links v
    → v.is_head dest ≡ true
    → v.is_head (anchor t) ≡ false
    → v.own (anchor t) ≡ null
    → Represents
        (link_task t dest first k).links
        (if first then push (anchor t) dest v else enqueue (anchor t) dest v)
unfolding link_task
link_task-moved t dest true k v r h na free =
    list_add-push r (record { head = h; node = na; real = omega arith; free = free })
link_task-moved t dest false k v r h na free =
    list_add_tail-enqueue r (record { head = h; node = na; real = omega arith; free = free })

pub links-update_process_state :
    (t : ℕ) (dest : Ptr) (first : Bool) (k : Kernel) (v : View)
    → Represents k.links v
    → v.is_head (anchor t) ≡ false
    → (dest ≡ null) ⊎ (v.is_head dest ≡ true)
    → Represents (update_process_state t dest first k).links (moved (anchor t) dest first v)
unfolding update_process_state
links-update_process_state t dest first k v r na (inl e) = rw e (unlink_task-unlinked t k v r na)
links-update_process_state t dest first k v r na (inr h) =
    let ne : (dest == null) ≡ false = ground (arith, r.null_free) in
    rw ne (
      link_task-moved t dest first (unlink_task t k) (unlinked (anchor t) v)
        (unlink_task-unlinked t k v r na) (ground arith) (ground arith) (own-unlinked (anchor t) v))

own-moved :
    (a d : Ptr) (first : Bool) (v : View) (b : Ptr)
    → (moved a d first v).own b ≡ (if b == a then d else v.own b)
own-moved a d first v b = ground arith

is_head-moved : (a d : Ptr) (first : Bool) (v : View) → (moved a d first v).is_head ≡ v.is_head
is_head-moved a d first v = ground arith

pub state-update_process_state :
    (t : ℕ) (d : Ptr) (first : Bool) (k : Kernel)
    → ((update_process_state t d first k).tasks t).state ≡ state_in d
unfolding update_process_state
state-update_process_state t d first k = ground arith

state_of_moved :
    (t : ℕ) (d : Ptr) (first : Bool) (k : Kernel) (v : View) (u : ℕ)
    → (u ≢ t → (k.tasks u).state ≡ state_in (v.own (anchor u)))
    → ((update_process_state t d first k).tasks u).state
      ≡ state_in ((moved (anchor t) d first v).own (anchor u))
state_of_moved t d first k v u old = elim (Bool-cases (u == t)) [
  | inl e ↦
      rw
        (
          (==_iff u t).0 e,
          state-update_process_state t d first k,
          own-moved (anchor t) d first v (anchor t),
        )
        (ground arith)
  | inr e ↦
      let ne : u ≢ t = ground arith in
      rw
        (
          (update_process_state-SameBut t d first k).tasks u ne,
          old ne,
          own-moved (anchor t) d first v (anchor u),
        )
        (ground arith)
]

pub update_process_state-QueuedBut :
    (t : ℕ) (dest : Ptr) (is_first : Bool) (k : Kernel) (v : View)
    → QueuedBut t k v
    → t < nr_tasks
    → (dest ≡ null) ⊎ (Destination v dest × (t ≢ k.idle_task))
    → Queued (update_process_state t dest is_first k) (moved (anchor t) dest is_first v)
update_process_state-QueuedBut t dest first k v q lt where_to =
    let same = update_process_state-SameBut t dest first k in
    record {
      lists = links-update_process_state t dest first k v q.lists (q.nodes t lt) (head_of where_to);
      heads = rw (is_head-moved (anchor t) dest first v) q.heads;
      nodes = λ u h. rw (is_head-moved (anchor t) dest first v) (q.nodes u h);
      states = λ u h ne. state_of_moved t dest first k v u (λ d. q.states u h (ground arith) d);
      idle = rw same.idle_task (q.idle.0, rw own-moved (idle_out where_to));
      tasks_only = λ a h. tasks_only_moved a (rw own-moved at h);
    }
  where
    head_of :
        (dest ≡ null) ⊎ (Destination v dest × (t ≢ k.idle_task))
        → (dest ≡ null) ⊎ (v.is_head dest ≡ true)
    head_of (inl e) = inl e
    head_of (inr d) = inr d.0.head

    idle_out :
        (dest ≡ null) ⊎ (Destination v dest × (t ≢ k.idle_task))
        → (if anchor k.idle_task == anchor t then dest else v.own (anchor k.idle_task)) ≡ null
    idle_out (inl e) = ground (arith, q.idle)
    idle_out (inr d) = ground (arith, q.idle, d.1)

    tasks_only_moved :
        (a : Ptr)
        → is_task_queue (if a == anchor t then dest else v.own a) ≡ true
        → (anchor 0 ≤ a) × (a < anchor nr_tasks)
    tasks_only_moved a h = elim (Bool-cases (a == anchor t)) [
      | inl e ↦ ground arith
      | inr e ↦ q.tasks_only a (rw e at h)
    ]

pub update_process_state-Queued :
    (t : ℕ) (dest : Ptr) (is_first : Bool) (k : Kernel) (v : View)
    → Queued k v
    → t < nr_tasks
    → (dest ≡ null) ⊎ (Destination v dest × (t ≢ k.idle_task))
    → Queued (update_process_state t dest is_first k) (moved (anchor t) dest is_first v)
update_process_state-Queued t dest first k v q lt where_to =
    update_process_state-QueuedBut t dest first k v
      (record {
        lists = q.lists;
        heads = q.heads;
        nodes = q.nodes;
        states = λ u h ne other. q.states u h ne;
        idle = q.idle;
        tasks_only = q.tasks_only;
      })
      lt where_to

-- `update_process_state` moves any task but the idle one between the queues of processes, and any
-- task out of them: the lists stay well formed, and every state stays that of the queue. The
-- process stands at the end of its new queue, or at the front for `is_first`. Its state is ST_READY in
-- the ready queue, ST_INVALID in the free queue, ST_BLOCKED in any other, and ST_RUN in none; no
-- other task changes.
pub update_process_state-moves :
    (t : ℕ) (dest : Ptr) (is_first : Bool) (k : Kernel) (v : View)
    → Queued k v
    → t < nr_tasks
    → (dest ≡ null) ⊎ (Destination v dest × (t ≢ k.idle_task))
    → let k' = update_process_state t dest is_first k in
      Queued k' (moved (anchor t) dest is_first v)
      × ((k'.tasks t).state ≡ (
          if dest == readyqueue
          then st_ready
          else if dest == free_queue
          then st_invalid
          else if not (dest == null)
          then st_blocked
          else st_run))
      × ((u : ℕ) → u ≢ t → k'.tasks u ≡ k.tasks u)
update_process_state-moves t dest first k v q lt where_to = (
  update_process_state-Queued t dest first k v q lt where_to,
  state-update_process_state t dest first k ∙ ground arith,
  (update_process_state-SameBut t dest first k).tasks,
)
