-- ===== src/Scheduler/Consistent.antt =====
-- What the scheduler keeps: every process is in the queue that its state names.
use so2_zeos.Prelude.{
  ℕ, ◌≤◌, ◌<◌, ◌≡◌, ◌≢◌, Bool, true, false, ◌&&◌, ◌||◌, List, [], ◌∷◌, ◌==◌, leb, ltb,
  if◌then◌else◌,
}
use so2_zeos.LinkedList.{Ptr, null}
use so2_zeos.LinkedList.Queues.{View, Represents, enqueue, push, remove}
use so2_zeos.Kernel.{Kernel, nr_tasks}
use so2_zeos.Kernel.Addresses.{
  free_queue, readyqueue, keyboardqueue, anchor, sem_blocked, list_head_to_task,
}
use so2_zeos.Scheduler.{state_in}

-- the lists that processes wait in
abbrev pub is_task_queue : Ptr → Bool
is_task_queue h =
    (h == free_queue)
    || (h == readyqueue)
    || (h == keyboardqueue)
    || (leb (sem_blocked 0) h && ltb h (sem_blocked 20))

-- The lists of the kernel are well formed, the queues hold tasks alone, and the state of each task
-- but the idle one is that of the queue it stands in. The idle task stands in none.
pub record Queued (k : Kernel) (v : View) : Type 0 where
  pub lists : Represents k.links v
  pub heads : (v.is_head free_queue ≡ true) × (v.is_head readyqueue ≡ true)
  pub nodes : (t : ℕ) → t < nr_tasks → v.is_head (anchor t) ≡ false
  pub states :
      (t : ℕ) → t < nr_tasks → t ≢ k.idle_task → (k.tasks t).state ≡ state_in (v.own (anchor t))
  pub idle : (k.idle_task < nr_tasks) × (v.own (anchor k.idle_task) ≡ null)
  pub tasks_only :
      (a : Ptr) → is_task_queue (v.own a) ≡ true → (anchor 0 ≤ a) × (a < anchor nr_tasks)

-- The same with no word on the state of task `x`, which is being made.
pub record QueuedBut (x : ℕ) (k : Kernel) (v : View) : Type 0 where
  pub lists : Represents k.links v
  pub heads : (v.is_head free_queue ≡ true) × (v.is_head readyqueue ≡ true)
  pub nodes : (t : ℕ) → t < nr_tasks → v.is_head (anchor t) ≡ false
  pub states :
      (t : ℕ)
      → t < nr_tasks
      → t ≢ k.idle_task
      → t ≢ x
      → (k.tasks t).state ≡ state_in (v.own (anchor t))
  pub idle : (k.idle_task < nr_tasks) × (v.own (anchor k.idle_task) ≡ null)
  pub tasks_only :
      (a : Ptr) → is_task_queue (v.own a) ≡ true → (anchor 0 ≤ a) × (a < anchor nr_tasks)

-- In addition every task stands in a queue but the idle one and the one that has the CPU, which may.
pub record Placed (k : Kernel) (v : View) : Type 0 where
  pub queued : Queued k v
  pub only : (t : ℕ) → t < nr_tasks → t ≢ k.idle_task → v.own (anchor t) ≡ null → t ≡ k.current

-- In addition one task has the CPU, and stands in no queue; every other task but the idle one does.
pub record Consistent (k : Kernel) (v : View) : Type 0 where
  pub queued : Queued k v
  pub on_cpu : (k.current < nr_tasks) × (v.own (anchor k.current) ≡ null)
  pub only : (t : ℕ) → t < nr_tasks → t ≢ k.idle_task → v.own (anchor t) ≡ null → t ≡ k.current

pub Consistent-Placed : {k : Kernel} {v : View} → Consistent k v → Placed k v
Consistent-Placed c = record { queued = c.queued; only = c.only }

-- the view with a node taken out of its list, if it is in one
abbrev pub unlinked : Ptr → View → View
unlinked a v = if v.own a == null then v else remove a v

-- and then put into the list of `dest`, if that is one
abbrev pub moved : Ptr → Ptr → Bool → View → View
moved a dest is_first v =
    if dest == null
    then unlinked a v
    else if is_first
    then push a dest (unlinked a v)
    else enqueue a dest (unlinked a v)

-- the task that is to run next: the first of the ready queue, or the idle one
abbrev pub first_ready : List Ptr → ℕ → ℕ
first_ready [] idle = idle
first_ready (a ∷ _) idle = list_head_to_task a
