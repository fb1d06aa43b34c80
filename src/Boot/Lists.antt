-- ===== src/Boot/Lists.antt =====
-- The lists that `init_mm` and `init_sched` make: all directories and all tasks are free.
use so2_zeos.Prelude.{
  ℕ, zero, suc, ◌+◌, ◌≡◌, ◌∙◌, refl, ap, inl, inr, Bool, true, false, ◌&&◌, ◌==◌, leb, ltb,
  if◌then◌else◌, arith, Bool-cases, update, [],
}
use so2_zeos.LinkedList.{Ptr, null, Links, list_add}
use so2_zeos.LinkedList.Queues.{View, Represents, push}
use so2_zeos.LinkedList.Queues.Insert.{list_add-push}
use so2_zeos.Stats.{st_invalid}
use so2_zeos.Kernel.{Kernel}
use so2_zeos.Kernel.Addresses.{free_queue, free_dirs, anchor, dir_anchor}
use so2_zeos.Scheduler.{update_process_state, update_process_state_rr}
use so2_zeos.Scheduler.Frames.{update_process_state-SameBut}
use so2_zeos.Scheduler.Consistent.{moved}
use so2_zeos.Scheduler.Moves.{links-update_process_state, state-update_process_state}
use so2_zeos.Directories.{open_dirs}
use so2_zeos.Semaphores.{set_semaphore}
use so2_zeos.Calls.{free_tasks, clear_semaphores}

-- a kernel that is zero where the lists are
abbrev pub no_lists : View
no_lists = record { is_head = λ h. false; items = λ h. []; own = λ a. null }

abbrev pub no_links : Links
no_links = record { next = λ p. null; prev = λ p. null }

pub no_lists-Represents : Represents no_links no_lists
no_lists-Represents = record {
  ring = λ h hh. cc hh;
  distinct = λ h hh. tt;
  member = λ h a hh. cc hh;
  owner = λ a ne. absurd (ne refl);
  head_free = λ h hh. refl;
  null_free = (refl, refl);
  loose = λ a na free. (refl, refl);
}

-- is `a` one of `n` addresses from `lo` on?
abbrev pub among : (lo n a : ℕ) → Bool
among lo n a = leb lo a && ltb a (lo + n)

-- the nodes from `lo` on are in no list
abbrev pub Loose : View → (lo n : ℕ) → Type 0
Loose v lo n = (a : Ptr) → among lo n a ≡ true → (v.is_head a ≡ false) × (v.own a ≡ null)

abbrev pub dirs_opened : (rounds i : ℕ) → View → View
dirs_opened zero i v = v
dirs_opened (suc n) i v = dirs_opened n (i + 1) (push (dir_anchor i) free_dirs v)

pub own-dirs_opened :
    (n i : ℕ) (v : View) (a : Ptr)
    → ((dirs_opened n i v).own a ≡ (if among (dir_anchor i) n a then free_dirs else v.own a))
      × ((dirs_opened n i v).is_head a ≡ v.is_head a)
own-dirs_opened zero i v a = ground arith
own-dirs_opened (suc n) i v a =
    ground (arith, own-dirs_opened n (i + 1) (push (dir_anchor i) free_dirs v) a)

pub record DirsOpened (n i : ℕ) (k : Kernel) (v : View) (k' : Kernel) : Type 0 where
  pub lists : Represents k'.links (dirs_opened n i v)
  pub counts : (d : ℕ) → among i n d ≡ true → k'.mem.dir_count d ≡ 0
  pub kept : (d : ℕ) → among i n d ≡ false → k'.mem.dir_count d ≡ k.mem.dir_count d
  pub tasks : k'.tasks ≡ k.tasks
  pub hung : k'.hung ≡ k.hung
  pub phys_mem : k'.mem.phys_mem ≡ k.mem.phys_mem

pub open_dirs-DirsOpened :
    (n i : ℕ) (k : Kernel) (v : View)
    → Represents k.links v
    → v.is_head free_dirs ≡ true
    → Loose v (dir_anchor i) n
    → DirsOpened n i k v (open_dirs n i k)
unfolding open_dirs
open_dirs-DirsOpened zero i k v r h l = record {
  lists = r;
  counts = λ d e. ground arith;
  kept = λ d e. refl;
  tasks = refl;
  hung = refl;
  phys_mem = refl;
}
open_dirs-DirsOpened (suc n) i k v r h l =
    let b = l (dir_anchor i) (ground arith) in
    let r1 =
      list_add-push r {a = dir_anchor i} {h = free_dirs}
        (record { head = h; node = b.0; real = omega arith; free = b.1 }) in
    let k1 = record k {
      links = list_add (dir_anchor i) free_dirs k.links;
      mem = record k.mem { dir_count = update k.mem.dir_count i 0 };
    } in
    let ih =
      open_dirs-DirsOpened n (i + 1) k1 (push (dir_anchor i) free_dirs v) r1 h
        (λ a e. ground (arith, l a)) in
    record {
      lists = ih.lists;
      counts = λ d e. ground (arith, ih.counts d, ih.kept d);
      kept = λ d e. ground (arith, ih.kept d);
      tasks = ih.tasks;
      hung = ih.hung;
      phys_mem = ih.phys_mem;
    }

abbrev pub tasks_freed : (rounds i : ℕ) → View → View
tasks_freed zero i v = v
tasks_freed (suc n) i v = tasks_freed n (i + 1) (moved (anchor i) free_queue false v)

pub own-tasks_freed :
    (n i : ℕ) (v : View) (a : Ptr)
    → ((tasks_freed n i v).own a ≡ (if among (anchor i) n a then free_queue else v.own a))
      × ((tasks_freed n i v).is_head a ≡ v.is_head a)
own-tasks_freed zero i v a = ground arith
own-tasks_freed (suc n) i v a =
    ground (arith, own-tasks_freed n (i + 1) (moved (anchor i) free_queue false v) a)

pub record TasksFreed (n i : ℕ) (k : Kernel) (v : View) (k' : Kernel) : Type 0 where
  pub lists : Represents k'.links (tasks_freed n i v)
  pub states : (t : ℕ) → among i n t ≡ true → (k'.tasks t).state ≡ st_invalid
  pub kept : (t : ℕ) → among i n t ≡ false → k'.tasks t ≡ k.tasks t
  pub mem : k'.mem ≡ k.mem
  pub hung : k'.hung ≡ k.hung

pub free_tasks-TasksFreed :
    (n i : ℕ) (k : Kernel) (v : View)
    → Represents k.links v
    → v.is_head free_queue ≡ true
    → Loose v (anchor i) n
    → TasksFreed n i k v (free_tasks n i k)
unfolding free_tasks update_process_state_rr
free_tasks-TasksFreed zero i k v r h l = record {
  lists = r;
  states = λ t e. ground arith;
  kept = λ t e. refl;
  mem = refl;
  hung = refl;
}
free_tasks-TasksFreed (suc n) i k v r h l =
    let b = l (anchor i) (ground arith) in
    let k1 = update_process_state i free_queue false k in
    let v1 = moved (anchor i) free_queue false v in
    let same = update_process_state-SameBut i free_queue false k in
    let r1 = links-update_process_state i free_queue false k v r b.0 (inr h) in
    let ih =
      free_tasks-TasksFreed n (i + 1) k1 v1 r1 (ground (arith, h)) (λ a e. ground (arith, l a)) in
    record {
      lists = ih.lists;
      states = λ t e. elim (Bool-cases (t == i)) [
        | inl at ↦
            let here : t ≡ i = ground arith in
            rw here (
              ap (λ x. x.state) (ih.kept i (ground arith))
              ∙ state-update_process_state i free_queue false k)
        | inr other ↦ ih.states t (ground arith)
      ];
      kept = λ t e. ih.kept t (ground arith) ∙ same.tasks t (ground arith);
      mem = ih.mem ∙ same.mem;
      hung = ih.hung ∙ same.hung;
    }

-- No semaphore is in use behind the second loop of `init_sched`, which changes nothing else.
pub clear_semaphores-clears :
    (n i : ℕ) (k : Kernel)
    → let k' = clear_semaphores n i k in
      ((s : ℕ) → among i n s ≡ true → (k'.semaphores s).used ≡ false)
      × ((s : ℕ) → among i n s ≡ false → k'.semaphores s ≡ k.semaphores s)
      × (k'.links ≡ k.links)
      × (k'.tasks ≡ k.tasks)
      × (k'.mem ≡ k.mem)
      × (k'.hung ≡ k.hung)
unfolding clear_semaphores
clear_semaphores-clears zero i k = (λ s e. ground arith, λ s e. refl, refl, refl, refl, refl)
clear_semaphores-clears (suc n) i k =
    let k1 = set_semaphore i (record (k.semaphores i) { used = false; count = 0 }) k in
    let ih = clear_semaphores-clears n (i + 1) k1 in
    (
      λ s e. ground (arith, ih.0 s, ih.1 s),
      λ s e. ih.1 s (ground arith) ∙ ground arith,
      ih.2,
      ih.3,
      ih.4,
      ih.5,
    )
