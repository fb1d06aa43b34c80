-- ===== src/System/Shape.antt =====
-- The invariant of the kernel: the scheduler's, and what the lists of the semaphores look like.
use so2_zeos.Prelude.{
  ℕ, ◌≤◌, ◌<◌, ◌≡◌, ◌≢◌, ◌∙◌, sym, ap, refl, Bool, true, false, not, ◌&&◌, ◌||◌, ◌==◌, leb, ltb,
  arith, Option, none, some, count_below, count_below-same,
}
use so2_zeos.LinkedList.{Ptr, null}
use so2_zeos.LinkedList.Queues.{View}
use so2_zeos.Kernel.{Kernel, Semaphore, nr_tasks, nr_semaphores}
use so2_zeos.Kernel.Addresses.{
  free_queue, readyqueue, keyboardqueue, free_dirs, anchor, owned_semaphores, sem_anchor,
  sem_blocked, dir_anchor,
}
use so2_zeos.Scheduler.Consistent.{Consistent, moved}

-- the addresses of heads: the four queues, the lists of owned semaphores, the lists of the blocked
abbrev pub is_list : Ptr → Bool
is_list h =
    (leb 1 h && leb h 4)
    || (leb (owned_semaphores 0) h && ltb h (owned_semaphores 10))
    || (leb (sem_blocked 0) h && ltb h (sem_blocked 20))

-- the addresses of nodes: processes, semaphores, directories
abbrev pub is_node : Ptr → Bool
is_node a =
    (leb (anchor 0) a && ltb a (anchor 10))
    || (leb (sem_anchor 0) a && ltb a (sem_anchor 20))
    || (leb 500 a && ltb a 510)

abbrev pub is_owned : Ptr → Bool
is_owned h = leb (owned_semaphores 0) h && ltb h (owned_semaphores 10)

-- what the invariant reads of the kernel beside the links: the semaphores, and who has which
-- directory
pub record Facts : Type 0 where
  pub semaphores : ℕ → Semaphore
  pub dirs : ℕ → Option ℕ
  pub counts : ℕ → ℕ

abbrev pub facts : Kernel → Facts
facts k = record {
  semaphores = k.semaphores;
  dirs = λ t. (k.tasks t).dir;
  counts = k.mem.dir_count;
}

pub facts-eq :
    (k k' : Kernel)
    → k'.semaphores ≡ k.semaphores
    → ((t : ℕ) → (k'.tasks t).dir ≡ (k.tasks t).dir)
    → k'.mem.dir_count ≡ k.mem.dir_count
    → facts k' ≡ facts k
facts-eq k k' s d c = λ i. record { semaphores = s i; dirs = λ t. d t i; counts = c i }

abbrev pub is_free : View → ℕ → Bool
is_free v t = v.own (anchor t) == free_queue

abbrev pub has_dir : Option ℕ → ℕ → Bool
has_dir none d = false
has_dir (some e) d = e == d

-- a process that is not free, and has directory `d`
abbrev pub uses : Facts → View → ℕ → ℕ → Bool
uses f v d t = not (is_free v t) && has_dir (f.dirs t) d

-- The count of a directory is the number of its processes; a directory is in the list of the free
-- ones exactly if it has none, and in no other list; every process that is not free has one.
pub record Dirs (f : Facts) (v : View) : Type 0 where
  pub counted : (d : ℕ) → d < nr_tasks → f.counts d ≡ count_below nr_tasks (uses f v d)
  pub unused : (d : ℕ) → d < nr_tasks → (v.own (dir_anchor d) == free_dirs) ≡ (f.counts d == 0)
  pub loose :
      (d : ℕ) → d < nr_tasks → v.own (dir_anchor d) ≢ null → v.own (dir_anchor d) ≡ free_dirs
  pub live :
      (t : ℕ) → t < nr_tasks → is_free v t ≡ false → (d : ℕ) × (d < nr_tasks) × (f.dirs t ≡ some d)

-- Heads are heads and nodes nodes, and only semaphores are owned. A semaphore in use has its list of
-- blocked processes and stands in its owner's list, and nobody is blocked on it if it has a count;
-- one that is not in use stands in none and nobody is blocked on it. Every process that is not free
-- has a list of semaphores, and a free one other than `x` owns none. The directories are in order.
pub record Shape (x : ℕ) (f : Facts) (v : View) : Type 0 where
  pub lists : (h : Ptr) → v.is_head h ≡ true → is_list h ≡ true
  pub nodes : (a : Ptr) → v.own a ≢ null → is_node a ≡ true
  pub owned_only : (a : Ptr) → is_owned (v.own a) ≡ true → (sem_anchor 0 ≤ a) × (a < sem_anchor 20)
  pub used_head :
      (n : ℕ) → n < nr_semaphores → (f.semaphores n).used ≡ true → v.is_head (sem_blocked n) ≡ true
  pub used_owned :
      (n : ℕ)
      → n < nr_semaphores
      → (f.semaphores n).used ≡ true
      → (v.own (sem_anchor n) ≡ owned_semaphores (f.semaphores n).owner)
        × ((f.semaphores n).owner < nr_tasks)
  pub unused_loose :
      (n : ℕ) → n < nr_semaphores → (f.semaphores n).used ≡ false → v.own (sem_anchor n) ≡ null
  pub unused_empty :
      (n : ℕ)
      → n < nr_semaphores
      → (f.semaphores n).used ≡ false
      → (a : Ptr) → v.own a ≢ sem_blocked n
  pub counted_empty :
      (n : ℕ)
      → n < nr_semaphores
      → (f.semaphores n).used ≡ true
      → (f.semaphores n).count ≢ 0
      → (a : Ptr) → v.own a ≢ sem_blocked n
  pub owners :
      (t : ℕ) → t < nr_tasks → v.own (anchor t) ≢ free_queue → v.is_head (owned_semaphores t) ≡ true
  pub fresh :
      (t : ℕ)
      → t < nr_tasks
      → t ≢ x
      → v.own (anchor t) ≡ free_queue
      → (a : Ptr) → v.own a ≢ owned_semaphores t
  pub dirs_head : v.is_head free_dirs ≡ true
  pub dirs_only : (a : Ptr) → v.own a ≡ free_dirs → (dir_anchor 0 ≤ a) × (a < dir_anchor 10)
  pub dirs : Dirs f v

-- no process but those that there are
abbrev pub nobody : ℕ
nobody = nr_tasks

pub record Sound (k : Kernel) (v : View) : Type 0 where
  pub consistent : Consistent k v
  pub keyboard : v.is_head keyboardqueue ≡ true
  pub shape : Shape nobody (facts k) v

-- a place that a process which is not free may go to: not the free queue, and not the list of a
-- semaphore out of use
pub record Place (f : Facts) (dest : Ptr) : Type 0 where
  pub kept : dest ≢ free_queue
  pub unowned : is_owned dest ≡ false
  pub no_dirs : dest ≢ free_dirs
  pub in_use : (n : ℕ) → n < nr_semaphores → dest ≡ sem_blocked n → (f.semaphores n).used ≡ true
  pub at_zero : (n : ℕ) → n < nr_semaphores → dest ≡ sem_blocked n → (f.semaphores n).count ≡ 0

pub nowhere : (f : Facts) → Place f null
nowhere f = record {
  kept = omega arith;
  unowned = refl;
  no_dirs = omega arith;
  in_use = λ n lt e. absurd (omega arith);
  at_zero = λ n lt e. absurd (omega arith);
}

pub ready-Place : (f : Facts) → Place f readyqueue
ready-Place f = record {
  kept = omega arith;
  unowned = refl;
  no_dirs = omega arith;
  in_use = λ n lt e. absurd (omega arith);
  at_zero = λ n lt e. absurd (omega arith);
}

pub keyboard-Place : (f : Facts) → Place f keyboardqueue
keyboard-Place f = record {
  kept = omega arith;
  unowned = refl;
  no_dirs = omega arith;
  in_use = λ n lt e. absurd (omega arith);
  at_zero = λ n lt e. absurd (omega arith);
}

-- Directories depend on who is free, and on the nodes of the directories.
pub Dirs-frame :
    (f : Facts) (v v' : View)
    → ((t : ℕ) → t < nr_tasks → is_free v' t ≡ is_free v t)
    → ((d : ℕ) → d < nr_tasks → v'.own (dir_anchor d) ≡ v.own (dir_anchor d))
    → Dirs f v
    → Dirs f v'
Dirs-frame f v v' free node h = record {
  counted = λ d l.
      h.counted d l
      ∙ count_below-same nr_tasks (uses f v d) (uses f v' d) (λ t lt. ground (arith, free t lt));
  unused = λ d l. rw (node d l) (h.unused d l);
  loose = λ d l. rw (node d l) (h.loose d l);
  live = λ t l e. h.live t l (sym (free t l) ∙ e);
}

-- Directories do not depend on semaphores.
pub Dirs-facts :
    (f f' : Facts) (v : View) → f'.dirs ≡ f.dirs → f'.counts ≡ f.counts → Dirs f v → Dirs f' v
Dirs-facts f f' v d c h = record {
  counted = λ e l.
      ap (λ g. g e) c
      ∙ h.counted e l
      ∙ ap (λ g. count_below nr_tasks (λ t. not (is_free v t) && has_dir (g t) e)) (sym d);
  unused = λ e l. h.unused e l ∙ ap (λ g. g e == 0) (sym c);
  loose = h.loose;
  live = λ t l ne. let (e, lt, at) = h.live t l ne in (e, lt, ap (λ g. g t) d ∙ at);
}

-- A process that is not free can move.
pub Shape-moved :
    (x : ℕ) (f : Facts) (v : View) (t : ℕ) (dest : Ptr) (first : Bool)
    → Shape x f v
    → t < nr_tasks
    → v.own (anchor t) ≢ free_queue
    → Place f dest
    → Shape x f (moved (anchor t) dest first v)
Shape-moved x f v t dest first h lt busy p = record {
  lists = λ g e. ground (arith, h.lists g);
  nodes = λ a ne. ground (arith, h.nodes a);
  owned_only = λ a e. ground (arith, h.owned_only a, p.unowned);
  used_head = λ n l e. ground (arith, h.used_head n l e);
  used_owned = λ n l e. ground (arith, h.used_owned n l e);
  unused_loose = λ n l e. ground (arith, h.unused_loose n l e);
  unused_empty = λ n l e a at. ground (arith, h.unused_empty n l e a, p.in_use n l);
  counted_empty = λ n l u c a at. ground (arith, h.counted_empty n l u c a, p.at_zero n l);
  owners = λ u l ne. ground (arith, h.owners u l, h.owners t lt busy);
  fresh = λ u l ne at a e. ground (arith, h.fresh u l ne (ground (arith, p.kept)) a, p.unowned);
  dirs_head = ground (arith, h.dirs_head);
  dirs_only = λ a e. ground (arith, h.dirs_only a, p.no_dirs);
  dirs =
      Dirs-frame f v (moved (anchor t) dest first v) (λ u l. ground (arith, p.kept))
        (λ d l. ground arith) h.dirs;
}
