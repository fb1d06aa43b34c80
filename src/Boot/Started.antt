-- ===== src/Boot/Started.antt =====
-- The kernel behind `init_mm` and `init_sched`.
use so2_zeos.Prelude.{
  ℕ, ◌≤◌, ◌<◌, ◌≡◌, ◌∙◌, sym, refl, ap, Bool, true, false, ◌||◌, ◌==◌, if◌then◌else◌, arith,
  count_below-none,
}
use mathlib.Core.Path.{subst}
use so2_zeos.LinkedList.{Ptr, null, init_list_head}
use so2_zeos.LinkedList.Queues.{View, Represents, open_list}
use so2_zeos.LinkedList.Queues.Open.{init_list_head-open_list}
use so2_zeos.Stats.{st_invalid}
use so2_zeos.Memory.{Memory, init_frames, num_pag_kernel, total_pages, free_frame_mark}
use so2_zeos.Kernel.{Kernel, nr_tasks, nr_semaphores}
use so2_zeos.Kernel.Addresses.{free_queue, readyqueue, free_dirs, anchor, dir_anchor, sem_anchor}
use so2_zeos.Directories.{init_mm, init_dir_pages, init_table_pages}
use so2_zeos.Calls.{init_sched, free_tasks}
use so2_zeos.Boot.Lists.{
  no_lists, no_links, no_lists-Represents, among, dirs_opened, own-dirs_opened,
  open_dirs-DirsOpened, tasks_freed, own-tasks_freed, free_tasks-TasksFreed,
  clear_semaphores-clears,
}
use so2_zeos.System.Shape.{facts, Dirs, uses}
use so2_zeos.System.Allocated.{Stocked}

abbrev dirs_view : View
dirs_view = dirs_opened 10 0 (open_list free_dirs no_lists)

abbrev heads_view : View
heads_view = open_list readyqueue (open_list free_queue dirs_view)

abbrev pub started_view : View
started_view = tasks_freed 10 0 heads_view

own-dirs_view :
    (a : Ptr)
    → (dirs_view.own a ≡ (if among (dir_anchor 0) 10 a then free_dirs else null))
      × (dirs_view.is_head a ≡ (a == free_dirs))
own-dirs_view a = ground (arith, own-dirs_opened 10 0 (open_list free_dirs no_lists) a)

-- where everything stands
abbrev pub OwnAs : View → Type 0
OwnAs v =
    (a : Ptr)
    → (v.own a ≡ (
        if among (anchor 0) 10 a
        then free_queue
        else if among (dir_anchor 0) 10 a
        then free_dirs
        else null))
      × (v.is_head a ≡ ((a == free_dirs) || (a == readyqueue) || (a == free_queue)))

pub own-started_view : OwnAs started_view
own-started_view a = ground (arith, own-tasks_freed 10 0 heads_view a, own-dirs_view a)

-- all is free: the tasks, the semaphores and the directories
pub record StartedAs (v : View) (k : Kernel) (h : Bool) : Type 0 where
  pub lists : Represents k.links v
  pub states : (t : ℕ) → t < nr_tasks → (k.tasks t).state ≡ st_invalid
  pub semaphores : (n : ℕ) → n < nr_semaphores → (k.semaphores n).used ≡ false
  pub counts : (d : ℕ) → d < nr_tasks → k.mem.dir_count d ≡ 0
  pub hung : k.hung ≡ h
  pub frames : (f : ℕ) → num_pag_kernel ≤ f → f < total_pages → k.mem.phys_mem f ≡ free_frame_mark

module _ (k : Kernel) (h : Bool) (v : View) (own : OwnAs v) where
  StartedAs-Dirs : StartedAs v k h → Dirs (facts k) v
  StartedAs-Dirs s = record {
    counted = λ d l.
        s.counts d l
        ∙ sym (
            count_below-none nr_tasks (uses (facts k) v d)
              (λ t lt. ground (arith, own (anchor t))));
    unused = λ d l. ground (arith, s.counts d l, own (dir_anchor d));
    loose = λ d l. ground (arith, own (dir_anchor d));
    live = λ t l e. absurd (ground (arith, own (anchor t)));
  }

  not_both : {b : Bool} → b ≡ false → b ≡ true → ⊥
  not_both f t = cc (f, t)

  StartedAs-Stocked : StartedAs v k h → Stocked k v
  StartedAs-Stocked s = record {
    lists = s.lists;
    head = ground (arith, own free_queue);
    tasks_only = λ a e. ground (arith, own a);
    shape = record {
      lists = λ g e. ground (arith, own g);
      nodes = λ a ne. ground (arith, own a);
      owned_only = λ a e. ground (arith, own a);
      used_head = λ n l e. absurd (not_both (s.semaphores n l) e);
      used_owned = λ n l e. absurd (not_both (s.semaphores n l) e);
      unused_loose = λ n l e. ground (arith, own (sem_anchor n));
      unused_empty = λ n l e a at. ground (arith, own a);
      counted_empty = λ n l u c a at. ground (arith, own a);
      owners = λ t l ne. absurd (ground (arith, own (anchor t)));
      fresh = λ t l ne at a e. ground (arith, own a);
      dirs_head = ground (arith, own free_dirs);
      dirs_only = λ a e. ground (arith, own a);
      dirs = StartedAs-Dirs s;
    };
  }

abbrev pub Started : Kernel → Bool → Type 0
Started = StartedAs started_view

pub Started-Stocked : (k : Kernel) (h : Bool) → Started k h → Stocked k started_view
Started-Stocked k h s = StartedAs-Stocked k h started_view own-started_view s

-- `init_frames` marks all frames but the kernel's as free.
init_frames-free :
    (m : Memory) (f : ℕ)
    → num_pag_kernel ≤ f
    → f < total_pages
    → (init_frames m).phys_mem f ≡ free_frame_mark
unfolding init_frames
init_frames-free m f lo hi = ground arith

-- `init_mm`, on a kernel whose lists are zero
mm-DirsOpened :
    (low high : ℕ) (k : Kernel)
    → k.links ≡ no_links
    → (Represents (init_mm low high k).links dirs_view)
      × ((d : ℕ) → d < nr_tasks → (init_mm low high k).mem.dir_count d ≡ 0)
      × ((init_mm low high k).hung ≡ k.hung)
      × ((f : ℕ)
          → num_pag_kernel ≤ f
          → f < total_pages
          → (init_mm low high k).mem.phys_mem f ≡ free_frame_mark)
unfolding init_mm init_dir_pages
mm-DirsOpened low high k zero_links =
    let r0 : Represents k.links no_lists =
      subst (λ l. Represents l no_lists) (sym zero_links) no_lists-Represents in
    let m = init_frames (init_table_pages low high k.mem) in
    let r1 = init_list_head-open_list r0 free_dirs (omega arith) refl (λ a. omega arith) in
    let k1 = record k { mem = m; links = init_list_head free_dirs k.links } in
    let o =
      open_dirs-DirsOpened 10 0 k1 (open_list free_dirs no_lists) r1 refl (λ a e. ground arith) in
    (
      o.lists,
      λ d l. o.counts d (ground arith),
      o.hung,
      λ f lo hi.
          ap (λ g. g f) o.phys_mem ∙ init_frames-free (init_table_pages low high k.mem) f lo hi,
    )

-- and `init_sched` behind it
pub started :
    (low high : ℕ) (k : Kernel)
    → k.links ≡ no_links
    → Started (init_sched (init_mm low high k)) k.hung
unfolding init_sched
started low high k zero_links =
    let k0 = init_mm low high k in
    let o = mm-DirsOpened low high k zero_links in
    let r1 =
      init_list_head-open_list o.0 free_queue (omega arith)
        (ground (arith, own-dirs_view free_queue)) (λ a. ground (arith, own-dirs_view a)) in
    let r2 =
      init_list_head-open_list r1 readyqueue (omega arith)
        (ground (arith, own-dirs_view readyqueue)) (λ a. ground (arith, own-dirs_view a)) in
    let k1 = record k0 {
      current_ticks = 0;
      last_pid = 0;
      links = init_list_head readyqueue (init_list_head free_queue k0.links);
    } in
    let f =
      free_tasks-TasksFreed 10 0 k1 heads_view r2 refl (λ a e. ground (arith, own-dirs_view a)) in
    let c = clear_semaphores-clears 20 0 (free_tasks 10 0 k1) in
    record {
      lists = subst (λ l. Represents l started_view) (sym c.2) f.lists;
      states = λ t l. ap (λ g. (g t).state) c.3 ∙ f.states t (ground arith);
      semaphores = λ n l. c.0 n (ground arith);
      counts = λ d l. ap (λ m. m.dir_count d) (c.4 ∙ f.mem) ∙ o.1 d l;
      hung = c.5 ∙ f.hung ∙ o.2;
      frames = λ g lo hi. ap (λ m. m.phys_mem g) (c.4 ∙ f.mem) ∙ o.3 g lo hi;
    }
