-- ===== src/System/Allocated.antt =====
-- `allocate_process` keeps the lists and the directories in order, on each of its branches.
use so2_zeos.Prelude.{
  ℕ, ◌+◌, ◌%◌, ◌^◌, ◌≤◌, ◌<◌, ◌≡◌, ◌≢◌, ◌∙◌, sym, refl, inl, inr, Bool, true, false, ◌==◌,
  if◌then◌else◌, arith, Bool-cases, Option, none, some, List, [], ◌∷◌, has, update, count_below,
  count_below-le, count_below-pos, fun_ext,
}
use mathlib.Core.Path.{subst}
use so2_zeos.LinkedList.{Ptr, null, Links, list_del, list_empty, list_first, init_list_head}
use so2_zeos.LinkedList.Queues.{View, Represents, remove}
use so2_zeos.LinkedList.Queues.Open.{init_list_head-open_list, list_empty_iff, list_first-items}
use so2_zeos.LinkedList.Queues.Remove.{list_del-remove}
use so2_zeos.Kernel.{Kernel, nr_tasks, set_links}
use so2_zeos.Kernel.Addresses.{free_queue, free_dirs, anchor, owned_semaphores, dir_anchor}
use so2_zeos.Scheduler.Consistent.{is_task_queue}
use so2_zeos.Directories.{set_count, set_dir, take_dir, reuse_dir, allocate_dir}
use so2_zeos.Processes.{init_process, allocate_process}
use so2_zeos.System.Shape.{nobody, facts, Shape, is_free, uses}
use so2_zeos.System.Allocate.{given, given_view, given-Shape}

-- What `allocate_process` needs: the lists are in order, the free queue is a list of processes.
pub record Stocked (k : Kernel) (v : View) : Type 0 where
  pub lists : Represents k.links v
  pub head : v.is_head free_queue ≡ true
  pub tasks_only :
      (a : Ptr) → is_task_queue (v.own a) ≡ true → (anchor 0 ≤ a) × (a < anchor nr_tasks)
  pub shape : Shape nobody (facts k) v

-- `k'` is `k` with the new process `t`, which has directory `d`.
pub record Allocated (k k' : Kernel) (v : View) (t d : ℕ) (taken : Bool) : Type 0 where
  pub range : t < nr_tasks
  pub free : v.own (anchor t) ≡ free_queue
  pub lists : Represents k'.links (given_view t d taken v)
  pub shape : Shape nobody (facts k') (given_view t d taken v)
  pub tasks : (u : ℕ) → u ≢ t → k'.tasks u ≡ k.tasks u
  pub dir : (k'.tasks t).dir ≡ some d
  pub current : k'.current ≡ k.current
  pub idle_task : k'.idle_task ≡ k.idle_task
  pub hung : k'.hung ≡ k.hung
  pub phys_mem : k'.mem.phys_mem ≡ k.mem.phys_mem

-- the links then
abbrev given_links : (t d : ℕ) → Bool → Links → Links
given_links t d taken l =
    init_list_head (owned_semaphores t)
      (list_del (anchor t) (if taken then list_del (dir_anchor d) l else l))

module _ (k : Kernel) (v : View) (s : Stocked k v) where
  -- the first node of a list that is not empty
  first_of_list :
      (h x : Ptr) (xs : List Ptr)
      → v.is_head h ≡ true
      → v.items h ≡ x ∷ xs
      → (v.own x ≡ h) × (list_first h k.links ≡ x) × (list_empty h k.links ≡ false)
  first_of_list h x xs hh e =
      let m : has x (x ∷ xs) ≡ (v.own x == h) = rw e at (s.lists.member h x hh) in
      (
        ground (arith, m),
        list_first-items s.lists h x xs hh e,
        elim (Bool-cases (list_empty h k.links)) [
          | inl empty ↦ absurd (ground (arith, (list_empty_iff s.lists h hh).0 empty))
          | inr full ↦ full
        ],
      )

  module _ (t d : ℕ) (taken : Bool) (lt : t < nr_tasks) (ltd : d < nr_tasks)
      (free : v.own (anchor t) ≡ free_queue)
      (was : taken ≡ true → v.own (dir_anchor d) ≡ free_dirs) where
    dir_links :
        Represents
          (if taken then list_del (dir_anchor d) k.links else k.links)
          (if taken then remove (dir_anchor d) v else v)
    dir_links = elim (Bool-cases taken) [
      | inl now ↦ rw now (list_del-remove s.lists (dir_anchor d) (ground (arith, was)))
      | inr still ↦ rw still s.lists
    ]

    given-Represents : Represents (given_links t d taken k.links) (given_view t d taken v)
    given-Represents =
        let v1 = if taken then remove (dir_anchor d) v else v in
        let at : v1.own (anchor t) ≢ null = ground (arith, free) in
        let sh = s.shape in
        init_list_head-open_list (list_del-remove dir_links (anchor t) at) (owned_semaphores t)
          (omega arith) (ground (arith, sh.nodes (owned_semaphores t)))
          (λ a. ground (arith, sh.fresh t lt (omega arith) free a))

    -- the new process as the code makes it, with the count `c` for its directory
    abbrev given_kernel : ℕ → Kernel
    given_kernel c = init_process t (
        set_count d c (
          set_dir t (some d)
            (set_links (if taken then list_del (dir_anchor d) k.links else k.links) k)))

    facts-given_kernel : (c : ℕ) → facts (given_kernel c) ≡ given t d c (facts k)
    unfolding init_process
    facts-given_kernel c = λ i. record {
      semaphores = k.semaphores;
      dirs = fun_ext (λ u. dir_of u) i;
      counts = update k.mem.dir_count d c;
    }
      where
        dir_of :
            (u : ℕ) → ((given_kernel c).tasks u).dir ≡ update (λ w. (k.tasks w).dir) t (some d) u
        dir_of u = ground arith

    given-Allocated :
        (c : ℕ)
        → c ≡ k.mem.dir_count d + 1
        → (k.mem.dir_count d == 0) ≡ taken
        → Allocated k (given_kernel c) v t d taken
    unfolding init_process
    given-Allocated c one_more unused = record {
      range = lt;
      free = free;
      lists = given-Represents;
      shape =
          subst (λ f. Shape nobody f (given_view t d taken v)) (sym (facts-given_kernel c))
            (given-Shape t d c taken (facts k) v s.shape lt ltd free one_more unused);
      tasks = λ u ne. ground arith;
      dir = ground arith;
      current = refl;
      idle_task = refl;
      hung = refl;
      phys_mem = refl;
    }

  -- The first free process and the first free directory, if there are both.
  pub allocate_new :
      (t d : ℕ) (ts ds : List Ptr)
      → v.items free_queue ≡ anchor t ∷ ts
      → v.items free_dirs ≡ dir_anchor d ∷ ds
      → (k' : Kernel) × (allocate_process none k ≡ (k', some t)) × Allocated k k' v t d true
  unfolding allocate_process
  allocate_new t d ts ds et ed =
      let h1 = first_of_list free_queue (anchor t) ts s.head et in
      let h2 = first_of_list free_dirs (dir_anchor d) ds s.shape.dirs_head ed in
      let lt = s.tasks_only (anchor t) (rw h1.0) in
      let ltd = s.shape.dirs_only (dir_anchor d) h2.0 in
      let zero_count : (k.mem.dir_count d == 0) ≡ true =
        sym (s.shape.dirs.unused d (omega arith)) ∙ ground (arith, h2.0) in
      (
        init_process t (take_dir d t k),
        rw (h1.2, h1.1, h2.2, h2.1, allocate_dir) (ground arith),
        given-Allocated t d true (omega arith) (omega arith) h1.0 (λ e. h2.0) 1
            (ground (arith, zero_count)) zero_count,
      )

  -- A thread shares the directory of the process that makes it.
  pub allocate_thread :
      (t d u : ℕ) (ts : List Ptr)
      → v.items free_queue ≡ anchor t ∷ ts
      → u < nr_tasks
      → is_free v u ≡ false
      → (k.tasks u).dir ≡ some d
      → d < nr_tasks
      → (k' : Kernel) × (allocate_process (some d) k ≡ (k', some t)) × Allocated k k' v t d false
  unfolding allocate_process
  allocate_thread t d u ts et lu busy at ltd =
      let h1 = first_of_list free_queue (anchor t) ts s.head et in
      let lt = s.tasks_only (anchor t) (rw h1.0) in
      let p : ℕ → Bool = uses (facts k) v d in
      let many : 1 ≤ count_below nr_tasks p =
        count_below-pos nr_tasks u p lu (rw (busy, at) (ground arith)) in
      let few = count_below-le nr_tasks p in
      let count = s.shape.dirs.counted d ltd in
      let used : (k.mem.dir_count d == 0) ≡ false = ground (arith, many, count) in
      (
        init_process t (reuse_dir d t k),
        rw (h1.2, h1.1) (ground arith),
        given-Allocated t d false (omega arith) ltd h1.0 (λ e. absurd (cc e))
            ((k.mem.dir_count d + 1) % 2 ^ 32) (omega (arith, few, count)) used,
      )

  -- No process is free, or no directory is.
  pub allocate_none :
      (dir : Option ℕ) → v.items free_queue ≡ [] → allocate_process dir k ≡ (k, none)
  unfolding allocate_process
  allocate_none dir e = rw ((list_empty_iff s.lists free_queue s.head).1 e)

  pub allocate_no_dir : v.items free_dirs ≡ [] → (allocate_process none k ≡ (k, none))
  unfolding allocate_process
  allocate_no_dir e =
      let empty = (list_empty_iff s.lists free_dirs s.shape.dirs_head).1 e in
      rw (empty, allocate_dir)
        (elim (Bool-cases (list_empty free_queue k.links)) [
          | inl out ↦ rw out
          | inr found ↦ rw found
        ])
