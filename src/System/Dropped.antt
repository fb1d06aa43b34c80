-- ===== src/System/Dropped.antt =====
-- `free_DIR` of a process that has gone to the free queue.
use so2_zeos.Prelude.{
  ℕ, ◌+◌, ◌-◌, ◌%◌, ◌^◌, ◌<◌, ◌≡◌, ◌≢◌, ◌∙◌, sym, refl, ap, fun_ext, inl, inr, Bool, true, false,
  ◌==◌, arith, Bool-cases, none, some, update, count_below-pos, count_below-le,
}
use mathlib.Core.Path.{subst}
use so2_zeos.LinkedList.{null, Links, list_add}
use so2_zeos.LinkedList.Queues.{View, Represents}
use so2_zeos.LinkedList.Queues.Insert.{list_add-push}
use so2_zeos.Memory.{Memory}
use so2_zeos.Kernel.{Kernel, nr_tasks}
use so2_zeos.Kernel.Addresses.{
  free_queue, keyboardqueue, free_dirs, anchor, dir_anchor, owned_semaphores,
}
use so2_zeos.Scheduler.{state_in, update_process_state, update_process_state_rr}
use so2_zeos.Scheduler.Frames.{update_process_state-SameBut}
use so2_zeos.Scheduler.Consistent.{Placed, Queued, moved}
use so2_zeos.Scheduler.Moves.{update_process_state-Queued}
use so2_zeos.Directories.{set_dir, free_user_pages, release_dir, drop_dir, free_dir}
use so2_zeos.System.Shape.{facts, Shape, Sound, uses}
use so2_zeos.System.Counts.{free_user_pages-SameCounts}
use so2_zeos.System.Leaving.{dropped, dropped_view, dropped-Shape}

-- Process `x` is in the free queue, has no directory any more, and may own semaphores.
pub record Dropping (x : ℕ) (k : Kernel) (v : View) : Type 0 where
  pub placed : Placed k v
  pub shape : Shape x (facts k) v
  pub keyboard : v.is_head keyboardqueue ≡ true
  pub owns : v.is_head (owned_semaphores x) ≡ true
  pub free : v.own (anchor x) ≡ free_queue
  pub runs : k.current ≡ x

module _ (k : Kernel) (v : View) (s : Sound k v) (busy : k.current ≢ k.idle_task) where
  abbrev leaver : ℕ
  leaver = k.current

  abbrev freed_kernel : Kernel
  freed_kernel = update_process_state leaver free_queue false k

  abbrev freed_view : View
  freed_view = moved (anchor leaver) free_queue false v

  freed-Queued : Queued freed_kernel freed_view
  freed-Queued =
      let c = s.consistent in
      update_process_state-Queued leaver free_queue false k v c.queued c.on_cpu.0
        (inr (record { head = c.queued.heads.0; queue = refl }, busy))

  module _ (d : ℕ) (ltd : d < nr_tasks) (has_it : (k.tasks leaver).dir ≡ some d) where
    counted_in : (k.mem.dir_count d ≢ 0) × (k.mem.dir_count d < 11)
    counted_in =
        let cpu = s.consistent.on_cpu in
        let p = uses (facts k) v d in
        let many = count_below-pos nr_tasks leaver p cpu.0 (rw has_it (ground (arith, cpu))) in
        let few = count_below-le nr_tasks p in
        let e = s.shape.dirs.counted d ltd in (omega (arith, many, e), omega (arith, few, e))

    abbrev left_count : ℕ
    left_count = (k.mem.dir_count d + 2 ^ 32 - 1) % 2 ^ 32

    one_less : k.mem.dir_count d ≡ left_count + 1
    one_less = omega (arith, counted_in)

    abbrev last : Bool
    last = left_count == 0

    loose_dir : v.own (dir_anchor d) ≡ null
    loose_dir = elim (Bool-cases (v.own (dir_anchor d) == null)) [
      | inl e ↦ ground arith
      | inr e ↦
          absurd (ground (arith, s.shape.dirs.loose d ltd, s.shape.dirs.unused d ltd, counted_in))
    ]

    not_head : v.is_head (dir_anchor d) ≡ false
    not_head = elim (Bool-cases (v.is_head (dir_anchor d))) [
      | inl e ↦ absurd (ground (arith, s.shape.lists (dir_anchor d)))
      | inr e ↦ e
    ]

    -- the directory goes back to the free ones
    freed-Represents :
        Represents
          (list_add (dir_anchor d) free_dirs freed_kernel.links)
          (dropped_view leaver d true v)
    freed-Represents = list_add-push freed-Queued.lists {a = dir_anchor d} {h = free_dirs} (record {
      head = ground (arith, s.shape.dirs_head);
      node = ground (arith, not_head);
      real = omega arith;
      free = ground (arith, loose_dir);
    })

    -- the kernel in which `free_DIR` ends, with the links and the memory of its branch
    module _ (l : Links) (m : Memory) (same : m.dir_count ≡ update k.mem.dir_count d left_count)
        (lists : Represents l (dropped_view leaver d last v)) where
      abbrev end_kernel : Kernel
      end_kernel = set_dir leaver none (record freed_kernel { links = l; mem = m })

      facts-end_kernel : facts end_kernel ≡ dropped leaver d left_count (facts k)
      facts-end_kernel = λ i. record {
        semaphores = (update_process_state-SameBut leaver free_queue false k).semaphores i;
        dirs = fun_ext (λ u. dir_of u) i;
        counts = same i;
      }
        where
          dir_of : (u : ℕ) → (end_kernel.tasks u).dir ≡ update (λ w. (k.tasks w).dir) leaver none u
          dir_of u = elim (Bool-cases (u == leaver)) [
            | inl e ↦ rw e refl
            | inr e ↦ rw e (
                ap (λ y. y.dir)
                  ((update_process_state-SameBut leaver free_queue false k).tasks u (ground arith)))
          ]

      same_anchor :
          (u : ℕ)
          → u < nr_tasks
          → (dropped_view leaver d last v).own (anchor u) ≡ freed_view.own (anchor u)
      same_anchor u lu = ground arith

      same_state : (u : ℕ) → (end_kernel.tasks u).state ≡ (freed_kernel.tasks u).state
      same_state u = ground arith

      pub end-Dropping :
          Dropping leaver end_kernel (dropped_view leaver d last v)
          × (end_kernel.hung ≡ k.hung)
          × (end_kernel.idle_task ≡ k.idle_task)
      end-Dropping =
          let b = update_process_state-SameBut leaver free_queue false k in
          let q = freed-Queued in
          let c = s.consistent in
          (
            record {
              placed = record {
                queued = record {
                  lists = lists;
                  heads = ground (arith, q.heads);
                  nodes = λ t h. ground (arith, q.nodes t h);
                  states = λ t h ne.
                      same_state t ∙ q.states t h ne ∙ ap state_in (sym (same_anchor t h));
                  idle = (q.idle.0, same_anchor freed_kernel.idle_task q.idle.0 ∙ q.idle.1);
                  tasks_only = λ a h. ground (arith, q.tasks_only a);
                };
                only = λ t h ne out.
                    ground (arith, same_anchor t h, c.only t h, b.idle_task, b.current);
              };
              shape =
                  subst (λ f. Shape leaver f (dropped_view leaver d last v)) (sym facts-end_kernel)
                    (dropped-Shape leaver d left_count last (facts k) v s.shape c.on_cpu.0 ltd
                      (ground (arith, c.on_cpu)) has_it one_less refl);
              keyboard = ground (arith, s.keyboard);
              owns = ground (arith, s.shape.owners leaver c.on_cpu.0, c.on_cpu);
              free = ground arith;
              runs = b.current;
            },
            b.hung,
            b.idle_task,
          )

    -- `free_DIR` on both branches
    drop_dir-Dropping :
        Dropping leaver (drop_dir d leaver freed_kernel) (dropped_view leaver d last v)
        × ((drop_dir d leaver freed_kernel).hung ≡ k.hung)
        × ((drop_dir d leaver freed_kernel).idle_task ≡ k.idle_task)
    unfolding drop_dir release_dir
    drop_dir-Dropping =
        let b = update_process_state-SameBut leaver free_queue false k in
        let top = (freed_kernel.tasks leaver).heap_top in
        let m = record freed_kernel.mem {
          dir_count =
              update freed_kernel.mem.dir_count d
                ((freed_kernel.mem.dir_count d + 2 ^ 32 - 1) % 2 ^ 32);
        } in
        let counts : m.dir_count ≡ update k.mem.dir_count d left_count =
          ap (λ (g : Memory). update g.dir_count d ((g.dir_count d + 2 ^ 32 - 1) % 2 ^ 32)) b.mem in
        let same_test : ((freed_kernel.mem.dir_count d + 2 ^ 32 - 1) % 2 ^ 32 == 0) ≡ last =
          ap (λ (g : Memory). (g.dir_count d + 2 ^ 32 - 1) % 2 ^ 32 == 0) b.mem in
        elim (Bool-cases last) [
          | inl free ↦
              rw (same_test, free)
                (rw free at (
                  end-Dropping (list_add (dir_anchor d) free_dirs freed_kernel.links)
                    (free_user_pages d top m) (free_user_pages-SameCounts d top m ∙ counts)
                    (rw free freed-Represents)))
          | inr kept ↦
              rw (same_test, kept)
                (rw kept at (end-Dropping freed_kernel.links m counts (rw kept freed-Queued.lists)))
        ]

  free_dir-drop_dir :
      (t d : ℕ) (k1 : Kernel) → (k1.tasks t).dir ≡ some d → free_dir t k1 ≡ drop_dir d t k1
  unfolding free_dir
  free_dir-drop_dir t d k1 e =
      ap (λ o. elim o [ none ↦ record k1 { hung = true } | some c ↦ drop_dir c t k1 ]) e

  -- `free_process` up to its semaphores
  pub free_dir-Dropping :
      let k' = free_dir k.current (update_process_state_rr k.current free_queue k) in
      (v' : View) × Dropping k.current k' v' × (k'.hung ≡ k.hung) × (k'.idle_task ≡ k.idle_task)
  unfolding update_process_state_rr
  free_dir-Dropping =
      let cpu = s.consistent.on_cpu in
      let (d, ltd, at) = s.shape.dirs.live leaver cpu.0 (ground (arith, cpu)) in
      let now : (freed_kernel.tasks leaver).dir ≡ some d =
        (update_process_state-SameBut leaver free_queue false k).dir ∙ at in
      let r = drop_dir-Dropping d ltd at in
      subst
        (λ j. (v' : View) × Dropping leaver j v' × (j.hung ≡ k.hung) × (j.idle_task ≡ k.idle_task))
        (sym (free_dir-drop_dir leaver d freed_kernel now))
        (dropped_view leaver d (last d ltd at) v, r.0, r.1, r.2)
