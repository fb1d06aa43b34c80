-- ===== src/System/Allocate.antt =====
-- The lists and the directories when `allocate_process` has made a process out of a free one.
use so2_zeos.Prelude.{
  ℕ, ◌+◌, ◌<◌, ◌≡◌, ◌≢◌, ◌∙◌, sym, inl, inr, Bool, false, ◌&&◌, ◌==◌, if◌then◌else◌, arith,
  Bool-cases, some, update, count_below, count_below-same, count_below-one_more,
}
use so2_zeos.LinkedList.{null}
use so2_zeos.LinkedList.Queues.{View, open_list, remove}
use so2_zeos.Kernel.{nr_tasks}
use so2_zeos.Kernel.Addresses.{free_queue, anchor, owned_semaphores, dir_anchor}
use so2_zeos.System.Shape.{nobody, Facts, Shape, Dirs, uses, is_free}

-- the facts when process `t` has directory `d`, which has `c` processes now
abbrev pub given : (t d c : ℕ) → Facts → Facts
given t d c f = record f { dirs = update f.dirs t (some d); counts = update f.counts d c }

-- the lists then; `taken`: the directory was free
abbrev pub given_view : (t d : ℕ) → Bool → View → View
given_view t d taken v =
    open_list (owned_semaphores t)
      (remove (anchor t) (if taken then remove (dir_anchor d) v else v))

module _ (t d c : ℕ) (taken : Bool) (f : Facts) (v : View) (sh : Shape nobody f v)
    (lt : t < nr_tasks) (ltd : d < nr_tasks) (free : v.own (anchor t) ≡ free_queue)
    (one_more : c ≡ f.counts d + 1) (was : (f.counts d == 0) ≡ taken) where
  own-given_view :
      (a : ℕ)
      → (given_view t d taken v).own a
        ≡ (if a == anchor t then null else if taken && (a == dir_anchor d) then null else v.own a)
  own-given_view a = ground arith

  is_free-given_view :
      (u : ℕ) → u < nr_tasks → u ≢ t → is_free (given_view t d taken v) u ≡ is_free v u
  is_free-given_view u lu ne = ground (arith, own-given_view (anchor u))

  busy : is_free (given_view t d taken v) t ≡ false
  busy = ground (arith, own-given_view (anchor t))

  uses-given :
      (e u : ℕ)
      → u < nr_tasks
      → u ≢ t
      → uses (given t d c f) (given_view t d taken v) e u ≡ uses f v e u
  uses-given e u lu ne = rw (is_free-given_view u lu ne) (ground arith)

  uses-new : (e : ℕ) → uses (given t d c f) (given_view t d taken v) e t ≡ (d == e)
  uses-new e = rw busy (ground arith)

  uses-old : (e : ℕ) → uses f v e t ≡ false
  uses-old e = ground arith

  count-given :
      (e : ℕ)
      → e ≢ d
      → count_below nr_tasks (uses (given t d c f) (given_view t d taken v) e)
        ≡ count_below nr_tasks (uses f v e)
  count-given e ne =
      count_below-same nr_tasks (uses (given t d c f) (given_view t d taken v) e) (uses f v e)
        (λ u lu. elim (Bool-cases (u == t)) [
          | inl same ↦ let at : u ≡ t = ground arith in rw at (uses-new e ∙ ground arith)
          | inr other ↦ uses-given e u lu (ground arith)
        ])

  given-Dirs : Dirs (given t d c f) (given_view t d taken v)
  given-Dirs = record {
    counted = λ e l. elim (Bool-cases (e == d)) [
      | inl same ↦
          let at : e ≡ d = ground arith in
          rw at (
            ground (
              arith,
              sh.dirs.counted d ltd,
              count_below-one_more nr_tasks t (uses (given t d c f) (given_view t d taken v) d)
                  (uses f v d) lt (uses-new d ∙ ground arith) (uses-old d) (uses-given d),
            ))
      | inr other ↦ ground (arith, sh.dirs.counted e l, count-given e (ground arith))
    ];
    unused = λ e l. ground (arith, sh.dirs.unused e l, own-given_view (dir_anchor e));
    loose = λ e l. ground (arith, sh.dirs.loose e l, own-given_view (dir_anchor e));
    live = λ u l ne. elim (Bool-cases (u == t)) [
      | inl same ↦ (d, ltd, ground arith)
      | inr other ↦
          let (e, le, at) = sh.dirs.live u l (sym (is_free-given_view u l (ground arith)) ∙ ne) in
          (e, le, (ground arith) ∙ at)
    ];
  }

  pub given-Shape : Shape nobody (given t d c f) (given_view t d taken v)
  given-Shape = record {
    lists = λ h e. ground (arith, sh.lists h);
    nodes = λ a ne. ground (arith, sh.nodes a);
    owned_only = λ a e. ground (arith, sh.owned_only a);
    used_head = λ n l e. ground (arith, sh.used_head n l e);
    used_owned = λ n l e. ground (arith, sh.used_owned n l e);
    unused_loose = λ n l e. ground (arith, sh.unused_loose n l e);
    unused_empty = λ n l e a at. ground (arith, sh.unused_empty n l e a);
    counted_empty = λ n l u c a at. ground (arith, sh.counted_empty n l u c a);
    owners = λ u l ne. ground (arith, sh.owners u l);
    fresh = λ u l ne at a e. ground (arith, sh.fresh u l ne (ground arith) a);
    dirs_head = ground (arith, sh.dirs_head);
    dirs_only = λ a e. ground (arith, sh.dirs_only a);
    dirs = given-Dirs;
  }
