-- ===== src/System/Leaving.antt =====
-- The lists and the directories when a process has become free and has given up its directory. The
-- semaphores that it owns are still there.
use so2_zeos.Prelude.{
  ℕ, ◌+◌, ◌<◌, ◌≡◌, ◌≢◌, ◌∙◌, sym, refl, inl, inr, Bool, true, false, ◌&&◌, ◌==◌, if◌then◌else◌,
  arith, Bool-cases, none, some, update, count_below, count_below-same, count_below-one_more,
}
use so2_zeos.LinkedList.{null}
use so2_zeos.LinkedList.Queues.{View, push}
use so2_zeos.Kernel.{nr_tasks}
use so2_zeos.Kernel.Addresses.{free_queue, free_dirs, anchor, dir_anchor}
use so2_zeos.Scheduler.Consistent.{moved}
use so2_zeos.System.Shape.{nobody, Facts, Shape, Dirs, uses, is_free}

-- the facts when process `t` has given up directory `d`, which has `c` processes left
abbrev pub dropped : (t d c : ℕ) → Facts → Facts
dropped t d c f = record f { dirs = update f.dirs t none; counts = update f.counts d c }

-- the lists then; `last`: the directory has become free
abbrev pub dropped_view : (t d : ℕ) → Bool → View → View
dropped_view t d last v =
    let v1 = moved (anchor t) free_queue false v in
    if last then push (dir_anchor d) free_dirs v1 else v1

module _ (t d c : ℕ) (last : Bool) (f : Facts) (v : View) (sh : Shape nobody f v)
    (lt : t < nr_tasks) (ltd : d < nr_tasks) (busy : v.own (anchor t) ≢ free_queue)
    (has_it : f.dirs t ≡ some d) (one_less : f.counts d ≡ c + 1) (at_zero : (c == 0) ≡ last) where
  own-dropped_view :
      (a : ℕ)
      → (dropped_view t d last v).own a ≡ (
          if a == anchor t
          then free_queue
          else if last && (a == dir_anchor d)
          then free_dirs
          else v.own a)
  own-dropped_view a = ground arith

  is_free-dropped_view :
      (u : ℕ) → u < nr_tasks → u ≢ t → is_free (dropped_view t d last v) u ≡ is_free v u
  is_free-dropped_view u lu ne = ground (arith, own-dropped_view (anchor u))

  free_now : is_free (dropped_view t d last v) t ≡ true
  free_now = ground (arith, own-dropped_view (anchor t))

  uses-dropped :
      (e u : ℕ)
      → u < nr_tasks
      → u ≢ t
      → uses f v e u ≡ uses (dropped t d c f) (dropped_view t d last v) e u
  uses-dropped e u lu ne = rw (is_free-dropped_view u lu ne) (ground arith)

  uses-gone : (e : ℕ) → uses (dropped t d c f) (dropped_view t d last v) e t ≡ false
  uses-gone e = rw free_now refl

  uses-before : (e : ℕ) → uses f v e t ≡ (d == e)
  uses-before e = rw has_it (ground arith)

  count-dropped :
      (e : ℕ)
      → e ≢ d
      → count_below nr_tasks (uses f v e)
        ≡ count_below nr_tasks (uses (dropped t d c f) (dropped_view t d last v) e)
  count-dropped e ne =
      count_below-same nr_tasks (uses f v e) (uses (dropped t d c f) (dropped_view t d last v) e)
        (λ u lu. elim (Bool-cases (u == t)) [
          | inl same ↦
              let at : u ≡ t = ground arith in
              rw at (uses-before e ∙ (ground arith) ∙ sym (uses-gone e))
          | inr other ↦ uses-dropped e u lu (ground arith)
        ])

  out_of_lists : v.own (dir_anchor d) ≡ null
  out_of_lists = elim (Bool-cases (v.own (dir_anchor d) == null)) [
    | inl e ↦ ground arith
    | inr e ↦ absurd (ground (arith, sh.dirs.loose d ltd, sh.dirs.unused d ltd))
  ]

  dropped-Dirs : Dirs (dropped t d c f) (dropped_view t d last v)
  dropped-Dirs = record {
    counted = λ e l. elim (Bool-cases (e == d)) [
      | inl same ↦
          let at : e ≡ d = ground arith in
          rw at (
            ground (
              arith,
              sh.dirs.counted d ltd,
              count_below-one_more nr_tasks t (uses f v d)
                  (uses (dropped t d c f) (dropped_view t d last v) d) lt
                  (uses-before d ∙ ground arith) (uses-gone d) (uses-dropped d),
            ))
      | inr other ↦ ground (arith, sh.dirs.counted e l, count-dropped e (ground arith))
    ];
    unused =
        λ e l. ground (arith, sh.dirs.unused e l, own-dropped_view (dir_anchor e), out_of_lists);
    loose = λ e l. ground (arith, sh.dirs.loose e l, own-dropped_view (dir_anchor e));
    live = λ u l ne. elim (Bool-cases (u == t)) [
      | inl same ↦ absurd (ground (arith, free_now))
      | inr other ↦
          let (e, le, at) = sh.dirs.live u l (sym (is_free-dropped_view u l (ground arith)) ∙ ne) in
          (e, le, (ground arith) ∙ at)
    ];
  }

  pub dropped-Shape : Shape t (dropped t d c f) (dropped_view t d last v)
  dropped-Shape = record {
    lists = λ h e. ground (arith, sh.lists h);
    nodes = λ a ne. ground (arith, sh.nodes a);
    owned_only = λ a e. ground (arith, sh.owned_only a);
    used_head = λ n l e. ground (arith, sh.used_head n l e);
    used_owned = λ n l e. ground (arith, sh.used_owned n l e);
    unused_loose = λ n l e. ground (arith, sh.unused_loose n l e);
    unused_empty = λ n l e a at. ground (arith, sh.unused_empty n l e a);
    counted_empty = λ n l u c a at. ground (arith, sh.counted_empty n l u c a);
    owners = λ u l ne. ground (arith, sh.owners u l);
    fresh = λ u l ne at a e. ground (arith, sh.fresh u l (omega arith) (ground arith) a);
    dirs_head = ground (arith, sh.dirs_head);
    dirs_only = λ a e. ground (arith, sh.dirs_only a);
    dirs = dropped-Dirs;
  }
