-- ===== src/System/Observed.antt =====
-- What the invariant says of the kernel's own fields, in every state that it reaches from its start.
use so2_zeos.Prelude.{
  ℕ, ◌<◌, ◌≡◌, ◌≢◌, ◌∙◌, sym, refl, ap, inl, inr, true, false, some, arith, Bool-cases, ◌==◌, List,
  count_below-pos, [], ◌∷◌, has,
}
use so2_zeos.LinkedList.{null, list_empty}
use so2_zeos.LinkedList.Queues.{View, open_list}
use so2_zeos.LinkedList.Queues.Open.{list_empty_iff}
use so2_zeos.Stats.{st_run, st_invalid}
use so2_zeos.Kernel.{Kernel, nr_tasks, nr_semaphores}
use so2_zeos.Kernel.Addresses.{free_queue, keyboardqueue, anchor, sem_blocked}
use so2_zeos.Scheduler.{state_in}
use so2_zeos.Boot.{boot}
use so2_zeos.Boot.Lists.{no_links}
use so2_zeos.Boot.Views.{running_view}
use so2_zeos.Boot.Booted.{boot-Sound}
use so2_zeos.System.Shape.{Sound, facts, uses, is_free}
use so2_zeos.System.Steps.{Reach, Reach-Sound}

-- one process at most runs, a semaphore that has a count blocks nobody, and every process has a
-- directory, which has a count
pub record Observed (k : Kernel) : Type 0 where
  pub one_runs :
      (t : ℕ) → t < nr_tasks → t ≢ k.idle_task → (k.tasks t).state ≡ st_run → t ≡ k.current
  pub nobody_waits :
      (n : ℕ)
      → n < nr_semaphores
      → (k.semaphores n).used ≡ true
      → (k.semaphores n).count ≢ 0
      → list_empty (sem_blocked n) k.links ≡ true
  pub has_directory :
      (t : ℕ)
      → t < nr_tasks
      → t ≢ k.idle_task
      → (k.tasks t).state ≢ st_invalid
      → (d : ℕ) × ((k.tasks t).dir ≡ some d) × (k.mem.dir_count d ≢ 0)

runs_nowhere : (d : ℕ) → state_in d ≡ st_run → d ≡ null
runs_nowhere d e = ground arith

module _ (k : Kernel) (v : View) (s : Sound k v) where
  Sound-one_runs :
      (t : ℕ) → t < nr_tasks → t ≢ k.idle_task → (k.tasks t).state ≡ st_run → t ≡ k.current
  Sound-one_runs t l ne run =
      let c = s.consistent in
      c.only t l ne (runs_nowhere (v.own (anchor t)) (sym (c.queued.states t l ne) ∙ run))

  Sound-nobody_waits :
      (n : ℕ)
      → n < nr_semaphores
      → (k.semaphores n).used ≡ true
      → (k.semaphores n).count ≢ 0
      → list_empty (sem_blocked n) k.links ≡ true
  Sound-nobody_waits n l u c = go (v.items (sem_blocked n)) refl
    where
      go : (xs : List ℕ) → v.items (sem_blocked n) ≡ xs → list_empty (sem_blocked n) k.links ≡ true
      go [] e =
          (list_empty_iff s.consistent.queued.lists (sem_blocked n) (s.shape.used_head n l u)).1 e
      go (x ∷ xs) e =
          let m : has x (x ∷ xs) ≡ (v.own x == sem_blocked n) =
            rw e at
              (s.consistent.queued.lists.member (sem_blocked n) x (s.shape.used_head n l u)) in
          absurd (s.shape.counted_empty n l u c x (ground (arith, m)))

  Sound-has_directory :
      (t : ℕ)
      → t < nr_tasks
      → t ≢ k.idle_task
      → (k.tasks t).state ≢ st_invalid
      → (d : ℕ) × ((k.tasks t).dir ≡ some d) × (k.mem.dir_count d ≢ 0)
  Sound-has_directory t l ne live =
      let busy : is_free v t ≡ false = elim (Bool-cases (is_free v t)) [
        | inl out ↦
            let at : v.own (anchor t) ≡ free_queue = ground arith in
            absurd (live (s.consistent.queued.states t l ne ∙ ap state_in at))
        | inr in_use ↦ in_use
      ] in
      let (d, ltd, has_it) = s.shape.dirs.live t l busy in
      let many =
        count_below-pos nr_tasks t (uses (facts k) v d) l (rw (busy, has_it) (ground arith)) in
      (d, has_it, omega (arith, many, s.shape.dirs.counted d ltd))

  pub Sound-Observed : Observed k
  Sound-Observed = record {
    one_runs = Sound-one_runs;
    nobody_waits = Sound-nobody_waits;
    has_directory = Sound-has_directory;
  }

-- From a kernel whose lists are zero, in every state that it reaches after `main` by interrupts,
-- calls and page faults, resolved or not, in any order: of the processes but the idle one only the current one has
-- the state ST_RUN; no process is blocked on a semaphore whose count is not 0; every process but the
-- idle one whose state is not ST_INVALID has a directory, whose count is not 0. But for the loops of
-- `pf_rsi` on a fault that it does not resolve, the kernel enters a `while(1)` only if it had.
pub boot-Reach :
    (low high : ℕ) (k : Kernel) {k' : Kernel}
    → k.links ≡ no_links
    → Reach (boot low high k) k'
    → Observed k' × (k'.hung ≡ k.hung)
boot-Reach low high k {k'} zero_links r =
    let b = boot-Sound low high k zero_links in
    let (found, same) = Reach-Sound (open_list keyboardqueue running_view) b.0 r in
    (Sound-Observed k' found.0 found.1, same ∙ b.1)
