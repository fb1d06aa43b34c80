-- ===== src/Boot/Views.antt =====
-- Where everything stands when `main` has made the first two processes, and `init_keyboard`.
use so2_zeos.Prelude.{
  ℕ, ◌≤◌, ◌<◌, ◌≡◌, ◌∙◌, sym, refl, ap, inl, inr, true, ◌&&◌, ◌||◌, ◌==◌, leb, if◌then◌else◌, arith,
  Bool-cases,
}
use so2_zeos.LinkedList.{Ptr, null}
use so2_zeos.LinkedList.Queues.{View, Represents, open_list}
use so2_zeos.LinkedList.Queues.Open.{init_list_head-open_list}
use so2_zeos.Stats.{st_run, st_invalid}
use so2_zeos.Kernel.{Kernel, nr_tasks}
use so2_zeos.Kernel.Addresses.{
  free_queue, readyqueue, keyboardqueue, free_dirs, anchor, dir_anchor, owned_semaphores,
}
use so2_zeos.Scheduler.{state_in}
use so2_zeos.Keyboard.{init_keyboard}
use so2_zeos.Boot.Lists.{among}
use so2_zeos.Boot.Started.{OwnAs, started_view, own-started_view}
use so2_zeos.System.Shape.{nobody, facts, Facts, Shape, Sound, Dirs-frame}
use so2_zeos.System.Allocate.{given_view}

abbrev pub idle_view : View
idle_view = given_view 0 9 true started_view

abbrev pub running_view : View
running_view = given_view 1 8 true idle_view

-- where everything stands once the idle task and the first process are there
abbrev pub OwnRunning : View → Type 0
OwnRunning v =
    (a : Ptr)
    → (v.own a ≡ (
        if among (anchor 2) 8 a
        then free_queue
        else if among (dir_anchor 0) 8 a
        then free_dirs
        else null))
      × (v.is_head a ≡ (
          (leb free_queue a && leb a readyqueue)
          || (a == free_dirs)
          || (a == owned_semaphores 0)
          || (a == owned_semaphores 1)))

-- when one process has been made
abbrev pub OwnIdle : View → Type 0
OwnIdle v =
    (a : Ptr)
    → (v.own a ≡ (
        if among (anchor 1) 9 a
        then free_queue
        else if among (dir_anchor 0) 9 a
        then free_dirs
        else null))
      × (v.is_head a ≡ (
          (leb free_queue a && leb a readyqueue) || (a == free_dirs) || (a == owned_semaphores 0)))

pub own-idle_view : (v : View) → OwnAs v → OwnIdle (given_view 0 9 true v)
own-idle_view v own a = ground (arith, own a)

own_running : (v : View) → OwnIdle v → OwnRunning (given_view 1 8 true v)
own_running v own a = ground (arith, own a)

pub own-running_view : OwnRunning running_view
own-running_view = own_running idle_view (own-idle_view started_view own-started_view)

-- `init_list_head(&keyboardqueue)`
module _ (f : Facts) (v : View) (own : OwnRunning v) (sh : Shape nobody f v) where
  keyboard_opened : Shape nobody f (open_list keyboardqueue v)
  keyboard_opened = record {
    lists = λ h e. ground (arith, own h);
    nodes = sh.nodes;
    owned_only = sh.owned_only;
    used_head = λ n l u. ground (arith, sh.used_head n l u);
    used_owned = sh.used_owned;
    unused_loose = sh.unused_loose;
    unused_empty = sh.unused_empty;
    counted_empty = sh.counted_empty;
    owners = λ t l ne. ground (arith, sh.owners t l ne);
    fresh = sh.fresh;
    dirs_head = ground (arith, sh.dirs_head);
    dirs_only = sh.dirs_only;
    dirs = Dirs-frame f v (open_list keyboardqueue v) (λ t l. refl) (λ d l. refl) sh.dirs;
  }

-- The kernel with one process that runs, and the idle one.
module _ (k : Kernel) (v : View) (lists : Represents k.links v) (own : OwnRunning v)
    (shape : Shape nobody (facts k) v) (idle : k.idle_task ≡ 0) (current : k.current ≡ 1)
    (run : (k.tasks 1).state ≡ st_run)
    (free : (t : ℕ) → 2 ≤ t → t < nr_tasks → (k.tasks t).state ≡ st_invalid) where
  queued_free : (t : ℕ) → 2 ≤ t → t < nr_tasks → v.own (anchor t) ≡ free_queue
  queued_free t le l = ground (arith, own (anchor t))

  pub keyboard_ready : Sound (init_keyboard k) (open_list keyboardqueue v)
  unfolding init_keyboard
  keyboard_ready = record {
    consistent = record {
      queued = record {
        lists =
            init_list_head-open_list lists keyboardqueue (omega arith)
              (ground (arith, own keyboardqueue)) (λ a. ground (arith, own a));
        heads = ground (arith, own free_queue, own readyqueue);
        nodes = λ t l. ground (arith, own (anchor t));
        states = λ t l ne. elim (Bool-cases (t == 1)) [
          | inl first ↦
              let at : t ≡ 1 = ground arith in rw at (run ∙ ap state_in (sym (own (anchor 1)).0))
          | inr other ↦
              free t (ground (arith, idle)) l
              ∙ ap state_in (sym (queued_free t (ground (arith, idle)) l))
        ];
        idle = rw idle (omega arith, (own (anchor 0)).0);
        tasks_only = λ a e. ground (arith, own a);
      };
      on_cpu = rw current (omega arith, (own (anchor 1)).0);
      only = λ t l ne out. ground (arith, own (anchor t), idle, current);
    };
    keyboard = refl;
    shape = keyboard_opened (facts k) v own shape;
  }
