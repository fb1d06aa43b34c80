-- ===== src/Tests/Machine.antt =====
-- A kernel with ten tasks: 0 is the idle task, 1 runs, 2 and 3 are ready, 4 waits on semaphore 0,
-- 5 for the keyboard, and 6 to 9 are free.
use so2_zeos.Prelude.{◌+◌, refl, false, none, arith, ◌==◌, pos}
use so2_zeos.LinkedList.{Links, init_list_head, list_add_tail}
use so2_zeos.LinkedList.Queues.{View, Represents, enqueue, open_list}
use so2_zeos.LinkedList.Queues.Insert.{list_add_tail-enqueue}
use so2_zeos.LinkedList.Queues.Open.{init_list_head-open_list}
use so2_zeos.Stats.{Stats}
use so2_zeos.Memory.{Memory, no_entry}
use so2_zeos.Kernel.{Kernel, Keyboard, to_user, default_quantum}
use so2_zeos.Kernel.Addresses.{free_queue, readyqueue, keyboardqueue, sem_blocked, anchor}
use so2_zeos.Scheduler.{state_in}
use so2_zeos.Scheduler.Consistent.{Queued, Consistent}
use so2_zeos.Boot.Lists.{no_lists, no_links, no_lists-Represents}
use so2_zeos.Semaphores.Calls.{InUse}

abbrev pub heads_links : Links
heads_links =
    init_list_head (sem_blocked 0) (
      init_list_head keyboardqueue (init_list_head readyqueue (init_list_head free_queue no_links)))

abbrev pub heads : View
heads =
    open_list (sem_blocked 0)
      (open_list keyboardqueue (open_list readyqueue (open_list free_queue no_lists)))

pub heads-Represents : Represents heads_links heads
heads-Represents =
    let r1 =
      init_list_head-open_list no_lists-Represents free_queue (omega arith) refl
        (λ a. omega arith) in
    let r2 = init_list_head-open_list r1 readyqueue (omega arith) refl (λ a. omega arith) in
    let r3 = init_list_head-open_list r2 keyboardqueue (omega arith) refl (λ a. omega arith) in
    init_list_head-open_list r3 (sem_blocked 0) (omega arith) refl (λ a. omega arith)

abbrev pub waiting_links : Links
waiting_links = list_add_tail (anchor 5) keyboardqueue (
    list_add_tail (anchor 4) (sem_blocked 0)
      (list_add_tail (anchor 3) readyqueue (list_add_tail (anchor 2) readyqueue heads_links)))

abbrev pub waiting : View
waiting = enqueue (anchor 5) keyboardqueue (
    enqueue (anchor 4) (sem_blocked 0)
      (enqueue (anchor 3) readyqueue (enqueue (anchor 2) readyqueue heads)))

waiting-Represents : Represents waiting_links waiting
waiting-Represents =
    let r2 =
      list_add_tail-enqueue heads-Represents {a = anchor 2} {h = readyqueue}
        (record { head = refl; node = refl; real = omega arith; free = refl }) in
    let r3 =
      list_add_tail-enqueue r2 {a = anchor 3} {h = readyqueue}
        (record { head = refl; node = refl; real = omega arith; free = refl }) in
    let r4 =
      list_add_tail-enqueue r3 {a = anchor 4} {h = sem_blocked 0}
        (record { head = refl; node = refl; real = omega arith; free = refl }) in
    list_add_tail-enqueue r4 {a = anchor 5} {h = keyboardqueue}
      (record { head = refl; node = refl; real = omega arith; free = refl })

abbrev pub links : Links
links = list_add_tail (anchor 9) free_queue (
    list_add_tail (anchor 8) free_queue
      (list_add_tail (anchor 7) free_queue (list_add_tail (anchor 6) free_queue waiting_links)))

abbrev pub view : View
view = enqueue (anchor 9) free_queue (
    enqueue (anchor 8) free_queue
      (enqueue (anchor 7) free_queue (enqueue (anchor 6) free_queue waiting)))

pub view-Represents : Represents links view
view-Represents =
    let r6 =
      list_add_tail-enqueue waiting-Represents {a = anchor 6} {h = free_queue}
        (record { head = refl; node = refl; real = omega arith; free = refl }) in
    let r7 =
      list_add_tail-enqueue r6 {a = anchor 7} {h = free_queue}
        (record { head = refl; node = refl; real = omega arith; free = refl }) in
    let r8 =
      list_add_tail-enqueue r7 {a = anchor 8} {h = free_queue}
        (record { head = refl; node = refl; real = omega arith; free = refl }) in
    list_add_tail-enqueue r8 {a = anchor 9} {h = free_queue}
      (record { head = refl; node = refl; real = omega arith; free = refl })

abbrev pub no_ticks : Stats
no_ticks = record {
  user_ticks = 0;
  system_ticks = 0;
  blocked_ticks = 0;
  ready_ticks = 0;
  elapsed_total_ticks = 0;
  total_trans = 0;
  remaining_ticks = 0;
}

abbrev pub memory : Memory
memory = record {
  phys_mem = λ f. 0;
  cow_count_mem = λ f. 0;
  page_table = λ d p. no_entry;
  dir_count = λ d. 0;
  frame_data = λ f o. f;
}

abbrev pub keyboard : Keyboard
keyboard = record { buffer = λ i. 65 + i; buff_from = 8; buff_to = 1; remaining_to_read = pos 2 }

abbrev pub kernel : Kernel
kernel = record {
  links = links;
  tasks = λ t. record {
    pid = t;
    state = state_in (view.own (anchor t));
    quantum = default_quantum;
    st = no_ticks;
    sem_deleted = false;
    dir = none;
    heap_top = 0x1fffff;
    context = to_user;
  };
  semaphores = λ n. record { used = n == 0; count = 0; owner = 1 };
  last_pid = 10;
  current_ticks = 99;
  zeos_ticks = 500;
  current = 1;
  idle_task = 0;
  keyboard = keyboard;
  mem = memory;
  tsc = λ n. (0, n);
  readings = 0;
  esp0 = 1;
  hung = false;
  halted = false;
}

kernel-Queued : Queued kernel view
kernel-Queued = record {
  lists = view-Represents;
  heads = (refl, refl);
  nodes = λ t h. ground arith;
  states = λ t h ne. refl;
  idle = (omega arith, refl);
  tasks_only = λ a h. ground arith;
}

pub kernel-Consistent : Consistent kernel view
kernel-Consistent = record {
  queued = kernel-Queued;
  on_cpu = (omega arith, refl);
  only = λ t h ne free. ground arith;
}

pub semaphore-InUse : InUse 0 kernel view
semaphore-InUse = record { range = omega arith; used = refl; head = refl }
