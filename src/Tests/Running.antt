-- ===== src/Tests/Running.antt =====
-- The kernel from its start on: what holds after `main`, when a process exits, and after steps.
use so2_zeos.Prelude.{ℕ, ◌+◌, ◌*◌, ◌<◌, ◌≡◌, ◌≢◌, refl, true, false, pos, arith}
use so2_zeos.LinkedList.Queues.{View, open_list}
use so2_zeos.Stats.{st_invalid}
use so2_zeos.Kernel.{Kernel, nr_semaphores}
use so2_zeos.Kernel.Addresses.{free_queue, keyboardqueue, anchor, owned_semaphores}
use so2_zeos.Scheduler.{clock_routine, update_process_state_rr}
use so2_zeos.Keyboard.{keyboard_routine}
use so2_zeos.Semaphores.{sem_init, destroy_from}
use so2_zeos.Directories.{free_dir}
use so2_zeos.Faults.{pf_rsi}
use so2_zeos.Processes.{sys_exit, sys_fork, sys_clone}
use so2_zeos.Segments.{set_tss}
use so2_zeos.Boot.{boot}
use so2_zeos.Boot.Lists.{no_links}
use so2_zeos.Boot.Views.{running_view}
use so2_zeos.Boot.Booted.{boot-Sound, boot-busy}
use so2_zeos.System.Shape.{Sound}
use so2_zeos.System.Moves.{IsSound}
use so2_zeos.System.Exit.{sys_exit-frees, sys_exit-ends}
use so2_zeos.System.Steps.{here, next, init, key, exit, clock, fork, clone, fault, Reach-Sound}
use so2_zeos.System.Observed.{Observed, boot-Reach}
use so2_zeos.Main.{Machine, Layout}
use so2_zeos.Tests.Machine.{kernel}

-- a machine that is off: the lists are zero
abbrev off : Kernel
off = record kernel { links = no_links }

abbrev booted : Kernel
booted = boot 16 24 off

-- with a table of gates and one of segments that are all the same
abbrev machine : Machine
machine = record {
  kernel = off;
  gdt = λ n. record {
    limit = 104;
    low_base = 0;
    mid_base = 0;
    flags1 = 0x89;
    flags2 = 0;
    high_base = 0;
  };
  gdt_register = record { limit = 0x8000; base = 0x901b3 };
  idt = λ n. record { low_offset = 0; segment_selector = 0; flags = 0; high_offset = 0 };
  idt_register = record { limit = 0; base = 0 };
  tss = (set_tss 0).0;
  task_register = 0;
}

abbrev layout : Layout
layout = record {
  entries = record {
    pf_handler = 0x10100;
    clock_handler = 0x10200;
    keyboard_handler = 0x10300;
    system_call_handler = 0x10400;
    idt_address = 0x20000;
  };
  tss = 0x21000;
  kernel_esp = λ t. 0x13000 + 0x1000 * t;
  low = 16;
  high = 24;
}

sys_exit-frees_example :
    let k' = sys_exit booted in
    (v' : View) × Sound k' v'
    × (k'.hung ≡ booted.hung)
    × (v'.own (anchor booted.current) ≡ free_queue)
    × ((k'.tasks booted.current).state ≡ st_invalid)
    × ((n : ℕ)
        → n < nr_semaphores
        → (k'.semaphores n).used ≡ true
        → (k'.semaphores n).owner ≢ booted.current)
    × (k'.current ≢ booted.current)
sys_exit-frees_example =
    sys_exit-frees booted (open_list keyboardqueue running_view) (boot-Sound 16 24 off refl).0
      (boot-busy 16 24 off refl)

sys_exit-ends_example :
    let k1 = free_dir booted.current (update_process_state_rr booted.current free_queue booted) in
    let head = owned_semaphores booted.current in
    ((destroy_from 1000 head (k1.links.next head) k1).hung ≡ booted.hung)
    × (destroy_from 1000 head (k1.links.next head) k1
        ≡ destroy_from 21 head (k1.links.next head) k1)
sys_exit-ends_example =
    sys_exit-ends booted (open_list keyboardqueue running_view) 1000 (boot-Sound 16 24 off refl).0
      (boot-busy 16 24 off refl) (omega arith)

-- the first process forks, makes a thread, writes to a page of its data and opens a semaphore, and
-- the clock ticks
Reach-Sound_example :
    let k1 = (sys_fork booted).0 in
    let k2 = pf_rsi 0x108000 (sys_clone 0x100000 0x11c000 0 k1).0 in
    IsSound (clock_routine (sem_init (pos 0) 1 k2).0)
    × ((clock_routine (sem_init (pos 0) 1 k2).0).hung ≡ booted.hung)
Reach-Sound_example =
    Reach-Sound (open_list keyboardqueue running_view) (boot-Sound 16 24 off refl).0 (
      next
        (next (next (next (next here fork) (clone 0x100000 0x11c000 0)) (fault 0x108000))
          (init (pos 0) 1))
        clock)

-- the first process exits, the clock ticks for the idle one, and a key is typed
boot-Reach_example :
    let k' = keyboard_routine 0x1e (clock_routine (sys_exit booted)) in
    Observed k' × (k'.hung ≡ false)
boot-Reach_example =
    boot-Reach 16 24 off refl
      (next (next (next here (exit (boot-busy 16 24 off refl))) clock) (key 0x1e))
