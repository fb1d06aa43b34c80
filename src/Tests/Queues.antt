-- ===== src/Tests/Queues.antt =====
-- sched.c and the semaphores: the theorems at the kernel of `Machine`.
use so2_zeos.Prelude.{ℕ, ◌≡◌, ◌≢◌, inr, refl, false, none, [], ◌∷◌, arith, pos}
use so2_zeos.Stats.{st_invalid}
use so2_zeos.LinkedList.Queues.{View}
use so2_zeos.Kernel.{Kernel, to_user}
use so2_zeos.Kernel.Addresses.{free_queue, readyqueue, anchor}
use so2_zeos.Scheduler.{update_process_state, sched_next_rr, execute_scheduling}
use so2_zeos.Scheduler.Consistent.{Queued, Consistent, moved, unlinked}
use so2_zeos.Scheduler.Moves.{update_process_state-Queued, update_process_state-moves}
use so2_zeos.Scheduler.Dispatch.{sched_next_rr-Consistent}
use so2_zeos.Scheduler.RoundRobin.{execute_scheduling-Consistent, rotated}
use so2_zeos.Scheduler.Fairness.{preemptions, preemptions-fair}
use so2_zeos.Semaphores.{sem_wait, sem_signal}
use so2_zeos.Semaphores.Calls.{blocked_view, sem_wait-blocks, sem_signal-wakes}
use so2_zeos.Tests.Machine.{kernel, view, kernel-Consistent, semaphore-InUse}

update_process_state-moves_example :
    let k' = update_process_state 1 free_queue false kernel in
    Queued k' (moved (anchor 1) free_queue false view)
    × ((k'.tasks 1).state ≡ st_invalid)
    × ((u : ℕ) → u ≢ 1 → k'.tasks u ≡ kernel.tasks u)
update_process_state-moves_example =
    update_process_state-moves 1 free_queue false kernel view kernel-Consistent.queued (omega arith)
      (inr (record { head = refl; queue = refl }, omega arith))

-- the running process has been put into the free queue
abbrev exiting : Kernel
exiting = update_process_state 1 free_queue false kernel

abbrev exiting_view : View
exiting_view = moved (anchor 1) free_queue false view

sched_next_rr-Consistent_example :
    Consistent (sched_next_rr to_user exiting) (unlinked (anchor 2) exiting_view)
    × ((sched_next_rr to_user exiting).current ≡ 2)
    × ((sched_next_rr to_user exiting).current_ticks ≡ 0)
    × ((sched_next_rr to_user exiting).hung ≡ exiting.hung)
    × ((sched_next_rr to_user exiting).esp0 ≡ 2)
unfolding update_process_state
sched_next_rr-Consistent_example =
    sched_next_rr-Consistent to_user exiting exiting_view
      (update_process_state-Queued 1 free_queue false kernel view kernel-Consistent.queued
        (omega arith) (inr (record { head = refl; queue = refl }, omega arith)))
      (λ t h ne. ground arith)

-- task 1 is at the end of its quantum, and task 2 is the first that is ready
execute_scheduling-Consistent_example :
    Consistent (execute_scheduling kernel) (rotated kernel view)
    × ((execute_scheduling kernel).current ≡ 2)
    × ((execute_scheduling kernel).hung ≡ false)
execute_scheduling-Consistent_example = execute_scheduling-Consistent kernel view kernel-Consistent

preemptions-fair_example : (preemptions 2 kernel).current ≡ 3
preemptions-fair_example =
    preemptions-fair (anchor 2 ∷ []) [] 3 kernel view kernel-Consistent (omega arith) refl

sem_wait-blocks_example :
    ((sem_wait (pos 0) kernel).1 ≡ none)
    × Consistent (sem_wait (pos 0) kernel).0 (unlinked (anchor 2) (blocked_view 0 kernel view))
    × ((sem_wait (pos 0) kernel).0.current ≡ 2)
sem_wait-blocks_example =
    sem_wait-blocks 0 kernel view kernel-Consistent semaphore-InUse (omega arith) refl

sem_signal-wakes_example :
    ((sem_signal (pos 0) kernel).1 ≡ pos 0)
    × Consistent (sem_signal (pos 0) kernel).0 (moved (anchor 4) readyqueue false view)
    × ((sem_signal (pos 0) kernel).0.semaphores ≡ kernel.semaphores)
    × ((sem_signal (pos 0) kernel).0.hung ≡ kernel.hung)
sem_signal-wakes_example =
    sem_signal-wakes 0 kernel view (anchor 4) [] kernel-Consistent semaphore-InUse refl

-- at the end of the quantum of task 1 it is the last that is ready
quantum_ends : (rotated kernel view).items readyqueue ≡ 103 ∷ 101 ∷ []
quantum_ends = refl
