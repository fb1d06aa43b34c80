-- ===== src/System/Exit.antt =====
-- `sys_exit` keeps the invariant, and its loop over semaphores ends.
use so2_zeos.Prelude.{ℕ, ◌≤◌, ◌<◌, ◌≡◌, ◌≢◌, ◌∙◌, ap, true, arith}
use so2_zeos.Stats.{st_invalid}
use so2_zeos.LinkedList.Queues.{View}
use so2_zeos.Kernel.{exited, Kernel, nr_semaphores}
use so2_zeos.Kernel.Addresses.{free_queue, readyqueue, anchor, sem_anchor, owned_semaphores}
use so2_zeos.Scheduler.{state_in, update_process_state_rr}
use so2_zeos.Scheduler.Consistent.{unlinked, first_ready}
use so2_zeos.Semaphores.{destroy_from}
use so2_zeos.Directories.{free_dir}
use so2_zeos.Processes.{free_process, sys_exit}
use so2_zeos.System.Shape.{Sound}
use so2_zeos.System.Moves.{switch-Sound, first_ready-not_free}
use so2_zeos.System.Interrupts.{Keeps}
use so2_zeos.System.Dropped.{free_dir-Dropping}
use so2_zeos.System.Cleaning.{free_semaphores-clean, free_semaphores-ends}

module _ (k : Kernel) (v : View) (s : Sound k v) (busy : k.current ≢ k.idle_task) where
  -- When a process other than the idle one exits, the invariant holds again and nothing hangs; its
  -- task is in the free queue, its state is ST_INVALID, no semaphore in use is its own, and another
  -- process runs.
  pub sys_exit-frees :
      let k' = sys_exit k in
      (v' : View) × Sound k' v'
      × (k'.hung ≡ k.hung)
      × (v'.own (anchor k.current) ≡ free_queue)
      × ((k'.tasks k.current).state ≡ st_invalid)
      × ((n : ℕ)
          → n < nr_semaphores
          → (k'.semaphores n).used ≡ true
          → (k'.semaphores n).owner ≢ k.current)
      × (k'.current ≢ k.current)
  unfolding sys_exit free_process
  sys_exit-frees =
      let k1 = free_dir k.current (update_process_state_rr k.current free_queue k) in
      let cpu = s.consistent.on_cpu in
      let (v1, dropping, hung1, idle1) = free_dir-Dropping k v s busy in
      let (v2, queued, shape, keyboard, free, wait, hung2, idle2) =
        free_semaphores-clean k.current cpu.0 k1 v1 dropping in
      let k2 = free_process k.current k in
      let next = first_ready (v2.items readyqueue) k2.idle_task in
      let r = switch-Sound exited k2 v2 queued wait keyboard shape in
      let v3 = unlinked (anchor next) v2 in
      let other : next ≢ k.current =
        λ e. first_ready-not_free k2 v2 queued (ap (λ t. v2.own (anchor t)) e ∙ free) in
      let out : v3.own (anchor k.current) ≡ free_queue = ground (arith, free, other) in
      let c = r.0.consistent in
      let waits : k.current ≢ (sys_exit k).idle_task =
        λ e. ground (arith, ap (λ t. v3.own (anchor t)) e, c.queued.idle.1, out) in
      (
        v3,
        r.0,
        r.1 ∙ hung2 ∙ hung1,
        out,
        c.queued.states k.current cpu.0 waits ∙ ap state_in out,
        λ n l u e.
            let o = r.0.shape.used_owned n l u in
            r.0.shape.fresh k.current cpu.0 (omega (arith, cpu)) out (sem_anchor n)
              (o.0 ∙ ap owned_semaphores e),
        λ e. ground (arith, ap (λ t. v3.own (anchor t)) e, c.on_cpu.1, out),
      )

  pub sys_exit-Keeps : Keeps k (sys_exit k)
  sys_exit-Keeps = let r = sys_exit-frees in ((r.0, r.1), r.2)

-- When a process other than the idle one exits where the invariant holds, the loop that destroys its
-- semaphores sees the head of the list again within 21 rounds: with that fuel or more it does not run
-- out, which would set `hung`, and more fuel gives the same kernel.
pub sys_exit-ends :
    (k : Kernel) (v : View) (rounds : ℕ)
    → Sound k v
    → k.current ≢ k.idle_task
    → 21 ≤ rounds
    → let k1 = free_dir k.current (update_process_state_rr k.current free_queue k) in
      let head = owned_semaphores k.current in
      ((destroy_from rounds head (k1.links.next head) k1).hung ≡ k.hung)
      × (destroy_from rounds head (k1.links.next head) k1
          ≡ destroy_from 21 head (k1.links.next head) k1)
sys_exit-ends k v rounds s busy enough =
    let k1 = free_dir k.current (update_process_state_rr k.current free_queue k) in
    let d = free_dir-Dropping k v s busy in
    let e = free_semaphores-ends k.current s.consistent.on_cpu.0 k1 d.0 d.1 rounds enough in
    (e.0 ∙ d.2, e.1)
