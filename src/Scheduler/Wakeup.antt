-- ===== src/Scheduler/Wakeup.antt =====
-- `add_process_to_scheduling` makes a waiting process ready.
use so2_zeos.Prelude.{ℕ, ◌<◌, ◌≡◌, ◌≢◌, inl, inr, refl, ◌∙◌, Bool, ◌==◌, Bool-cases, arith, ap}
use so2_zeos.LinkedList.{null}
use so2_zeos.LinkedList.Queues.{View}
use so2_zeos.Kernel.{Kernel, nr_tasks}
use so2_zeos.Stats.{Event, refresh}
use so2_zeos.Kernel.Addresses.{readyqueue, anchor}
use so2_zeos.Scheduler.{update_process_state, add_process_to_scheduling}
use so2_zeos.Scheduler.Frames.{
  update_process_state-SameBut, update_stats-SameKernel, hung-update_stats,
}
use so2_zeos.Scheduler.Consistent.{Queued, Placed, Consistent, Consistent-Placed, moved}
use so2_zeos.Scheduler.Moves.{update_process_state-Queued, Destination}
use so2_zeos.Scheduler.Dispatch.{update_stats-Queued}

ready-Destination : {k : Kernel} {v : View} → Queued k v → Destination v readyqueue
ready-Destination q = record { head = q.heads.1; queue = refl }

module _ (t : ℕ) (e : Event) (first : Bool) (k : Kernel) where
  pub add_process_to_scheduling-Queued :
      (v : View)
      → Queued k v
      → t < nr_tasks
      → t ≢ k.idle_task
      → Queued (add_process_to_scheduling t e first k) (moved (anchor t) readyqueue first v)
  unfolding add_process_to_scheduling
  add_process_to_scheduling-Queued v q lt ne =
      update_stats-Queued t e (update_process_state t readyqueue first k)
        (moved (anchor t) readyqueue first v)
        (update_process_state-Queued t readyqueue first k v q lt (inr (ready-Destination q, ne)))

  pub record Kept : Type 0 where
    pub semaphores : (add_process_to_scheduling t e first k).semaphores ≡ k.semaphores
    pub current : (add_process_to_scheduling t e first k).current ≡ k.current
    pub idle_task : (add_process_to_scheduling t e first k).idle_task ≡ k.idle_task
    pub keyboard : (add_process_to_scheduling t e first k).keyboard ≡ k.keyboard
    pub dirs : (u : ℕ) → ((add_process_to_scheduling t e first k).tasks u).dir ≡ (k.tasks u).dir
    pub counts : (add_process_to_scheduling t e first k).mem.dir_count ≡ k.mem.dir_count

  pub add_process_to_scheduling-Kept : Kept
  unfolding add_process_to_scheduling
  add_process_to_scheduling-Kept =
      let k1 = update_process_state t readyqueue first k in
      let s1 = update_process_state-SameBut t readyqueue first k in
      let s2 = update_stats-SameKernel t e k1 in
      record {
        semaphores = s2.semaphores ∙ s1.semaphores;
        current = s2.current ∙ s1.current;
        idle_task = s2.idle_task ∙ s1.idle_task;
        keyboard = s2.keyboard ∙ s1.keyboard;
        dirs = λ u. (s2.tasks u).dir ∙ (elim (Bool-cases (u == t)) [
          | inl at ↦ let here : u ≡ t = ground arith in rw here s1.dir
          | inr other ↦ ap (λ x. x.dir) (s1.tasks u (ground arith))
        ]);
        counts = ap (λ m. m.dir_count) (s2.mem ∙ s1.mem);
      }

  pub hung-add_process_to_scheduling :
      e ≢ refresh → (add_process_to_scheduling t e first k).hung ≡ k.hung
  unfolding add_process_to_scheduling
  hung-add_process_to_scheduling ne =
      hung-update_stats t e (update_process_state t readyqueue first k) ne
      ∙ (update_process_state-SameBut t readyqueue first k).hung

  -- A process that waits in a queue can be made ready.
  pub add_process_to_scheduling-Placed :
      (v : View)
      → Placed k v
      → t < nr_tasks
      → v.own (anchor t) ≢ null
      → Placed (add_process_to_scheduling t e first k) (moved (anchor t) readyqueue first v)
  add_process_to_scheduling-Placed v c lt waits =
      let s = add_process_to_scheduling-Kept in
      let idle : t ≢ k.idle_task =
        λ same. waits (ap (λ u. v.own (anchor u)) same ∙ c.queued.idle.1) in
      record {
        queued = add_process_to_scheduling-Queued v c.queued lt idle;
        only = λ u h ne out. ground (arith, c.only u h, s.current, s.idle_task);
      }

  -- Who runs stays.
  pub add_process_to_scheduling-Consistent :
      (v : View)
      → Consistent k v
      → t < nr_tasks
      → v.own (anchor t) ≢ null
      → Consistent (add_process_to_scheduling t e first k) (moved (anchor t) readyqueue first v)
  add_process_to_scheduling-Consistent v c lt waits =
      let s = add_process_to_scheduling-Kept in
      let p = add_process_to_scheduling-Placed v (Consistent-Placed c) lt waits in
      let busy : t ≢ k.current = λ same. waits (ap (λ u. v.own (anchor u)) same ∙ c.on_cpu.1) in
      record {
        queued = p.queued;
        only = p.only;
        on_cpu = (rw s.current c.on_cpu.0, rw s.current (ground (arith, c.on_cpu)));
      }
