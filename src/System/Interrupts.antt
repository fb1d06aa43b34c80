-- ===== src/System/Interrupts.antt =====
-- The interrupts of the clock and of the keyboard keep the invariant.
use so2_zeos.Prelude.{◌+◌, ◌≡◌, inl, inr, refl, ◌∙◌, false, ◌==◌, arith, Bool-cases}
use so2_zeos.LinkedList.Queues.{View}
use so2_zeos.Stats.{sys_to_ready, current_ticks_updated}
use so2_zeos.Kernel.{to_user, Kernel, nr_tasks}
use so2_zeos.Kernel
use so2_zeos.Kernel.Addresses.{readyqueue}
use so2_zeos.Scheduler.{
  update_process_state_rr, preempt, update_sched_data_rr, needs_sched_rr, execute_scheduling,
  clock_routine, is_running,
}
use so2_zeos.Scheduler.Frames.{update_stats-SameKernel, hung-update_stats}
use so2_zeos.System.Shape.{facts, Sound, ready-Place}
use so2_zeos.System.Moves.{IsSound, Sound-same, update_stats-Sound, switch-Sound, leave-Sound}

-- The invariant after a step that hangs nothing.
abbrev pub Keeps : Kernel → Kernel → Type 0
Keeps k k' = IsSound k' × (k'.hung ≡ k.hung)

pub Keeps-trans : (k k' k'' : Kernel) → k'.hung ≡ k.hung → Keeps k' k'' → Keeps k k''
Keeps-trans k k' k'' e s = (s.0, s.1 ∙ e)

update_sched_data_rr-Sound :
    (k : Kernel) (v : View)
    → Sound k v
    → Sound (update_sched_data_rr k) v × ((update_sched_data_rr k).hung ≡ k.hung)
unfolding update_sched_data_rr
update_sched_data_rr-Sound k v s =
    let k1 = record k { current_ticks = k.current_ticks + 1 } in
    (
      update_stats-Sound k.current current_ticks_updated k1 v
          (Sound-same k k1 v s refl (λ t. refl) refl refl refl),
      hung-update_stats k.current current_ticks_updated k1 (λ e. cc),
    )

preempt-Keeps : (k : Kernel) (v : View) → Sound k v → Keeps k (preempt k)
unfolding preempt update_process_state_rr
preempt-Keeps k v s = elim (Bool-cases (k.current == k.idle_task)) [
  | inl idle ↦
      let e : k.current ≡ k.idle_task = ground arith in
      let k1 = Kernel.update_stats k.current sys_to_ready k in
      let same = update_stats-SameKernel k.current sys_to_ready k in
      let s1 = update_stats-Sound k.current sys_to_ready k v s in
      let r =
        switch-Sound to_user k1 v s1.consistent.queued
          (λ t l n out. ground (arith, s1.consistent.only t l n out, same.current, same.idle_task))
          s1.keyboard s1.shape in
      rw idle ((_, r.0), r.1 ∙ hung-update_stats k.current sys_to_ready k (λ d. cc))
  | inr busy ↦ rw busy (
      leave-Sound readyqueue false sys_to_ready to_user k v s (ground arith)
        (record { head = s.consistent.queued.heads.1; queue = refl }) (ready-Place (facts k))
        (λ d. cc))
]

execute_scheduling-Keeps : (k : Kernel) (v : View) → Sound k v → Keeps k (execute_scheduling k)
unfolding execute_scheduling
execute_scheduling-Keeps k v s =
    let u = update_sched_data_rr-Sound k v s in
    elim (Bool-cases (needs_sched_rr (update_sched_data_rr k))) [
      | inl e ↦ rw e (
          Keeps-trans k (update_sched_data_rr k) _ u.1
            (preempt-Keeps (update_sched_data_rr k) v u.0))
      | inr e ↦ rw e ((v, u.0), u.1)
    ]

pub clock_routine-Keeps : (k : Kernel) (v : View) → Sound k v → Keeps k (clock_routine k)
unfolding clock_routine
clock_routine-Keeps k v s = elim (Bool-cases (is_running (k.tasks k.current).state)) [
  | inl e ↦
      let k1 = record k { zeos_ticks = k.zeos_ticks + 1 } in
      rw e (execute_scheduling-Keeps k1 v (Sound-same k k1 v s refl (λ t. refl) refl refl refl))
  | inr e ↦ rw e ((v, s), refl)
]
