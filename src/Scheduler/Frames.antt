-- ===== src/Scheduler/Frames.antt =====
-- What the operations of the scheduler leave alone.
use so2_zeos.Prelude.{ℕ, ◌≡◌, ◌≢◌, ◌⊎◌, inl, inr, refl, arith, Bool, Option, none, some}
use so2_zeos.LinkedList.{Ptr}
use so2_zeos.Stats
use so2_zeos.Stats.{Event, refresh, update_stats, st_ready, st_blocked}
use so2_zeos.Stats.Accounting.{update_stats-eq-none_iff}
use so2_zeos.Kernel
use so2_zeos.Kernel.{Kernel, Task, put_stats, ticks_now}
use so2_zeos.Scheduler.{update_process_state}

-- all of a task but its statistics
pub record SameTask (x y : Task) : Type 0 where
  pub pid : x.pid ≡ y.pid
  pub state : x.state ≡ y.state
  pub quantum : x.quantum ≡ y.quantum
  pub sem_deleted : x.sem_deleted ≡ y.sem_deleted
  pub dir : x.dir ≡ y.dir
  pub heap_top : x.heap_top ≡ y.heap_top
  pub context : x.context ≡ y.context

-- all of the kernel but statistics, the number of clock readings, and whether it hangs
pub record SameKernel (k k' : Kernel) : Type 0 where
  pub links : k'.links ≡ k.links
  pub tasks : (t : ℕ) → SameTask (k'.tasks t) (k.tasks t)
  pub semaphores : k'.semaphores ≡ k.semaphores
  pub last_pid : k'.last_pid ≡ k.last_pid
  pub current_ticks : k'.current_ticks ≡ k.current_ticks
  pub zeos_ticks : k'.zeos_ticks ≡ k.zeos_ticks
  pub current : k'.current ≡ k.current
  pub idle_task : k'.idle_task ≡ k.idle_task
  pub keyboard : k'.keyboard ≡ k.keyboard
  pub mem : k'.mem ≡ k.mem
  pub esp0 : k'.esp0 ≡ k.esp0
  pub halted : k'.halted ≡ k.halted

SameTask-refl : (x : Task) → SameTask x x
SameTask-refl x = ground arith

put_stats-SameKernel :
    (t n : ℕ) (s : Option Stats.Stats) (k : Kernel)
    → SameKernel k (put_stats t s (record k { readings = n }))
put_stats-SameKernel t n none k = record {
  links = refl;
  tasks = λ u. SameTask-refl (k.tasks u);
  semaphores = refl;
  last_pid = refl;
  current_ticks = refl;
  zeos_ticks = refl;
  current = refl;
  idle_task = refl;
  keyboard = refl;
  mem = refl;
  esp0 = refl;
  halted = refl;
}
put_stats-SameKernel t n (some s) k = record {
  links = refl;
  tasks = λ u. ground arith;
  semaphores = refl;
  last_pid = refl;
  current_ticks = refl;
  zeos_ticks = refl;
  current = refl;
  idle_task = refl;
  keyboard = refl;
  mem = refl;
  esp0 = refl;
  halted = refl;
}

-- `update_stats` changes statistics only.
pub update_stats-SameKernel :
    (t : ℕ) (e : Event) (k : Kernel) → SameKernel k (Kernel.update_stats t e k)
unfolding Kernel.update_stats
update_stats-SameKernel t e k = put_stats-SameKernel t _ _ k

hung-put_stats :
    (t : ℕ) (s : Option Stats.Stats) (k : Kernel) → s ≢ none → (put_stats t s k).hung ≡ k.hung
hung-put_stats t none k ne = absurd (ne refl)
hung-put_stats t (some s) k ne = refl

-- It hangs on no event but REFRESH.
pub hung-update_stats :
    (t : ℕ) (e : Event) (k : Kernel) → e ≢ refresh → (Kernel.update_stats t e k).hung ≡ k.hung
unfolding Kernel.update_stats
hung-update_stats t e k ne =
    hung-put_stats t _ _ (λ stuck. ne ((update_stats-eq-none_iff e _ _ _ _ _).0 stuck).0)

-- Nor on REFRESH of a process that is ready or blocked.
pub hung-update_stats_waiting :
    (t : ℕ) (e : Event) (k : Kernel)
    → ((k.tasks t).state ≡ st_ready) ⊎ ((k.tasks t).state ≡ st_blocked)
    → (Kernel.update_stats t e k).hung ≡ k.hung
unfolding Kernel.update_stats
hung-update_stats_waiting t e k waits = hung-put_stats t _ _ (λ stuck.
    let n = (update_stats-eq-none_iff e _ _ _ _ _).0 stuck in
    elim waits [ inl r ↦ n.1 r | inr b ↦ n.2 b ])

-- `update_process_state` changes the links and the state of its task only.
pub record SameBut (t : ℕ) (k k' : Kernel) : Type 0 where
  pub tasks : (u : ℕ) → u ≢ t → k'.tasks u ≡ k.tasks u
  pub pid : (k'.tasks t).pid ≡ (k.tasks t).pid
  pub quantum : (k'.tasks t).quantum ≡ (k.tasks t).quantum
  pub dir : (k'.tasks t).dir ≡ (k.tasks t).dir
  pub heap_top : (k'.tasks t).heap_top ≡ (k.tasks t).heap_top
  pub context : (k'.tasks t).context ≡ (k.tasks t).context
  pub sem_deleted : (k'.tasks t).sem_deleted ≡ (k.tasks t).sem_deleted
  pub semaphores : k'.semaphores ≡ k.semaphores
  pub last_pid : k'.last_pid ≡ k.last_pid
  pub current_ticks : k'.current_ticks ≡ k.current_ticks
  pub current : k'.current ≡ k.current
  pub idle_task : k'.idle_task ≡ k.idle_task
  pub keyboard : k'.keyboard ≡ k.keyboard
  pub mem : k'.mem ≡ k.mem
  pub hung : k'.hung ≡ k.hung
  pub halted : k'.halted ≡ k.halted

pub update_process_state-SameBut :
    (t : ℕ) (dest : Ptr) (first : Bool) (k : Kernel)
    → SameBut t k (update_process_state t dest first k)
unfolding update_process_state
update_process_state-SameBut t dest first k = record {
  tasks = λ u ne. ground arith;
  pid = ground arith;
  quantum = ground arith;
  dir = ground arith;
  heap_top = ground arith;
  context = ground arith;
  sem_deleted = ground arith;
  semaphores = ground arith;
  last_pid = ground arith;
  current_ticks = ground arith;
  current = ground arith;
  idle_task = ground arith;
  keyboard = ground arith;
  mem = ground arith;
  hung = ground arith;
  halted = ground arith;
}
