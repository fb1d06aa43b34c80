-- ===== src/System/Reads.antt =====
-- The reads of the keyboard, and the calls that move nobody, keep the invariant.
use so2_zeos.Prelude.{
  ℕ, ◌+◌, ◌-◌, ◌≢◌, ◌∙◌, sym, ap, inl, inr, refl, Bool, true, false, not, ◌||◌, ◌==◌, ltb, arith,
  Bool-cases, List, [], ◌++◌, length, ℤ, pos, negsuc, is_neg,
}
use so2_zeos.LinkedList.{list_empty}
use so2_zeos.LinkedList.Queues.{View}
use so2_zeos.Stats.{Event, sys_to_blocked, refresh, quantum_updated}
use so2_zeos.Kernel.{Context, in_read, Kernel, set_task}
use so2_zeos.Kernel
use so2_zeos.Kernel.Addresses.{keyboardqueue}
use so2_zeos.Scheduler.{set_quantum}
use so2_zeos.Scheduler.Frames.{hung-update_stats}
use so2_zeos.Keyboard.{
  block_in_read, read_from_keyboard_buffer, read_step, read_on, sys_read_keyboard,
}
use so2_zeos.Semaphores.{resume_sem_wait}
use so2_zeos.Faults.{pf_rsi, store_bytes}
use so2_zeos.Faults.Stores.{SameButMem, pf_rsi-SameButMem, store_bytes-SameButMem}
use so2_zeos.AccessOk.{access_ok, verify_write}
use so2_zeos.Calls.{read_checked, sys_read}
use so2_zeos.Console.{check_fd, read_operation}
use so2_zeos.System.Shape.{facts, facts-eq, Sound, keyboard-Place}
use so2_zeos.System.Moves.{Sound-same, update_stats-Sound, leave-Sound}
use so2_zeos.System.Interrupts.{Keeps}

block_in_read-Keeps :
    (first : Bool) (ctx : Context) (k : Kernel) (v : View)
    → Sound k v
    → k.current ≢ k.idle_task
    → Keeps k (block_in_read first ctx k)
unfolding block_in_read
block_in_read-Keeps first ctx k v s busy =
    leave-Sound keyboardqueue first sys_to_blocked ctx k v s busy
      (record { head = s.keyboard; queue = refl }) (keyboard-Place (facts k)) (λ e. cc)

read_step-Keeps :
    (buffer total size : ℕ) (got : List ℕ) (k : Kernel) (v : View)
    → Sound k v
    → k.current ≢ k.idle_task
    → Keeps k (read_step buffer total size got k).0
unfolding read_step
read_step-Keeps buffer total size got k v s busy = elim (Bool-cases (ltb 0 size)) [
  | inl more ↦
      let kb = record k.keyboard { remaining_to_read = pos size } in
      let k' = record k { keyboard = kb } in
      rw more (
        block_in_read-Keeps true (in_read buffer total size got) k' v
          (Sound-same k k' v s refl (λ t. refl) refl refl refl) busy)
  | inr done ↦ rw done ((v, s), refl)
]

SameButMem-Sound : (k k' : Kernel) (v : View) → SameButMem k k' → Sound k v → Sound k' v
SameButMem-Sound k k' v m s =
    Sound-same k k' v s m.links (λ t. ap (λ f. (f t).state) m.tasks) m.idle_task m.current
      (facts-eq k k' m.semaphores (λ t. ap (λ f. (f t).dir) m.tasks) m.dir_count)

-- A page fault, and a store to the user's memory.
pub pf_rsi-Keeps : (address : ℕ) (k : Kernel) (v : View) → Sound k v → Keeps k (pf_rsi address k)
pf_rsi-Keeps address k v s =
    let m = pf_rsi-SameButMem address k in
    ((v, SameButMem-Sound k (pf_rsi address k) v m s), m.hung)

pub store_bytes-Keeps :
    (address : ℕ) (bs : List ℕ) (k : Kernel) (v : View)
    → Sound k v
    → Keeps k (store_bytes address bs k)
store_bytes-Keeps address bs k v s =
    let m = store_bytes-SameButMem address bs k in
    ((v, SameButMem-Sound k (store_bytes address bs k) v m s), m.hung)

-- A read that goes on, and one that begins.
pub read_on-Keeps :
    (buffer total size : ℕ) (got : List ℕ) (k : Kernel) (v : View)
    → Sound k v
    → k.current ≢ k.idle_task
    → Keeps k (read_on buffer total size got k).0
unfolding read_on
read_on-Keeps buffer total size got k v s busy =
    let (keys, kb) = read_from_keyboard_buffer size k.keyboard in
    let k1 = record k { keyboard = kb } in
    let k2 = store_bytes (buffer + (total - size)) keys k1 in
    let same = store_bytes-SameButMem (buffer + (total - size)) keys k1 in
    let s2 = SameButMem-Sound k1 k2 v same (Sound-same k k1 v s refl (λ t. refl) refl refl refl) in
    let still : k2.current ≢ k2.idle_task = λ e. busy (sym same.current ∙ e ∙ same.idle_task) in
    let r = read_step-Keeps buffer total (size - length keys) (got ++ keys) k2 v s2 still in
    (r.0, r.1 ∙ same.hung)

sys_read_keyboard-Keeps :
    (buffer size : ℕ) (k : Kernel) (v : View)
    → Sound k v
    → k.current ≢ k.idle_task
    → Keeps k (sys_read_keyboard buffer size k).0
unfolding sys_read_keyboard
sys_read_keyboard-Keeps buffer size k v s busy =
    elim (Bool-cases (list_empty keyboardqueue k.links)) [
      | inl empty ↦ rw empty (read_on-Keeps buffer size size [] k v s busy)
      | inr reading ↦
          rw reading (block_in_read-Keeps false (in_read buffer size size []) k v s busy)
    ]

read_checked-Keeps :
    (buffer : ℕ) (size : ℤ) (k : Kernel) (v : View)
    → Sound k v
    → k.current ≢ k.idle_task
    → Keeps k (read_checked buffer size k).0
unfolding read_checked
read_checked-Keeps buffer (negsuc n) k v s busy = elim (Bool-cases (buffer == 0)) [
  | inl e ↦ rw e ((v, s), refl)
  | inr e ↦ rw e ((v, s), refl)
]
read_checked-Keeps buffer (pos n) k v s busy =
    elim (Bool-cases
      ((buffer == 0) || not (access_ok verify_write buffer n (k.tasks k.current).heap_top))) [
        | inl e ↦ rw e ((v, s), refl)
        | inr e ↦ rw e (sys_read_keyboard-Keeps buffer n k v s busy)
      ]

pub sys_read-Keeps :
    (fd : ℤ) (buffer : ℕ) (size : ℤ) (k : Kernel) (v : View)
    → Sound k v
    → k.current ≢ k.idle_task
    → Keeps k (sys_read fd buffer size k).0
unfolding sys_read
sys_read-Keeps fd buffer size k v s busy = elim (Bool-cases (is_neg (check_fd fd read_operation))) [
  | inl e ↦ rw e ((v, s), refl)
  | inr e ↦ rw e (read_checked-Keeps buffer size k v s busy)
]

-- An update of the statistics, but for REFRESH.
pub update_stats-Keeps :
    (t : ℕ) (e : Event) (k : Kernel) (v : View)
    → Sound k v
    → e ≢ refresh
    → Keeps k (Kernel.update_stats t e k)
update_stats-Keeps t e k v s ne = ((v, update_stats-Sound t e k v s), hung-update_stats t e k ne)

pub resume_sem_wait-Keeps : (k : Kernel) (v : View) → Sound k v → Keeps k (resume_sem_wait k).0
unfolding resume_sem_wait
resume_sem_wait-Keeps k v s = elim (Bool-cases (k.tasks k.current).sem_deleted) [
  | inl e ↦
      let k' = set_task k.current (record (k.tasks k.current) { sem_deleted = false }) k in
      rw e (
        (
          v,
          Sound-same k k' v s refl (λ t. ground arith) refl refl
              (facts-eq k k' refl (λ t. ground arith) refl),
        ),
        refl,
      )
  | inr e ↦ rw e ((v, s), refl)
]

pub set_quantum-Keeps :
    (t quantum : ℕ) (k : Kernel) (v : View) → Sound k v → Keeps k (set_quantum t quantum k)
unfolding set_quantum
set_quantum-Keeps t quantum k v s =
    let k' = set_task t (record (k.tasks t) { quantum = quantum }) k in
    update_stats-Keeps k'.current quantum_updated k' v
      (Sound-same k k' v s refl (λ u. ground arith) refl refl
        (facts-eq k k' refl (λ u. ground arith) refl))
      (λ e. cc)
