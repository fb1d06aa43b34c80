-- ===== src/Semaphores/Waking.antt =====
-- The errors of the semaphore calls, and the mark that a deletion leaves on a process.
use so2_zeos.Prelude.{
  ℕ, ◌≤◌, ◌<◌, ◌≡◌, ◌≢◌, ◌⊎◌, inl, inr, refl, true, false, ◌==◌, leb, arith, Bool-cases, some, ℤ,
  pos, negsuc, neg,
}
use so2_zeos.Kernel.{Kernel, nr_semaphores}
use so2_zeos.Semaphores.{einval, sem_wait, sem_signal, sem_destroy}

-- A semaphore number that no semaphore has, or that of a semaphore not in use.
abbrev pub Invalid : ℤ → Kernel → Type 0
Invalid (negsuc _) k = Unit
Invalid (pos n) k = (nr_semaphores ≤ n) ⊎ ((k.semaphores n).used ≡ false)

-- On a number below 0 or past the last semaphore, and on a semaphore that is not in use,
-- `sys_sem_wait`, `sys_sem_signal` and `sys_sem_destroy` return -EINVAL and change nothing.
pub sem_calls-Invalid :
    (n : ℤ) (k : Kernel)
    → Invalid n k
    → (sem_wait n k ≡ (k, some einval))
      × (sem_signal n k ≡ (k, einval))
      × (sem_destroy n k ≡ (k, einval))
unfolding sem_wait sem_signal sem_destroy
sem_calls-Invalid (negsuc m) k bad = (refl, refl, refl)
sem_calls-Invalid (pos n) k bad = elim (Bool-cases (leb nr_semaphores n)) [
  | inl past ↦ rw past (refl, refl, refl)
  | inr valid ↦
      let unused : (k.semaphores n).used ≡ false = ground arith in
      rw (valid, unused) (refl, refl, refl)
]

-- `sys_sem_destroy` of a semaphore in use by a process whose PID is not the owner's returns -1 and
-- changes nothing.
pub sem_destroy-not_owner :
    (n : ℕ) (k : Kernel)
    → n < nr_semaphores
    → (k.semaphores n).used ≡ true
    → (k.tasks k.current).pid ≢ (k.tasks (k.semaphores n).owner).pid
    → sem_destroy (pos n) k ≡ (k, neg 1)
unfolding sem_destroy
sem_destroy-not_owner n k lt used other =
    let r : leb nr_semaphores n ≡ false = ground arith in
    let d : ((k.tasks k.current).pid == (k.tasks (k.semaphores n).owner).pid) ≡ false =
      ground arith in
    rw (r, used, d)
