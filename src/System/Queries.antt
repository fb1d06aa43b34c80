-- ===== src/System/Queries.antt =====
-- `sys_get_stats` and `sys_sbrk` keep the invariant.
use so2_zeos.Prelude.{
  ℕ, zero, suc, ◌+◌, ◌-◌, ◌≡◌, ◌⊎◌, inl, inr, refl, ◌∙◌, true, not, ◌||◌, ◌==◌, ltb, arith,
  Bool-cases, ℤ, pos, negsuc, Option-cases,
}
use so2_zeos.LinkedList.Queues.{View}
use so2_zeos.Stats.{State, st_ready, st_blocked, st_run, st_zombie, st_invalid, refresh}
use so2_zeos.Memory.{Memory, get_heap_page_size, pag_log_init_heap}
use so2_zeos.Kernel
use so2_zeos.Kernel.{Kernel, nr_tasks}
use so2_zeos.Scheduler.Frames.{hung-update_stats_waiting}
use so2_zeos.AccessOk.{access_ok, verify_write}
use so2_zeos.Calls.{waits, is_invalid, stats_bytes, stats_of, search_pid, sys_get_stats}
use so2_zeos.Heap.{moved_top, grow_heap, move_heap_top, set_heap_top, sys_sbrk}
use so2_zeos.System.Counts.{SameCounts, grow_heap-SameCounts, shrink_heap-SameCounts}
use so2_zeos.System.Shape.{facts-eq, Sound}
use so2_zeos.System.Moves.{Sound-same, update_stats-Sound}
use so2_zeos.System.Interrupts.{Keeps}
use so2_zeos.System.Reads.{store_bytes-Keeps}

waiting_state : (s : State) → waits s ≡ true → (s ≡ st_ready) ⊎ (s ≡ st_blocked)
waiting_state st_run h = cc h
waiting_state st_ready h = inl refl
waiting_state st_blocked h = inr refl
waiting_state st_zombie h = cc h
waiting_state st_invalid h = cc h

stats_of-Keeps : (st i : ℕ) (k : Kernel) (v : View) → Sound k v → Keeps k (stats_of st i k).0
unfolding stats_of
stats_of-Keeps st i k v s = elim (Bool-cases (is_invalid (k.tasks i).state)) [
  | inl e ↦ rw e ((v, s), refl)
  | inr e ↦ rw e (elim (Bool-cases (waits (k.tasks i).state)) [
    | inl w ↦
        let k' = Kernel.update_stats i refresh k in
        let r =
          store_bytes-Keeps st (stats_bytes (k'.tasks i).st) k' v
            (update_stats-Sound i refresh k v s) in
        rw w (r.0, r.1 ∙ hung-update_stats_waiting i refresh k (waiting_state (k.tasks i).state w))
    | inr w ↦ rw w (store_bytes-Keeps st (stats_bytes (k.tasks i).st) k v s)
  ])
]

search_pid-Keeps :
    (st rounds i pid : ℕ) (k : Kernel) (v : View)
    → Sound k v
    → Keeps k (search_pid st rounds i pid k).0
unfolding search_pid
search_pid-Keeps st zero i pid k v s = ((v, s), refl)
search_pid-Keeps st (suc rounds) i pid k v s = elim (Bool-cases ((k.tasks i).pid == pid)) [
  | inl e ↦ rw e (stats_of-Keeps st i k v s)
  | inr e ↦ rw e (search_pid-Keeps st rounds (i + 1) pid k v s)
]

pub sys_get_stats-Keeps :
    (pid : ℤ) (st : ℕ) (k : Kernel) (v : View) → Sound k v → Keeps k (sys_get_stats pid st k).0
unfolding sys_get_stats
sys_get_stats-Keeps (negsuc n) st k v s = ((v, s), refl)
sys_get_stats-Keeps (pos pid) st k v s =
    elim (Bool-cases
      ((st == 0) || not (access_ok verify_write st 28 (k.tasks k.current).heap_top))) [
        | inl e ↦ rw e ((v, s), refl)
        | inr e ↦ rw e (search_pid-Keeps st nr_tasks 0 pid k v s)
      ]

-- Memory but for the counts of the directories, and the end of the heap, are no concern of the
-- invariant's.
pub set_mem-Keeps :
    (m : Memory) (k : Kernel) (v : View)
    → Sound k v
    → SameCounts k.mem m
    → Keeps k (record k { mem = m })
set_mem-Keeps m k v s e =
    let k' = record k { mem = m } in
    ((v, Sound-same k k' v s refl (λ u. refl) refl refl (facts-eq k k' refl (λ t. refl) e)), refl)

set_heap_top-Keeps :
    (t : ℕ) (m : Memory) (k : Kernel) (v : View)
    → Sound k v
    → SameCounts k.mem m
    → Keeps k (set_heap_top t (record k { mem = m }))
set_heap_top-Keeps t m k v s e =
    let k' = set_heap_top t (record k { mem = m }) in
    (
      (
        v,
        Sound-same k k' v s refl (λ u. ground arith) refl refl
            (facts-eq k k' refl (λ u. ground arith) e),
      ),
      refl,
    )

move_heap_top-Keeps :
    (d new : ℕ) (k : Kernel) (v : View) → Sound k v → Keeps k (move_heap_top d new k).0
unfolding move_heap_top
move_heap_top-Keeps d new k v s =
    let act = get_heap_page_size (k.tasks k.current).heap_top in
    let pages = get_heap_page_size new in
    let first = pag_log_init_heap - act in
    let g = grow_heap (pages - act) d first k.mem in
    let same = grow_heap-SameCounts (pages - act) d first k.mem in
    elim (Bool-cases (ltb act pages)) [
      | inl up ↦ rw up (elim (Bool-cases g.0) [
        | inl e ↦ rw e (set_heap_top-Keeps new g.1 k v s same)
        | inr e ↦ rw e (set_mem-Keeps g.1 k v s same)
      ])
      | inr down ↦ rw down (
          set_heap_top-Keeps new _ k v s
            (shrink_heap-SameCounts (act - pages) d (pag_log_init_heap - pages) k.mem))
    ]

pub sys_sbrk-Keeps :
    (d increment : ℕ) (k : Kernel) (v : View) → Sound k v → Keeps k (sys_sbrk d increment k).0
unfolding sys_sbrk
sys_sbrk-Keeps d increment k v s = elim (Bool-cases (increment == 0)) [
  | inl e ↦ rw e ((v, s), refl)
  | inr e ↦ rw e (elim (Option-cases (moved_top (k.tasks k.current).heap_top increment)) [
    | inl n ↦ rw n ((v, s), refl)
    | inr (new, n) ↦ rw n (move_heap_top-Keeps d new k v s)
  ])
]
