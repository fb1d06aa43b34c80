-- ===== src/Heap.antt =====
-- sys.c, `sys_sbrk`: the heap grows down from HEAP_START, page by page.
-- `d` is the directory of the current task. An address and an increment are 32-bit patterns.
pub mod Growth
pub mod Mapped
use so2_zeos.Prelude.{
  ℕ, zero, suc, ◌+◌, ◌-◌, ◌%◌, ◌^◌, Bool, true, false, not, Option, none, some, List, [], ◌∷◌, ◌++◌,
  ◌==◌, ltb, leb, if◌then◌else◌,
}
use so2_zeos.Memory.{
  Memory, heap_start, pag_log_init_heap, get_heap_page_size, is_ss_pag_free, alloc_frame,
  free_frame, get_frame, set_ss_pag, del_ss_pag,
}
use so2_zeos.Kernel.{Kernel, set_task}

-- `(void*) -ENOMEM`
abbrev pub enomem : ℕ
enomem = 2 ^ 32 - 12

-- the first loop: whether the `n` pages from `page` downwards are free
unfoldable pub pages_free : (n d page : ℕ) → Memory → Bool
pages_free zero d page m = true
pages_free (suc n) d page m =
    let rest = pages_free n d (page - 1) m in if is_ss_pag_free d page m then rest else false

-- the loop over `frames[j]`
unfoldable pub free_frames : List ℕ → Memory → Memory
free_frames [] m = m
free_frames (f ∷ fs) m = free_frames fs (free_frame f m)

-- The second loop, with the frames that it has so far; `none` is that there are not enough.
unfoldable pub alloc_frames : ℕ → List ℕ → Memory → Option (List ℕ) × Memory
alloc_frames zero frames m = (some frames, m)
alloc_frames (suc n) frames m = elim (alloc_frame m) [
  | none ↦ (none, free_frames frames m)
  | some (f, m') ↦ alloc_frames n (frames ++ f ∷ []) m'
]

-- the third loop, from `page` downwards
unfoldable pub assign_frames : List ℕ → (d page : ℕ) → Memory → Memory
assign_frames [] d page m = m
assign_frames (f ∷ fs) d page m = assign_frames fs d (page - 1) (set_ss_pag d page f m)

-- behind the second loop: whether the heap has grown
abbrev pub assigned : (d page : ℕ) → Option (List ℕ) → Memory → Bool × Memory
assigned d page none m = (false, m)
assigned d page (some frames) m = (true, assign_frames frames d page m)

-- The branch in which the heap grows by `n` pages, from `page` downwards.
unfoldable pub grow_heap : (n d page : ℕ) → Memory → Bool × Memory
unfolding alloc_frames
grow_heap n d page m =
    if not (pages_free n d page m)
    then (false, m)
    else let (frames, m') = alloc_frames n [] m in assigned d page frames m'

-- the loop of the branch in which the heap shrinks by `n` pages, from `page` downwards
unfoldable pub shrink_heap : (n d page : ℕ) → Memory → Memory
shrink_heap zero d page m = m
shrink_heap (suc n) d page m =
    shrink_heap n d (page - 1) (del_ss_pag d page (free_frame (get_frame d page m) m))

-- `new_heap_top`; `none` is the return at an overflow.
unfoldable pub moved_top : (heap_top increment : ℕ) → Option ℕ
moved_top heap_top increment =
    let top = (heap_top + 2 ^ 32 - increment) % 2 ^ 32 in
    if ltb heap_start top
    then (if leb (2 ^ 31) increment then some heap_start else none)
    else some top

-- `current()->heap_top = t`
abbrev pub set_heap_top : ℕ → Kernel → Kernel
set_heap_top t k = set_task k.current (record (k.tasks k.current) { heap_top = t }) k

-- behind the computation of `new_heap_top`
unfoldable pub move_heap_top : (d new : ℕ) → Kernel → Kernel × ℕ
unfolding grow_heap
move_heap_top d new k =
    let act = get_heap_page_size (k.tasks k.current).heap_top in
    let pages = get_heap_page_size new in
    let (grown, m) = grow_heap (pages - act) d (pag_log_init_heap - act) k.mem in
    if ltb act pages
    then (if grown
        then (set_heap_top new (record k { mem = m }), new + 1)
        else (record k { mem = m }, enomem))
    else (
      set_heap_top new
          (record k { mem = shrink_heap (act - pages) d (pag_log_init_heap - pages) k.mem }),
      new,
    )

unfoldable pub sys_sbrk : (d increment : ℕ) → Kernel → Kernel × ℕ
unfolding move_heap_top
sys_sbrk d increment k =
    let top = (k.tasks k.current).heap_top in
    if increment == 0
    then (k, top)
    else elim (moved_top top increment) [ none ↦ (k, enomem) | some new ↦ move_heap_top d new k ]
