-- ===== src/System/Counts.antt =====
-- The operations on frames and pages leave the counts of the directories alone.
use so2_zeos.Prelude.{
  ℕ, zero, suc, ◌+◌, ◌-◌, ◌≡◌, refl, ◌∙◌, inl, inr, Bool, true, false, if◌then◌else◌, arith, Option,
  none, some, Option-cases, Bool-cases, List, [], ◌∷◌, ◌++◌, ◌==◌,
}
use so2_zeos.Memory.{
  Memory, alloc_frame, taken, find_frame, frame_rounds, num_pag_kernel, free_frame, release_count,
  get_frame, del_ss_pag, set_ss_pag, share_cow_page, copy_frame, page_fault, fault_on_shared,
  resolved, set_entry, num_pag_code, num_pag_data, pag_log_init_code, pag_log_init_data,
  pag_log_init_heap, get_heap_page_size,
}
use so2_zeos.Heap.{
  free_frames, alloc_frames, assign_frames, assigned, grow_heap, shrink_heap, pages_free,
}
use so2_zeos.Directories.{
  set_user_page, map_user_pages, set_user_pages, free_data_pages, free_heap_pages, free_user_pages,
}
use so2_zeos.Processes.{copy_entries, share_up, share_down, inherit_pages}

abbrev pub SameCounts : Memory → Memory → Type 0
SameCounts m m' = m'.dir_count ≡ m.dir_count

taken-SameCounts :
    (o : Option ℕ) (m : Memory) (f : ℕ) (m' : Memory) → taken o m ≡ some (f, m') → SameCounts m m'
taken-SameCounts none m f m' e = cc e
taken-SameCounts (some g) m f m' e = ground arith

pub alloc_frame-SameCounts :
    (m : Memory) (f : ℕ) (m' : Memory) → alloc_frame m ≡ some (f, m') → SameCounts m m'
unfolding alloc_frame
alloc_frame-SameCounts m f m' e =
    taken-SameCounts (find_frame frame_rounds num_pag_kernel m) m f m' e

free_frame-SameCounts : (f : ℕ) (m : Memory) → SameCounts m (free_frame f m)
unfolding free_frame release_count
free_frame-SameCounts f m = ground arith

free_frames-SameCounts : (fs : List ℕ) (m : Memory) → SameCounts m (free_frames fs m)
unfolding free_frames
free_frames-SameCounts [] m = refl
free_frames-SameCounts (f ∷ fs) m =
    free_frames-SameCounts fs (free_frame f m) ∙ free_frame-SameCounts f m

alloc_frames-SameCounts : (n : ℕ) (fs : List ℕ) (m : Memory) → SameCounts m (alloc_frames n fs m).1
unfolding alloc_frames
alloc_frames-SameCounts zero fs m = refl
alloc_frames-SameCounts (suc n) fs m = elim (Option-cases (alloc_frame m)) [
  | inl e ↦ rw (e, alloc_frames) (free_frames-SameCounts fs m)
  | inr ((f, m'), e) ↦
      rw (e, alloc_frames)
        (alloc_frames-SameCounts n (fs ++ f ∷ []) m' ∙ alloc_frame-SameCounts m f m' e)
]

assign_frames-SameCounts :
    (fs : List ℕ) (d page : ℕ) (m : Memory) → SameCounts m (assign_frames fs d page m)
unfolding assign_frames set_ss_pag
assign_frames-SameCounts [] d page m = refl
assign_frames-SameCounts (f ∷ fs) d page m =
    assign_frames-SameCounts fs d (page - 1) (set_ss_pag d page f m)

assigned-SameCounts :
    (o : Option (List ℕ)) (d page : ℕ) (m : Memory) → SameCounts m (assigned d page o m).1
assigned-SameCounts none d page m = refl
assigned-SameCounts (some fs) d page m = assign_frames-SameCounts fs d page m

pub grow_heap-SameCounts : (n d page : ℕ) (m : Memory) → SameCounts m (grow_heap n d page m).1
unfolding grow_heap
grow_heap-SameCounts n d page m = elim (Bool-cases (pages_free n d page m)) [
  | inl e ↦
      let (frames, m') = alloc_frames n [] m in
      rw e (assigned-SameCounts frames d page m' ∙ alloc_frames-SameCounts n [] m)
  | inr e ↦ rw e
]

pub shrink_heap-SameCounts : (n d page : ℕ) (m : Memory) → SameCounts m (shrink_heap n d page m)
unfolding shrink_heap del_ss_pag
shrink_heap-SameCounts zero d page m = refl
shrink_heap-SameCounts (suc n) d page m =
    let f = get_frame d page m in
    shrink_heap-SameCounts n d (page - 1) (del_ss_pag d page (free_frame f m))
    ∙ free_frame-SameCounts f m

fault_on_shared-SameCounts :
    (d page frame : ℕ) (m m' : Memory)
    → fault_on_shared d page frame m ≡ resolved m'
    → SameCounts m m'
unfolding fault_on_shared copy_frame set_ss_pag
fault_on_shared-SameCounts d page frame m m' e =
    let m1 = record m {
      cow_count_mem = λ j. if j == frame then m.cow_count_mem frame - 1 else m.cow_count_mem j;
    } in
    elim (Option-cases (alloc_frame m1)) [
      | inl n ↦ ground arith
      | inr ((f, m2), n) ↦ ground (arith, alloc_frame-SameCounts m1 f m2 n)
    ]

pub page_fault-SameCounts :
    (d page : ℕ) (m m' : Memory) → page_fault d page m ≡ resolved m' → SameCounts m m'
unfolding page_fault set_ss_pag
page_fault-SameCounts d page m m' e =
    ground (arith, fault_on_shared-SameCounts d page (get_frame d page m) m m')

set_user_page-SameCounts :
    (d page : ℕ) (rw_bit : Bool) (m : Memory) → SameCounts m (set_user_page d page rw_bit m)
unfolding set_user_page
set_user_page-SameCounts d page rw_bit m = elim (Option-cases (alloc_frame m)) [
  | inl e ↦ rw (e, set_user_page)
  | inr ((f, m'), e) ↦ rw (e, set_user_page) (alloc_frame-SameCounts m f m' e)
]

map_user_pages-SameCounts :
    (n d page : ℕ) (rw_bit : Bool) (m : Memory) → SameCounts m (map_user_pages n d page rw_bit m)
unfolding map_user_pages
map_user_pages-SameCounts zero d page rw_bit m = refl
map_user_pages-SameCounts (suc n) d page rw_bit m =
    map_user_pages-SameCounts n d (page + 1) rw_bit (set_user_page d page rw_bit m)
    ∙ set_user_page-SameCounts d page rw_bit m

pub set_user_pages-SameCounts : (d : ℕ) (m : Memory) → SameCounts m (set_user_pages d m)
unfolding set_user_pages
set_user_pages-SameCounts d m =
    map_user_pages-SameCounts num_pag_data d pag_log_init_data true
      (map_user_pages num_pag_code d pag_log_init_code false m)
    ∙ map_user_pages-SameCounts num_pag_code d pag_log_init_code false m

free_data_pages-SameCounts : (n d page : ℕ) (m : Memory) → SameCounts m (free_data_pages n d page m)
unfolding free_data_pages del_ss_pag
free_data_pages-SameCounts zero d page m = refl
free_data_pages-SameCounts (suc n) d page m =
    let f = get_frame d page m in
    free_data_pages-SameCounts n d (page + 1) (del_ss_pag d page (free_frame f m))
    ∙ free_frame-SameCounts f m

free_heap_pages-SameCounts : (n d pag : ℕ) (m : Memory) → SameCounts m (free_heap_pages n d pag m)
unfolding free_heap_pages del_ss_pag
free_heap_pages-SameCounts zero d pag m = refl
free_heap_pages-SameCounts (suc n) d pag m =
    let f = get_frame d (511 - pag) m in
    free_heap_pages-SameCounts n d (pag + 1) (del_ss_pag d (511 + pag) (free_frame f m))
    ∙ free_frame-SameCounts f m

pub free_user_pages-SameCounts : (d top : ℕ) (m : Memory) → SameCounts m (free_user_pages d top m)
unfolding free_user_pages
free_user_pages-SameCounts d top m =
    let m1 = free_data_pages num_pag_data d pag_log_init_data m in
    free_heap_pages-SameCounts (get_heap_page_size top) d 0 m1
    ∙ free_data_pages-SameCounts num_pag_data d pag_log_init_data m

copy_entries-SameCounts : (n p c page : ℕ) (m : Memory) → SameCounts m (copy_entries n p c page m)
unfolding copy_entries
copy_entries-SameCounts zero p c page m = refl
copy_entries-SameCounts (suc n) p c page m =
    copy_entries-SameCounts n p c (page + 1) (set_entry c page (m.page_table p page) m)

share_cow_page-SameCounts : (p c page : ℕ) (m : Memory) → SameCounts m (share_cow_page p c page m)
unfolding share_cow_page
share_cow_page-SameCounts p c page m = refl

share_up-SameCounts : (n p c page : ℕ) (m : Memory) → SameCounts m (share_up n p c page m)
unfolding share_up
share_up-SameCounts zero p c page m = refl
share_up-SameCounts (suc n) p c page m =
    share_up-SameCounts n p c (page + 1) (share_cow_page p c page m)
    ∙ share_cow_page-SameCounts p c page m

share_down-SameCounts : (n p c page : ℕ) (m : Memory) → SameCounts m (share_down n p c page m)
unfolding share_down
share_down-SameCounts zero p c page m = refl
share_down-SameCounts (suc n) p c page m =
    share_down-SameCounts n p c (page - 1) (share_cow_page p c page m)
    ∙ share_cow_page-SameCounts p c page m

pub inherit_pages-SameCounts : (p c top : ℕ) (m : Memory) → SameCounts m (inherit_pages p c top m)
unfolding inherit_pages
inherit_pages-SameCounts p c top m =
    let m1 = copy_entries num_pag_code p c pag_log_init_code m in
    let m2 = share_up num_pag_data p c pag_log_init_data m1 in
    share_down-SameCounts (get_heap_page_size top) p c pag_log_init_heap m2
    ∙ share_up-SameCounts num_pag_data p c pag_log_init_data m1
    ∙ copy_entries-SameCounts num_pag_code p c pag_log_init_code m
