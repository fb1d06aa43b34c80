-- ===== src/Heap/Growth.antt =====
-- What the growth of the heap does to frames and page tables.
use so2_zeos.Prelude.{
  ℕ, zero, suc, ◌≡◌, refl, ◌∙◌, Bool, false, true, ◌∙◌, not, if◌then◌else◌, Option, none, some,
  List, [], ◌∷◌, ◌++◌, arith,
}
use so2_zeos.Memory.{
  Memory, alloc_frame, free_frame, release_count, taken, find_frame, frame_rounds, num_pag_kernel,
  mark_frame,
}
use so2_zeos.Heap.{free_frames, alloc_frames, assigned, grow_heap, pages_free}

page_table-free_frame : (f : ℕ) (m : Memory) → (free_frame f m).page_table ≡ m.page_table
unfolding free_frame release_count
page_table-free_frame f m = ground arith

page_table-free_frames : (fs : List ℕ) (m : Memory) → (free_frames fs m).page_table ≡ m.page_table
unfolding free_frames
page_table-free_frames [] m = refl
page_table-free_frames (f ∷ fs) m =
    page_table-free_frames fs (free_frame f m) ∙ page_table-free_frame f m

-- One round of `alloc_frames`, after the search for a frame has found `o`.
page_table-round :
    (n : ℕ)
    → ((fs : List ℕ) (m : Memory) → (alloc_frames n fs m).1.page_table ≡ m.page_table)
    → (o : Option ℕ) (fs : List ℕ) (m : Memory)
    → (elim (taken o m) as (λ x. Option (List ℕ) × Memory) [
      | none ↦ (none, free_frames fs m)
      | some (f, m') ↦ alloc_frames n (fs ++ f ∷ []) m'
    ]).1.page_table
      ≡ m.page_table
page_table-round n ih none fs m = page_table-free_frames fs m
page_table-round n ih (some f) fs m = ih (fs ++ f ∷ []) (mark_frame f m)

pub page_table-alloc_frames :
    (n : ℕ) (fs : List ℕ) (m : Memory) → (alloc_frames n fs m).1.page_table ≡ m.page_table
unfolding alloc_frames alloc_frame
page_table-alloc_frames zero fs m = refl
page_table-alloc_frames (suc n) fs m =
    page_table-round n (page_table-alloc_frames n) (find_frame frame_rounds num_pag_kernel m) fs m

page_table-assigned :
    (d page : ℕ) (o : Option (List ℕ)) (m : Memory)
    → (assigned d page o m).0 ≡ false
    → (assigned d page o m).1.page_table ≡ m.page_table
page_table-assigned d page none m h = refl
page_table-assigned d page (some fs) m h = cc h

-- A refusal at once, or what else a growth comes to.
page_table-refused :
    (b : Bool) (x : Bool × Memory) (m : Memory)
    → (x.0 ≡ false → x.1.page_table ≡ m.page_table)
    → (if not b then (false, m) else x).0 ≡ false
    → (if not b then (false, m) else x).1.page_table ≡ m.page_table
page_table-refused true x m f h = f h
page_table-refused false x m f h = refl

-- When the heap cannot grow, since a page is in use or the frames do not suffice, all page tables
-- are as before.
pub page_table-grow_heap :
    (n d page : ℕ) (m : Memory)
    → (grow_heap n d page m).0 ≡ false
    → (grow_heap n d page m).1.page_table ≡ m.page_table
unfolding grow_heap
page_table-grow_heap n d page m h =
    let (frames, m') = alloc_frames n [] m in
    page_table-refused (pages_free n d page m) (assigned d page frames m') m
      (λ e. page_table-assigned d page frames m' e ∙ page_table-alloc_frames n [] m) h
