-- ===== src/Memory/Frames.antt =====
-- `alloc_frame` and `free_frame`.
use so2_zeos.Prelude.{
  ℕ, zero, suc, ◌+◌, ◌*◌, ◌%◌, ◌≤◌, ◌<◌, ◌≡◌, ◌≢◌, inl, inr, ◌∙◌, sym, ap, ◌==◌, if◌then◌else◌,
  arith, Bool-cases, update, Option, none, some, Option-cases, fun_ext, leb,
}
use so2_zeos.Memory.{
  Memory, find_frame, frame_rounds, num_pag_kernel, total_pages, mark_frame, alloc_frame,
  free_frame, free_frame_mark,
}

-- What the search finds: the first free frame that it looks at.
pub record Found (rounds i : ℕ) (m : Memory) (f : ℕ) : Type 0 where
  pub lower : i ≤ f
  pub upper : f < i + 2 * rounds
  pub parity : f % 2 ≡ i % 2
  pub free : m.phys_mem f ≡ free_frame_mark

find_frame-Found :
    (rounds i : ℕ) (m : Memory) (f : ℕ) → find_frame rounds i m ≡ some f → Found rounds i m f
unfolding find_frame
find_frame-Found zero i m f h = cc h
find_frame-Found (suc n) i m f h = elim (Bool-cases (m.phys_mem i == free_frame_mark)) [
  | inl hit ↦
      let e : i ≡ f = ground arith in
      record { lower = omega arith; upper = omega arith; parity = omega arith; free = ground arith }
  | inr miss ↦
      let r = find_frame-Found n (i + 2) m f (ground arith) in
      record { lower = omega arith; upper = omega arith; parity = omega arith; free = r.free }
]

find_frame-none :
    (rounds i : ℕ) (m : Memory)
    → find_frame rounds i m ≡ none
    → (f : ℕ) → i ≤ f
    → f < i + 2 * rounds
    → f % 2 ≡ i % 2
    → m.phys_mem f ≢ free_frame_mark
unfolding find_frame
find_frame-none zero i m h f lo hi par = absurd (omega arith)
find_frame-none (suc n) i m h f lo hi par = elim (Bool-cases (m.phys_mem i == free_frame_mark)) [
  | inl hit ↦ ground arith
  | inr miss ↦ elim (Bool-cases (f == i)) [
    | inl here ↦ ground arith
    | inr past ↦
        find_frame-none n (i + 2) m (ground arith) f (ground arith) (omega arith) (ground arith)
  ]
]

pub alloc_frame-some :
    (m m' : Memory) (f : ℕ)
    → alloc_frame m ≡ some (f, m')
    → (num_pag_kernel ≤ f)
      × (f < total_pages)
      × (f % 2 ≡ 0)
      × (m.phys_mem f ≡ free_frame_mark)
      × (m' ≡ mark_frame f m)
unfolding alloc_frame
alloc_frame-some m m' f h = elim (Option-cases (find_frame frame_rounds num_pag_kernel m)) [
  | inl e ↦ cc (e, h)
  | inr (g, e) ↦
      let r = find_frame-Found frame_rounds num_pag_kernel m g e in
      let pair : ◌≡◌ {A = Option (ℕ × Memory)} (some (g, mark_frame g m)) (some (f, m')) =
        rw e at h in
      let same : g ≡ f = ground arith in
      let marked : mark_frame g m ≡ m' = ground arith in
      (
        ground (arith, r.lower),
        ground (arith, r.upper),
        ground (arith, r.parity),
        ground (arith, r.free),
        sym marked ∙ ap (λ x. mark_frame x m) same,
      )
]

-- `alloc_frame` fails only if every even frame outside the kernel's is in use.
pub alloc_frame-none :
    (m : Memory)
    → alloc_frame m ≡ none
    → (f : ℕ) → num_pag_kernel ≤ f
    → f < total_pages
    → f % 2 ≡ 0
    → m.phys_mem f ≢ free_frame_mark
unfolding alloc_frame
alloc_frame-none m h f lo hi par = elim (Option-cases (find_frame frame_rounds num_pag_kernel m)) [
  | inl e ↦ find_frame-none frame_rounds num_pag_kernel m e f lo (omega arith) (omega arith)
  | inr (g, e) ↦
      let none_is_some : ◌≡◌ {A = Option (ℕ × Memory)} (some (g, mark_frame g m)) none =
        rw e at h in
      cc none_is_some
]

-- Freeing a frame that `alloc_frame` has just returned puts the map of free frames back.
pub free_frame-alloc_frame :
    (m m' : Memory) (f : ℕ) → alloc_frame m ≡ some (f, m') → (free_frame f m').phys_mem ≡ m.phys_mem
unfolding free_frame
free_frame-alloc_frame m m' f h =
    let a = alloc_frame-some m m' f h in rw a.4 (fun_ext λ i. ground (arith, a))

-- What `free_frame` does to a frame above NUM_PAG_KERNEL that at most 128 tables share: its count
-- falls by one, and it is free exactly if the count was 0 or 1. No other frame is touched.
pub free_frame-counts :
    (f : ℕ) (m : Memory)
    → num_pag_kernel < f
    → f < total_pages
    → m.cow_count_mem f ≤ 128
    → ((free_frame f m).cow_count_mem ≡ update m.cow_count_mem f ((m.cow_count_mem f + 255) % 256))
      × ((free_frame f m).phys_mem
          ≡ update m.phys_mem f
              (if leb 2 (m.cow_count_mem f) then m.phys_mem f else free_frame_mark))
unfolding free_frame
free_frame-counts f m lo hi small = (fun_ext λ i. ground arith, fun_ext λ i. ground arith)

-- A frame that `alloc_frame` returns is an even one outside the kernel's, was free, and is neither
-- free afterwards nor shared; no other frame, and no page table, count of a directory or byte of
-- memory changes.
pub alloc_frame-takes :
    (m m' : Memory) (f : ℕ)
    → alloc_frame m ≡ some (f, m')
    → (num_pag_kernel ≤ f)
      × (f < total_pages)
      × (f % 2 ≡ 0)
      × (m.phys_mem f ≡ free_frame_mark)
      × (m'.phys_mem f ≢ free_frame_mark)
      × (m'.cow_count_mem f ≡ 0)
      × ((g : ℕ)
          → g ≢ f
          → (m'.phys_mem g ≡ m.phys_mem g) × (m'.cow_count_mem g ≡ m.cow_count_mem g))
      × (m'.page_table ≡ m.page_table)
      × (m'.dir_count ≡ m.dir_count)
      × (m'.frame_data ≡ m.frame_data)
alloc_frame-takes m m' f h =
    let a = alloc_frame-some m m' f h in
    (
      a.0,
      a.1,
      a.2,
      a.3,
      rw a.4 (ground arith),
      rw a.4 (ground arith),
      λ g ne. rw a.4 (ground arith),
      ap (λ (x : Memory). x.page_table) a.4,
      ap (λ (x : Memory). x.dir_count) a.4,
      ap (λ (x : Memory). x.frame_data) a.4,
    )
