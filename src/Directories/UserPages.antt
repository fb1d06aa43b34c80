-- ===== src/Directories/UserPages.antt =====
-- What `set_user_pages` leaves in the table of the first process.
use so2_zeos.Prelude.{
  ℕ, zero, suc, ◌+◌, ◌-◌, ◌*◌, ◌%◌, ◌^◌, ◌≤◌, ◌<◌, ◌≡◌, ◌≢◌, ◌∙◌, refl, ap, sym, inl, inr, Bool,
  true, false, ◌&&◌, ◌==◌, leb, ltb, arith, Option-cases, Bool-cases, some,
}
use mathlib.Core.Path.{subst}
use so2_zeos.Memory.{
  Memory, PageTableEntry, alloc_frame, find_frame, frame_rounds, mark_frame, taken, set_entry,
  free_frame_mark, total_pages, num_pag_kernel, num_pag_code, num_pag_data, pag_log_init_code,
  pag_log_init_data,
}
use so2_zeos.Memory.Frames.{alloc_frame-some}
use so2_zeos.Directories.{set_user_page, map_user_pages, set_user_pages}

-- the process may use the page, and write it if `rw`
abbrev pub IsUser : Bool → PageTableEntry → Type 0
IsUser writable e = (e.present ≡ true) × (e.user ≡ true) × (e.rw ≡ writable)

set_user_page-entries :
    (d page : ℕ) (writable : Bool) (m : Memory)
    → let m' = set_user_page d page writable m in
      IsUser writable (m'.page_table d page)
      × ((p : ℕ) → p ≢ page → m'.page_table d p ≡ m.page_table d p)
unfolding set_user_page
set_user_page-entries d page writable m = elim (Option-cases (alloc_frame m)) [
  | inl e ↦ rw (e, set_user_page) (ground arith, λ p ne. ground arith)
  | inr ((f, m1), e) ↦
      let found = alloc_frame-some m m1 f e in
      rw (e, set_user_page)
        (ground arith, λ p ne. (ground arith) ∙ ap (λ (g : Memory). g.page_table d p) found.4)
]

map_user_pages-entries :
    (n d page : ℕ) (writable : Bool) (m : Memory) (p : ℕ)
    → let m' = map_user_pages n d page writable m in
      (page ≤ p → p < page + n → IsUser writable (m'.page_table d p))
      × ((leb page p && ltb p (page + n)) ≡ false → m'.page_table d p ≡ m.page_table d p)
unfolding map_user_pages
map_user_pages-entries zero d page writable m p = (λ lo hi. absurd (omega arith), λ e. refl)
map_user_pages-entries (suc n) d page writable m p =
    let m1 = set_user_page d page writable m in
    let one = set_user_page-entries d page writable m in
    let ih = map_user_pages-entries n d (page + 1) writable m1 p in
    elim (Bool-cases (p == page)) [
      | inl here ↦
          let at : p ≡ page = ground arith in
          let first = ih.1 (ground arith) in
          (λ lo hi. rw (first, at) one.0, λ e. absurd (ground arith))
      | inr past ↦ (
        λ lo hi. ih.0 (ground arith) (omega arith),
        λ e. ih.1 (ground arith) ∙ one.1 p (ground arith),
      )
    ]

-- The pages of code can be read by the process and not written, those of data written too; no other
-- entry changes.
pub set_user_pages-maps :
    (d : ℕ) (m : Memory) (p : ℕ)
    → let e = (set_user_pages d m).page_table d p in
      (pag_log_init_code ≤ p → p < pag_log_init_code + num_pag_code → IsUser false e)
      × (pag_log_init_data ≤ p → p < pag_log_init_data + num_pag_data → IsUser true e)
      × (p < pag_log_init_code → e ≡ m.page_table d p)
      × (pag_log_init_data + num_pag_data ≤ p → e ≡ m.page_table d p)
unfolding set_user_pages
set_user_pages-maps d m p =
    let m1 = map_user_pages num_pag_code d pag_log_init_code false m in
    let c = map_user_pages-entries num_pag_code d pag_log_init_code false m p in
    let t = map_user_pages-entries num_pag_data d pag_log_init_data true m1 p in
    (
      λ lo hi. rw (t.1 (ground arith)) (c.0 lo hi),
      λ lo hi. t.0 lo hi,
      λ lt. t.1 (ground arith) ∙ c.1 (ground arith),
      λ le. t.1 (ground arith) ∙ c.1 (ground arith),
    )

-- The even frames that are not the kernel's: the first `n` are in use, the others free.
record Filled (n : ℕ) (m : Memory) : Type 0 where
  used : (i : ℕ) → i < n → m.phys_mem (num_pag_kernel + 2 * i) ≢ free_frame_mark
  free : (f : ℕ) → num_pag_kernel + 2 * n ≤ f → f < total_pages → m.phys_mem f ≡ free_frame_mark

find_frame-first :
    (rounds i n : ℕ) (m : Memory)
    → Filled n m
    → n < i + rounds
    → i ≤ n
    → num_pag_kernel + 2 * n < total_pages
    → find_frame rounds (num_pag_kernel + 2 * i) m ≡ some (num_pag_kernel + 2 * n)
unfolding find_frame
find_frame-first zero i n m h lt le fits = absurd (omega arith)
find_frame-first (suc rounds) i n m h lt le fits = elim (Bool-cases (i == n)) [
  | inl here ↦
      let at : i ≡ n = ground arith in
      let free = h.free (num_pag_kernel + 2 * n) (omega arith) fits in rw (at, free)
  | inr past ↦
      let below : i < n = ground arith in
      let busy : (m.phys_mem (num_pag_kernel + 2 * i) == free_frame_mark) ≡ false =
        ground (arith, h.used i below) in
      let next : num_pag_kernel + 2 * i + 2 ≡ num_pag_kernel + 2 * (i + 1) = omega arith in
      rw (busy, next) (find_frame-first rounds (i + 1) n m h (omega arith) (omega arith) fits)
]

-- the memory after one round
abbrev filled_page : (d page : ℕ) → Bool → ℕ → Memory → Memory
filled_page d page writable f m =
    set_entry d page
      (record { present = true; rw = writable; user = true; pbase_addr = f % 2 ^ 20 })
      (mark_frame f m)

alloc_frame-first :
    (n : ℕ) (m : Memory)
    → Filled n m
    → num_pag_kernel + 2 * n < total_pages
    → alloc_frame m ≡ some (num_pag_kernel + 2 * n, mark_frame (num_pag_kernel + 2 * n) m)
unfolding alloc_frame
alloc_frame-first n m h fits =
    ap (λ o. taken o m) (find_frame-first frame_rounds 0 n m h (omega arith) (omega arith) fits)

set_user_page-first :
    (d page : ℕ) (writable : Bool) (n : ℕ) (m : Memory)
    → Filled n m
    → num_pag_kernel + 2 * n < total_pages
    → set_user_page d page writable m ≡ filled_page d page writable (num_pag_kernel + 2 * n) m
unfolding set_user_page
set_user_page-first d page writable n m h fits = rw (alloc_frame-first n m h fits, set_user_page)

filled_page-Filled :
    (d page : ℕ) (writable : Bool) (n : ℕ) (m : Memory)
    → Filled n m
    → Filled (n + 1) (filled_page d page writable (num_pag_kernel + 2 * n) m)
filled_page-Filled d page writable n m h = record {
  used = λ i lt. elim (Bool-cases (i == n)) [
    | inl here ↦ ground arith
    | inr past ↦ ground (arith, h.used i (ground arith))
  ];
  free = λ f lo hi. ground (arith, h.free f (omega arith) hi);
}

map_user_pages-frames :
    (rounds d page : ℕ) (writable : Bool) (n : ℕ) (m : Memory)
    → Filled n m
    → num_pag_kernel + 2 * (n + rounds) < total_pages
    → let m' = map_user_pages rounds d page writable m in
      Filled (n + rounds) m'
      × ((p : ℕ)
          → page ≤ p
          → p < page + rounds
          → (m'.page_table d p).pbase_addr ≡ num_pag_kernel + 2 * (n + (p - page)))
unfolding map_user_pages
map_user_pages-frames zero d page writable n m h fits =
    let e : n + 0 ≡ n = omega arith in (rw e h, λ p lo hi. absurd (omega arith))
map_user_pages-frames (suc rounds) d page writable n m h fits =
    let m1 = filled_page d page writable (num_pag_kernel + 2 * n) m in
    let e : n + suc rounds ≡ n + 1 + rounds = omega arith in
    let ih =
      map_user_pages-frames rounds d (page + 1) writable (n + 1) m1
        (filled_page-Filled d page writable n m h) (omega arith) in
    subst
      (λ z.
        let m' = map_user_pages rounds d (page + 1) writable z in
        Filled (n + suc rounds) m'
        × ((p : ℕ)
            → page ≤ p
            → p < page + suc rounds
            → (m'.page_table d p).pbase_addr ≡ num_pag_kernel + 2 * (n + (p - page))))
      (sym (set_user_page-first d page writable n m h (omega arith)))
      (
        subst (λ j. Filled j (map_user_pages rounds d (page + 1) writable m1)) (sym e) ih.0,
        λ p lo hi. elim (Bool-cases (p == page)) [
          | inl here ↦
              let kept = (map_user_pages-entries rounds d (page + 1) writable m1 p).1 in
              ap (λ x. x.pbase_addr) (kept (ground arith)) ∙ ground arith
          | inr past ↦ ih.1 p (ground arith) (omega arith) ∙ ground arith
        ],
      )

-- Where all frames behind the kernel's are free, each page gets one of its own: the even ones in order.
pub set_user_pages-frames :
    (d : ℕ) (m : Memory)
    → ((f : ℕ) → num_pag_kernel ≤ f → f < total_pages → m.phys_mem f ≡ free_frame_mark)
    → (p : ℕ) → pag_log_init_code ≤ p
    → p < pag_log_init_data + num_pag_data
    → ((set_user_pages d m).page_table d p).pbase_addr
      ≡ num_pag_kernel + 2 * (p - pag_log_init_code)
unfolding set_user_pages
set_user_pages-frames d m all p lo hi =
    let m1 = map_user_pages num_pag_code d pag_log_init_code false m in
    let h : Filled 0 m = record {
      used = λ i lt. absurd (omega arith);
      free = λ f l r. all f (omega arith) r;
    } in
    let code = map_user_pages-frames num_pag_code d pag_log_init_code false 0 m h (omega arith) in
    let rest =
      map_user_pages-frames num_pag_data d pag_log_init_data true 8 m1 code.0 (omega arith) in
    elim (Bool-cases (ltb p pag_log_init_data)) [
      | inl low ↦
          let kept = (map_user_pages-entries num_pag_data d pag_log_init_data true m1 p).1 in
          ap (λ x. x.pbase_addr) (kept (ground arith)) ∙ code.1 p lo (ground arith) ∙ omega arith
      | inr high ↦ rest.1 p (ground arith) hi ∙ ground arith
    ]
