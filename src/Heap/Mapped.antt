-- ===== src/Heap/Mapped.antt =====
-- What a growth of the heap that succeeds leaves in the page table.
use so2_zeos.Prelude.{
  ℕ, zero, suc, ◌+◌, ◌-◌, ◌≤◌, ◌<◌, ◌≡◌, ◌≢◌, ◌∙◌, refl, ap, inl, inr, true, ◌==◌, arith, Option,
  none, some, Option-cases, Bool-cases, List, [], ◌∷◌, ◌++◌, length, length-append, sym,
}
use mathlib.Core.Path.{subst}
use so2_zeos.Memory.{Memory, alloc_frame, set_ss_pag, is_ss_pag_free}
use so2_zeos.Heap.{alloc_frames, assign_frames, assigned, pages_free, grow_heap}
use so2_zeos.Heap.Growth.{page_table-alloc_frames}
use so2_zeos.Directories.UserPages.{IsUser}

set_ss_pag-entries :
    (d page f : ℕ) (m : Memory) (p : ℕ)
    → (p ≡ page → IsUser true ((set_ss_pag d page f m).page_table d p))
      × (p ≢ page → (set_ss_pag d page f m).page_table d p ≡ m.page_table d p)
unfolding set_ss_pag
set_ss_pag-entries d page f m p = (λ e. ground arith, λ ne. ground arith)

-- The third loop maps one page for each frame, downwards, and changes no other.
assign_frames-entries :
    (fs : List ℕ) (d page : ℕ) (m : Memory) (p : ℕ)
    → length fs ≤ page
    → let m' = assign_frames fs d page m in
      (page < p + length fs → p ≤ page → IsUser true (m'.page_table d p))
      × (p + length fs ≤ page → m'.page_table d p ≡ m.page_table d p)
      × (page < p → m'.page_table d p ≡ m.page_table d p)
unfolding assign_frames
assign_frames-entries [] d page m p fits =
    (λ lo hi. absurd (omega arith), λ below. refl, λ above. refl)
assign_frames-entries (f ∷ fs) d page m p fits =
    let m1 = set_ss_pag d page f m in
    let ih = assign_frames-entries fs d (page - 1) m1 p (omega arith) in
    let here = set_ss_pag-entries d page f m p in
    (
      λ lo hi. elim (Bool-cases (p == page)) [
        | inl at ↦
            let e : p ≡ page = ground arith in
            subst (IsUser true) (sym (ih.2 (omega arith))) (here.0 e)
        | inr below ↦ ih.0 (omega arith) (ground arith)
      ],
      λ below. ih.1 (omega arith) ∙ here.1 (omega arith),
      λ above. ih.2 (omega arith) ∙ here.1 (omega arith),
    )

pages_free-free :
    (n d page : ℕ) (m : Memory) (p : ℕ)
    → n ≤ page
    → pages_free n d page m ≡ true
    → page < p + n
    → p ≤ page
    → is_ss_pag_free d p m ≡ true
unfolding pages_free
pages_free-free zero d page m p fits free lo hi = absurd (omega arith)
pages_free-free (suc n) d page m p fits free lo hi = elim (Bool-cases (is_ss_pag_free d page m)) [
  | inr taken ↦ absurd (ground arith)
  | inl first ↦ elim (Bool-cases (p == page)) [
    | inl at ↦ let e : p ≡ page = ground arith in rw e first
    | inr below ↦
        pages_free-free n d (page - 1) m p (omega arith) (ground arith) (omega arith) (ground arith)
  ]
]

alloc_frames-length :
    (n : ℕ) (fs gs : List ℕ) (m : Memory)
    → (alloc_frames n fs m).0 ≡ some gs
    → length gs ≡ length fs + n
unfolding alloc_frames
alloc_frames-length zero fs gs m e = let same : fs ≡ gs = ground arith in rw (← same) (omega arith)
alloc_frames-length (suc n) fs gs m e = elim (Option-cases (alloc_frame m)) [
  | inl out ↦ absurd (cc (rw (out, alloc_frames) at e))
  | inr ((f, m1), found) ↦
      let rest = alloc_frames-length n (fs ++ f ∷ []) gs m1 (rw (found, alloc_frames) at e) in
      omega (arith, rest, length-append fs (f ∷ []))
]

grown :
    (frames : Option (List ℕ)) (n d page : ℕ) (m1 : Memory) (p : ℕ)
    → n ≤ page
    → ((gs : List ℕ) → frames ≡ some gs → length gs ≡ n)
    → (assigned d page frames m1).0 ≡ true
    → let e = (assigned d page frames m1).1.page_table d p in
      (page < p + n → p ≤ page → IsUser true e)
      × (p + n ≤ page → e ≡ m1.page_table d p)
      × (page < p → e ≡ m1.page_table d p)
grown none n d page m1 p fits size e = cc e
grown (some gs) n d page m1 p fits size e =
    let l = size gs refl in
    let r = assign_frames-entries gs d page m1 p (omega (arith, l)) in
    (λ lo hi. r.0 (omega (arith, l)) hi, λ below. r.1 (omega (arith, l)), λ above. r.2 above)

-- A heap that grows by `n` pages from `page` downwards, and succeeds: each of them was free, and is
-- one that the process can read and write; no other entry of its table changes.
pub grow_heap-maps :
    (n d page : ℕ) (m : Memory) (p : ℕ)
    → n ≤ page
    → (grow_heap n d page m).0 ≡ true
    → let e = (grow_heap n d page m).1.page_table d p in
      (page < p + n → p ≤ page → (is_ss_pag_free d p m ≡ true) × IsUser true e)
      × (p + n ≤ page → e ≡ m.page_table d p)
      × (page < p → e ≡ m.page_table d p)
unfolding grow_heap
grow_heap-maps n d page m p fits done = elim (Bool-cases (pages_free n d page m)) [
  | inr taken ↦ absurd (cc (rw taken at done))
  | inl free ↦
      let frames = (alloc_frames n [] m).0 in
      let m1 = (alloc_frames n [] m).1 in
      let g =
        grown frames n d page m1 p fits
          (λ gs found. alloc_frames-length n [] gs m found ∙ omega arith) (rw free at done) in
      let same : m1.page_table d p ≡ m.page_table d p =
        ap (λ t. t d p) (page_table-alloc_frames n [] m) in
      rw free (
        λ lo hi. (pages_free-free n d page m p fits free lo hi, g.0 lo hi),
        λ below. g.1 below ∙ same,
        λ above. g.2 above ∙ same,
      )
]
