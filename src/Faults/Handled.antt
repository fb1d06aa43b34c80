-- ===== src/Faults/Handled.antt =====
-- What `pf_rsi` does to a page that processes share, and when it does not come back.
use so2_zeos.Prelude.{
  ℕ, ◌-◌, ◌%◌, ◌≤◌, ◌<◌, ◌≡◌, ◌≢◌, ◌⊎◌, ◌↔◌, ◌∙◌, ap, inl, inr, refl, true, false, Option, none,
  some, Bool-cases, Option-cases, ◌==◌, leb, if◌then◌else◌, arith, update,
}
use so2_zeos.Memory.{
  Memory, resolved, no_memory, total_pages, num_pag_kernel, free_frame_mark, alloc_frame,
  page_fault, fault_on_shared, get_frame, set_ss_pag, copy_frame, no_entry,
}
use so2_zeos.Memory.Frames.{alloc_frame-some, alloc_frame-none}
use so2_zeos.Memory.Sharing.{writable, read_only, window, page_fault-shared}
use so2_zeos.Kernel.{Kernel}
use so2_zeos.AccessOk.{access_ok, verify_write}
use so2_zeos.Faults.{halt, after_fault, page_of, pf_rsi}

pf_rsi-found :
    (address d : ℕ) (k : Kernel)
    → (k.tasks k.current).dir ≡ some d
    → access_ok verify_write address 1 (k.tasks k.current).heap_top ≡ true
    → pf_rsi address k ≡ after_fault (page_fault d (page_of address) k.mem) k
unfolding pf_rsi
pf_rsi-found address d k at fine = rw fine (
    ap
      (λ (o : Option ℕ). elim o [
        | none ↦ halt k
        | some d ↦ after_fault (page_fault d (page_of address) k.mem) k
      ])
      at)

-- A write to an address that the user may write to, in a page (not the window of `copy_frame`) that
-- may only be read, in a used frame with a count of at least 2, while a frame is free: the writer
-- gets a frame of its own with the same bytes, and the count of the old frame falls by one. Other
-- pages of the writer, but the window, and all pages of others stay, as does all of the kernel but
-- memory.
pub pf_rsi-shared :
    (address d f new : ℕ) (k : Kernel) (m2 : Memory)
    → (k.tasks k.current).dir ≡ some d
    → access_ok verify_write address 1 (k.tasks k.current).heap_top ≡ true
    → page_of address ≢ window
    → f < total_pages
    → k.mem.phys_mem f ≢ free_frame_mark
    → k.mem.page_table d (page_of address) ≡ read_only f
    → 2 ≤ k.mem.cow_count_mem f
    → alloc_frame
        (record k.mem { cow_count_mem = update k.mem.cow_count_mem f (k.mem.cow_count_mem f - 1) })
      ≡ some (new, m2)
    → (m' : Memory) × (pf_rsi address k ≡ record k { mem = m' })
      × (new ≢ f)
      × (m'.frame_data new ≡ k.mem.frame_data f)
      × (m'.frame_data f ≡ k.mem.frame_data f)
      × (m'.cow_count_mem f ≡ k.mem.cow_count_mem f - 1)
      × (m'.cow_count_mem new ≡ 0)
      × ((c p : ℕ)
          → m'.page_table c p ≡ (
              if c == d
              then (if p == page_of address
                  then writable new
                  else if p == window
                  then no_entry
                  else k.mem.page_table c p)
              else k.mem.page_table c p))
pf_rsi-shared address d f new k m2 at fine nw fits used e many got =
    let r = page_fault-shared d (page_of address) f new k.mem m2 nw fits used e many got in
    (
      r.0,
      pf_rsi-found address d k at fine ∙ ap (λ x. after_fault x k) r.1,
      r.2,
      r.3,
      r.4,
      r.5,
      r.6,
      r.7,
    )

-- every frame that `alloc_frame` looks at is in use
abbrev pub NoFrame : Memory → Type 0
NoFrame m =
    (f : ℕ) → num_pag_kernel ≤ f → f < total_pages → f % 2 ≡ 0 → m.phys_mem f ≢ free_frame_mark

NoFrame-alloc_frame : (m : Memory) → NoFrame m → alloc_frame m ≡ none
NoFrame-alloc_frame m h = elim (Option-cases (alloc_frame m)) [
  | inl e ↦ e
  | inr ((f, m'), e) ↦ let a = alloc_frame-some m m' f e in absurd (h f a.0 a.1 a.2 a.3)
]

-- The count of the frame that an address is in decides what a fault there comes to.
abbrev pub counted : (address d : ℕ) → Memory → ℕ
counted address d m = m.cow_count_mem (m.page_table d (page_of address)).pbase_addr

-- the ways in which a fault is not resolved
abbrev pub Fatal : (address d : ℕ) → Kernel → Type 0
Fatal address d k =
    (access_ok verify_write address 1 (k.tasks k.current).heap_top ≡ false)
    ⊎ ((counted address d k.mem ≡ 0) ⊎ ((2 ≤ counted address d k.mem) × NoFrame k.mem))

-- the frame's count falls by one before a frame is looked for
abbrev lowered : ℕ → Memory → Memory
lowered f m = record m { cow_count_mem = update m.cow_count_mem f (m.cow_count_mem f - 1) }

-- what becomes of a fault in a shared page, by the frame that is found
fault_on_shared-none :
    (d page f : ℕ) (m : Memory)
    → alloc_frame (lowered f m) ≡ none
    → fault_on_shared d page f m ≡ no_memory
unfolding fault_on_shared
fault_on_shared-none d page f m e = ground (arith, e)

fault_on_shared-some :
    (d page f new : ℕ) (m m2 : Memory)
    → alloc_frame (lowered f m) ≡ some (new, m2)
    → fault_on_shared d page f m ≡ resolved (set_ss_pag d page new (copy_frame d page new m2))
unfolding fault_on_shared
fault_on_shared-some d page f new m m2 e = ground (arith, e)

module _ (address d : ℕ) (k : Kernel) (runs : k.halted ≡ false) where
  abbrev page : ℕ
  page = page_of address

  abbrev frame : ℕ
  frame = (k.mem.page_table d page).pbase_addr

  abbrev count : ℕ
  count = counted address d k.mem

  abbrev Ends : Type 0
  Ends =
      ((after_fault (page_fault d page k.mem) k).halted ≡ true)
      ↔ ((count ≡ 0) ⊎ ((2 ≤ count) × NoFrame k.mem))

  after_fault-last : count ≡ 1 → Ends
  unfolding page_fault get_frame
  after_fault-last e = ground (arith, e, runs)

  after_fault-free : count ≡ 0 → Ends
  unfolding page_fault get_frame
  after_fault-free e = ground (arith, e, runs)

  after_fault-shared : 2 ≤ count → Ends
  unfolding page_fault get_frame
  after_fault-shared many =
      let one : (count == 1) ≡ false = ground arith in
      let two : leb 2 count ≡ true = ground arith in
      elim (Option-cases (alloc_frame (lowered frame k.mem))) [
        | inl e ↦
            rw (one, two, fault_on_shared-none d page frame k.mem e)
              (λ h. inr (many, alloc_frame-none (lowered frame k.mem) e), λ h. refl)
        | inr ((new, m2), e) ↦
            let a = alloc_frame-some (lowered frame k.mem) m2 new e in
            rw (one, two, fault_on_shared-some d page frame new k.mem m2 e)
              (
                λ h. ground (arith, runs),
                λ h. elim h [
                  | inl z ↦ absurd (omega arith)
                  | inr (_, no_frame) ↦ absurd (no_frame new a.0 a.1 a.2 a.3)
                ],
              )
      ]

  after_fault-Ends : Ends
  after_fault-Ends = elim (Bool-cases (leb 2 count)) [
    | inl many ↦ after_fault-shared (ground arith)
    | inr few ↦ elim (Bool-cases (count == 1)) [
      | inl last ↦ after_fault-last (ground arith)
      | inr out ↦ after_fault-free (ground arith)
    ]
  ]

-- A page fault of a process with a directory ends in a `while(1)` of `pf_rsi` exactly if the user may
-- not write to the address, or the frame of its page has the count 0, or a count of at least 2 while
-- every even frame outside the kernel's is in use.
pub pf_rsi-halted_iff :
    (address d : ℕ) (k : Kernel)
    → (k.tasks k.current).dir ≡ some d
    → k.halted ≡ false
    → ((pf_rsi address k).halted ≡ true) ↔ Fatal address d k
unfolding pf_rsi
pf_rsi-halted_iff address d k at runs =
    elim (Bool-cases (access_ok verify_write address 1 (k.tasks k.current).heap_top)) [
      | inr bad ↦ rw bad (λ h. inl refl, λ h. refl)
      | inl fine ↦
          let ends = after_fault-Ends address d k runs in
          rw (fine, at)
            (λ h. inr (ends.0 h), λ h. elim h [ inl never ↦ cc never | inr why ↦ ends.1 why ])
    ]
