-- ===== src/Faults/Stores.antt =====
-- What a page fault, and a store of the kernel to the user's memory, leave alone.
use so2_zeos.Prelude.{
  ℕ, suc, ◌+◌, ◌≤◌, ◌<◌, ◌≡◌, refl, ◌∙◌, Bool, true, none, some, List, [], ◌∷◌, arith, length, inl,
  inr, Bool-cases, Option-cases, Option, sym,
}
use mathlib.Core.Path.{subst}
use so2_zeos.Memory.{Memory, Fault, resolved, no_memory, panic, page_fault}
use so2_zeos.Kernel.{Kernel}
use so2_zeos.AccessOk.{access_ok, verify_write}
use so2_zeos.System.Counts.{SameCounts, page_fault-SameCounts}
use so2_zeos.Faults.{halt, after_fault, page_of, pf_rsi, touch, put_byte, store_byte, store_bytes}

-- The kernel but for memory, where the directories keep their counts, and whether it has halted.
pub record SameButMem (k k' : Kernel) : Type 0 where
  pub links : k'.links ≡ k.links
  pub tasks : k'.tasks ≡ k.tasks
  pub semaphores : k'.semaphores ≡ k.semaphores
  pub current : k'.current ≡ k.current
  pub idle_task : k'.idle_task ≡ k.idle_task
  pub keyboard : k'.keyboard ≡ k.keyboard
  pub hung : k'.hung ≡ k.hung
  pub dir_count : k'.mem.dir_count ≡ k.mem.dir_count

SameButMem-refl : (k : Kernel) → SameButMem k k
SameButMem-refl k = record {
  links = refl;
  tasks = refl;
  semaphores = refl;
  current = refl;
  idle_task = refl;
  keyboard = refl;
  hung = refl;
  dir_count = refl;
}

SameButMem-trans : {j k l : Kernel} → SameButMem j k → SameButMem k l → SameButMem j l
SameButMem-trans a b = record {
  links = b.links ∙ a.links;
  tasks = b.tasks ∙ a.tasks;
  semaphores = b.semaphores ∙ a.semaphores;
  current = b.current ∙ a.current;
  idle_task = b.idle_task ∙ a.idle_task;
  keyboard = b.keyboard ∙ a.keyboard;
  hung = b.hung ∙ a.hung;
  dir_count = b.dir_count ∙ a.dir_count;
}

changed-SameButMem :
    (k : Kernel) (m : Memory) (h : Bool)
    → SameCounts k.mem m
    → SameButMem k (record k { mem = m; halted = h })
changed-SameButMem k m h e = record {
  links = refl;
  tasks = refl;
  semaphores = refl;
  current = refl;
  idle_task = refl;
  keyboard = refl;
  hung = refl;
  dir_count = e;
}

after_fault-SameButMem :
    (f : Fault) (k : Kernel)
    → ((m : Memory) → f ≡ resolved m → SameCounts k.mem m)
    → SameButMem k (after_fault f k)
after_fault-SameButMem (resolved m) k h = changed-SameButMem k m k.halted (h m refl)
after_fault-SameButMem no_memory k h = changed-SameButMem k k.mem true refl
after_fault-SameButMem panic k h = changed-SameButMem k k.mem true refl

pub pf_rsi-SameButMem : (address : ℕ) (k : Kernel) → SameButMem k (pf_rsi address k)
unfolding pf_rsi
pf_rsi-SameButMem address k =
    elim (Bool-cases (access_ok verify_write address 1 (k.tasks k.current).heap_top)) [
      | inr bad ↦ rw bad (changed-SameButMem k k.mem true refl)
      | inl fine ↦ rw fine (elim (Option-cases (k.tasks k.current).dir) [
        | inl e ↦ rw (e, after_fault) (changed-SameButMem k k.mem true refl)
        | inr (d, e) ↦
            subst
              (λ o. SameButMem k (elim o [
                | none ↦ halt k
                | some d ↦ after_fault (page_fault d (page_of address) k.mem) k
              ]))
              (sym e)
              (after_fault-SameButMem (page_fault d (page_of address) k.mem) k
                (λ m. page_fault-SameCounts d (page_of address) k.mem m))
      ])
    ]

touch-SameButMem : (d address : ℕ) (k : Kernel) → SameButMem k (touch d address k)
unfolding touch
touch-SameButMem d address k = elim (Bool-cases (k.mem.page_table d (page_of address)).present) [
  | inl there ↦ rw there (SameButMem-refl k)
  | inr out ↦ rw out (pf_rsi-SameButMem address k)
]

put_byte-SameButMem :
    (d address value : ℕ) (k : Kernel)
    → SameButMem k (record k { mem = put_byte d address value k.mem })
unfolding put_byte
put_byte-SameButMem d address value k =
    changed-SameButMem k (put_byte d address value k.mem) k.halted refl

store_byte-SameButMem : (address value : ℕ) (k : Kernel) → SameButMem k (store_byte address value k)
unfolding store_byte
store_byte-SameButMem address value k = go (k.tasks k.current).dir
  where
    go :
        (o : Option ℕ)
        → SameButMem k (elim o [
          | none ↦ halt k
          | some d ↦
              let k' = touch d address k in record k' { mem = put_byte d address value k'.mem }
        ])
    go none = changed-SameButMem k k.mem true refl
    go (some d) =
        SameButMem-trans (touch-SameButMem d address k)
          (put_byte-SameButMem d address value (touch d address k))

pub store_bytes-SameButMem :
    (address : ℕ) (bs : List ℕ) (k : Kernel) → SameButMem k (store_bytes address bs k)
unfolding store_bytes
store_bytes-SameButMem address [] k = SameButMem-refl k
store_bytes-SameButMem address (b ∷ bs) k =
    SameButMem-trans (store_byte-SameButMem address b k)
      (store_bytes-SameButMem (address + 1) bs (store_byte address b k))

-- the `n` addresses from `a` on lie in pages that are there, in the table of the current process
pub record Mapped (a n : ℕ) (k : Kernel) : Type 0 where
  pub dir : ℕ
  pub has : (k.tasks k.current).dir ≡ some dir
  pub there : (b : ℕ) → a ≤ b → b < a + n → (k.mem.page_table dir (page_of b)).present ≡ true

store_byte-Mapped :
    (address value : ℕ) (k : Kernel) (n : ℕ)
    → Mapped address (suc n) k
    → ((store_byte address value k).halted ≡ k.halted)
      × Mapped (address + 1) n (store_byte address value k)
unfolding store_byte touch put_byte
store_byte-Mapped address value k n m =
    let here = m.there address (omega arith) (omega arith) in
    let stored = record k { mem = put_byte m.dir address value k.mem } in
    let e : store_byte address value k ≡ stored =
      (λ i. elim (m.has i) [
        | none ↦ halt k
        | some d ↦ let k' = touch d address k in record k' { mem = put_byte d address value k'.mem }
      ])
      ∙ (rw here) in
    subst (λ j. (j.halted ≡ k.halted) × Mapped (address + 1) n j) (sym e)
      (
        refl,
        record {
          dir = m.dir;
          has = m.has;
          there = λ b lo hi. m.there b (omega arith) (omega arith);
        },
      )

-- Stores to pages that are there halt nothing.
pub store_bytes-Mapped :
    (address : ℕ) (bs : List ℕ) (k : Kernel)
    → Mapped address (length bs) k
    → (store_bytes address bs k).halted ≡ k.halted
unfolding store_bytes
store_bytes-Mapped address [] k m = refl
store_bytes-Mapped address (b ∷ bs) k m =
    let one = store_byte-Mapped address b k (length bs) m in
    store_bytes-Mapped (address + 1) bs (store_byte address b k) one.1 ∙ one.0
