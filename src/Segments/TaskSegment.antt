-- ===== src/Segments/TaskSegment.antt =====
-- What the processor reads of the TSS through the registers that the kernel loads.
use so2_zeos.Prelude.{ℕ, ◌+◌, ◌*◌, ◌/◌, ◌%◌, ◌^◌, ◌≤◌, ◌<◌, ◌≡◌, ◌≢◌, refl, arith}
use so2_zeos.Segments.{Descriptor, Gdt, set_gdt, set_tss}

-- the 32-bit base address of a segment
abbrev pub base_of : Descriptor → ℕ
base_of d = d.low_base + 2 ^ 16 * d.mid_base + 2 ^ 24 * d.high_base

-- the entry of the table that a selector chooses
abbrev pub entry_of : ℕ → ℕ
entry_of selector = selector / 2 ^ 3

pieces :
    (a : ℕ)
    → a < 2 ^ 32
    → (a % 2 ^ 16) + 2 ^ 16 * ((a / 2 ^ 16) % 2 ^ 8) + 2 ^ 24 * ((a / 2 ^ 24) % 2 ^ 8) ≡ a
pieces a h = omega arith

-- With the TSS at a 32-bit address: the entry of the descriptor table that `setTSS` selects lies
-- within the limit that `setGdt` loads, its segment starts at the TSS, its limit and flags are what
-- they were, and so is every other entry.
pub set_gdt-set_tss :
    (tss initial_esp : ℕ) (gdt : Gdt)
    → tss < 2 ^ 32
    → let (t, r) = set_gdt tss gdt in
      let n = entry_of (set_tss initial_esp).1 in
      (n * 8 + 8 ≤ r.limit)
      × (base_of (t n) ≡ tss)
      × ((t n).limit ≡ (gdt n).limit)
      × ((t n).flags1 ≡ (gdt n).flags1)
      × ((t n).flags2 ≡ (gdt n).flags2)
      × ((m : ℕ) → m ≢ n → t m ≡ gdt m)
unfolding set_gdt set_tss
set_gdt-set_tss tss initial_esp gdt h =
    (omega arith, pieces tss h, refl, refl, refl, λ m ne. ground arith)
