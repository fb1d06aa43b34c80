-- ===== src/CopyData/Copied.antt =====
-- `copy_data` copies, also between ranges that overlap downwards.
use so2_zeos.Prelude.{
  ℕ, zero, suc, ◌+◌, ◌-◌, ◌≤◌, ◌<◌, ◌≡◌, ◌⊎◌, inl, inr, ◌&&◌, ltb, leb, if◌then◌else◌, arith,
  Bool-cases, update,
}
use so2_zeos.CopyData.{copy_dword, copy_bytes, copy_dwords, copy_data}

-- the memory after `size` bytes have been moved from `p` to `q` at once
abbrev pub moved : ℕ → ℕ → ℕ → (ℕ → ℕ) → ℕ → ℕ
moved size p q mem a = if leb q a && ltb a (q + size) then mem (p + (a - q)) else mem a

-- where a forward copy is right: the target begins at or below the source, or behind its end
abbrev pub Apart : ℕ → ℕ → ℕ → Type 0
Apart size p q = (q ≤ p) ⊎ (p + size ≤ q)

copy_bytes-moved :
    (size p q : ℕ) (mem : ℕ → ℕ)
    → Apart size p q
    → (a : ℕ) → copy_bytes size p q mem a ≡ moved size p q mem a
unfolding copy_bytes
copy_bytes-moved zero p q mem apart a = ground arith
copy_bytes-moved (suc size) p q mem apart a =
    ground (arith, copy_bytes-moved size (p + 1) (q + 1) (update mem q (mem p)) (omega arith) a)

copy_dwords-moved :
    (rounds size p q : ℕ) (mem : ℕ → ℕ)
    → Apart size p q
    → (a : ℕ) → copy_dwords rounds size p q mem a ≡ moved size p q mem a
unfolding copy_dwords
copy_dwords-moved zero size p q mem apart a = copy_bytes-moved size p q mem apart a
copy_dwords-moved (suc rounds) size p q mem apart a = elim (Bool-cases (ltb 4 size)) [
  | inl more ↦
      let four : 4 < size = ground arith in
      rw more (
        ground (
          arith,
          copy_dwords-moved rounds (size - 4) (p + 4) (q + 4) (copy_dword p q mem) (omega arith) a,
        ))
  | inr few ↦ rw few (copy_bytes-moved size p q mem apart a)
]

-- If the target begins at or below the source, or behind its end, every byte of the target holds
-- after `copy_data` what the byte of the source held before, and all other memory is unchanged.
pub copy_data-moved :
    (start dest size : ℕ) (mem : ℕ → ℕ)
    → Apart size start dest
    → (a : ℕ) → copy_data start dest size mem a ≡ moved size start dest mem a
unfolding copy_data
copy_data-moved start dest size mem apart a = copy_dwords-moved size size start dest mem apart a
