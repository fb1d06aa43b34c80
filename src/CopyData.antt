-- ===== src/CopyData.antt =====
-- utils.c: `copy_data`, and `copy_from_user` and `copy_to_user`, which copy in the same way and
-- return 0. Memory is a function of the address; addresses do not wrap around.
pub mod Copied
use so2_zeos.Prelude.{ℕ, zero, suc, ◌+◌, ◌-◌, Bool, ◌&&◌, ltb, leb, if◌then◌else◌, update, ℤ, pos}

-- `*q = *p` of a DWord
abbrev pub copy_dword : ℕ → ℕ → (ℕ → ℕ) → ℕ → ℕ
copy_dword p q mem a = if leb q a && ltb a (q + 4) then mem (p + (a - q)) else mem a

-- the second loop
unfoldable pub copy_bytes : ℕ → ℕ → ℕ → (ℕ → ℕ) → ℕ → ℕ
copy_bytes zero p q mem = mem
copy_bytes (suc size) p q mem = copy_bytes size (p + 1) (q + 1) (update mem q (mem p))

-- The first loop, `while(size > 4)`, and then the second; the fuel bounds its rounds.
unfoldable pub copy_dwords : ℕ → ℕ → ℕ → ℕ → (ℕ → ℕ) → ℕ → ℕ
unfolding copy_bytes
copy_dwords zero size p q mem = copy_bytes size p q mem
copy_dwords (suc rounds) size p q mem =
    let rest = copy_dwords rounds (size - 4) (p + 4) (q + 4) (copy_dword p q mem) in
    if ltb 4 size then rest else copy_bytes size p q mem

unfoldable pub copy_data : (start dest size : ℕ) → (ℕ → ℕ) → ℕ → ℕ
unfolding copy_dwords
copy_data start dest size mem = copy_dwords size size start dest mem

unfoldable pub copy_from_user : (start dest size : ℕ) → (ℕ → ℕ) → (ℕ → ℕ) × ℤ
copy_from_user start dest size mem = (copy_dwords size size start dest mem, pos 0)

unfoldable pub copy_to_user : (start dest size : ℕ) → (ℕ → ℕ) → (ℕ → ℕ) × ℤ
copy_to_user start dest size mem = (copy_dwords size size start dest mem, pos 0)
