-- ===== src/Interrupts/Gates.antt =====
-- What the processor reads from the gates that `set_idt` writes.
use so2_zeos.Prelude.{ℕ, ◌+◌, ◌*◌, ◌/◌, ◌%◌, ◌^◌, ◌<◌, ◌≡◌, ◌≢◌, refl, arith}
use so2_zeos.Interrupts.{Gate, Idt, EntryPoints, set_interrupt_handler, set_trap_handler, set_idt}

-- the 32-bit address of a gate's handler
abbrev pub handler_of : Gate → ℕ
handler_of g = g.low_offset + 2 ^ 16 * g.high_offset

-- the DPL: the least privileged level that may use the gate
abbrev pub level_of : Gate → ℕ
level_of g = (g.flags / 2 ^ 13) % 4

-- the entry points are 32-bit addresses
abbrev pub IsAddresses : EntryPoints → Type 0
IsAddresses e =
    (e.pf_handler < 2 ^ 32)
    × (e.clock_handler < 2 ^ 32)
    × (e.keyboard_handler < 2 ^ 32)
    × (e.system_call_handler < 2 ^ 32)

halves : (a : ℕ) → a < 2 ^ 32 → (a % 2 ^ 16) + 2 ^ 16 * ((a / 2 ^ 16) % 2 ^ 16) ≡ a
halves a h = omega arith

-- With 32-bit entry points and whatever `set_handlers` does: the gates of the page fault, the clock,
-- the keyboard and the system call lead to their entry points, user mode may use only that of the
-- system call, and every other gate is what `set_handlers` made it.
pub set_idt-gates :
    (set_handlers : Idt → Idt) (e : EntryPoints) (idt : Idt)
    → IsAddresses e
    → let t = (set_idt set_handlers e idt).0 in
      (handler_of (t 14) ≡ e.pf_handler)
      × (handler_of (t 32) ≡ e.clock_handler)
      × (handler_of (t 33) ≡ e.keyboard_handler)
      × (handler_of (t 0x80) ≡ e.system_call_handler)
      × (level_of (t 14) ≡ 0)
      × (level_of (t 32) ≡ 0)
      × (level_of (t 33) ≡ 0)
      × (level_of (t 0x80) ≡ 3)
      × ((v : ℕ) → v ≢ 14 → v ≢ 32 → v ≢ 33 → v ≢ 0x80 → t v ≡ set_handlers idt v)
unfolding set_idt set_interrupt_handler set_trap_handler
set_idt-gates set_handlers e idt (p, c, k, s) = (
  halves e.pf_handler p,
  halves e.clock_handler c,
  halves e.keyboard_handler k,
  halves e.system_call_handler s,
  refl,
  refl,
  refl,
  refl,
  λ v a b d f. ground arith,
)
