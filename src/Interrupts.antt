-- ===== src/Interrupts.antt =====
-- interrupt.c: the gates of the interrupt descriptor table. `set_handlers`, which fills in the
-- exceptions, is not under src/ and is an argument; so are the addresses of the entry points.
pub mod Gates
use so2_zeos.Prelude.{ℕ, ◌+◌, ◌-◌, ◌*◌, ◌/◌, ◌%◌, ◌^◌, update}

-- include/types.h
pub record Gate : Type 0 where
  pub low_offset : ℕ
  pub segment_selector : ℕ
  pub flags : ℕ
  pub high_offset : ℕ

pub record Register : Type 0 where
  pub limit : ℕ
  pub base : ℕ

abbrev pub Idt : Type 0
Idt = ℕ → Gate

abbrev pub idt_entries : ℕ
idt_entries = 256

abbrev pub kernel_cs : ℕ
kernel_cs = 0x10

abbrev pub low_word : ℕ → ℕ
low_word address = address % 2 ^ 16

abbrev pub high_word : ℕ → ℕ
high_word address = (address / 2 ^ 16) % 2 ^ 16

-- `(Word)(level << 13)`, and then `|= 0x8E00`, which sets the bits 15, 11, 10 and 9 of a word
-- whose other bits than 13 and 14 are 0 or bit 15
abbrev pub gate_flags : ℕ → ℕ
gate_flags level = (level * 2 ^ 13) % 2 ^ 15 + 0x8E00

unfoldable pub set_interrupt_handler : (vector handler level : ℕ) → Idt → Idt
set_interrupt_handler vector handler level idt = update idt vector (record {
  low_offset = low_word handler;
  segment_selector = kernel_cs;
  flags = gate_flags level;
  high_offset = high_word handler;
})

-- It makes an interrupt gate too.
unfoldable pub set_trap_handler : (vector handler level : ℕ) → Idt → Idt
set_trap_handler vector handler level idt = update idt vector (record {
  low_offset = low_word handler;
  segment_selector = kernel_cs;
  flags = gate_flags level;
  high_offset = high_word handler;
})

-- the addresses of the entry points and of `idt`
pub record EntryPoints : Type 0 where
  pub pf_handler : ℕ
  pub clock_handler : ℕ
  pub keyboard_handler : ℕ
  pub system_call_handler : ℕ
  pub idt_address : ℕ

-- `setIdt`: the table, and the register that `set_idt_reg` loads
unfoldable pub set_idt : (set_handlers : Idt → Idt) → EntryPoints → Idt → Idt × Register
unfolding set_interrupt_handler set_trap_handler
set_idt set_handlers e idt =
    let idt1 = set_interrupt_handler 14 e.pf_handler 0 (set_handlers idt) in
    let idt2 = set_interrupt_handler 32 e.clock_handler 0 idt1 in
    let idt3 = set_interrupt_handler 33 e.keyboard_handler 0 idt2 in
    (
      set_trap_handler 0x80 e.system_call_handler 3 idt3,
      record { limit = idt_entries * 8 - 1; base = e.idt_address % 2 ^ 32 },
    )
