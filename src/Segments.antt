-- ===== src/Segments.antt =====
-- mm.c: the segment descriptor of the TSS, and the TSS; the selectors of include/segment.h. The
-- table itself is in bootsect.S and is an argument, as are the addresses that the linker gives. What
-- is loaded into the registers by `set_gdt_reg` and `set_task_reg` is returned.
pub mod TaskSegment
use so2_zeos.Prelude.{ℕ, ◌+◌, ◌-◌, ◌*◌, ◌/◌, ◌%◌, ◌^◌, update}
use so2_zeos.Memory.{num_pag_code, num_pag_data}
use so2_zeos.Interrupts.{Register, low_word}

-- `Descriptor` of include/types.h
pub record Descriptor : Type 0 where
  pub limit : ℕ
  pub low_base : ℕ
  pub mid_base : ℕ
  pub flags1 : ℕ
  pub flags2 : ℕ
  pub high_base : ℕ

abbrev pub Gdt : Type 0
Gdt = ℕ → Descriptor

abbrev pub mid_byte : ℕ → ℕ
mid_byte address = (address / 2 ^ 16) % 2 ^ 8

abbrev pub high_byte : ℕ → ℕ
high_byte address = (address / 2 ^ 24) % 2 ^ 8

abbrev pub kernel_ds : ℕ
kernel_ds = 0x18

abbrev pub user_cs : ℕ
user_cs = 0x23

abbrev pub user_ds : ℕ
user_ds = 0x2b

abbrev pub kernel_tss : ℕ
kernel_tss = 0x30

abbrev pub gdt_start : ℕ
gdt_start = 0x901b3

abbrev pub l_user_start : ℕ
l_user_start = 0x100000

abbrev pub user_esp : ℕ
user_esp = l_user_start + (num_pag_code + num_pag_data) * 0x1000 - 16

abbrev pub initial_eflags : ℕ
initial_eflags = 0x200

-- the entry of the table that `KERNEL_TSS` selects
abbrev pub tss_entry : ℕ
tss_entry = kernel_tss / 2 ^ 3

-- `setGdt`: the table, and what `set_gdt_reg` loads; `tss` is the address of the TSS
unfoldable pub set_gdt : (tss : ℕ) → Gdt → Gdt × Register
set_gdt tss gdt = (
  update gdt tss_entry (record (gdt tss_entry) {
    low_base = low_word tss;
    mid_base = mid_byte tss;
    high_base = high_byte tss;
  }),
  record { limit = 256 * 8; base = gdt_start },
)

-- `TSS` of include/types.h, less the words between its fields
pub record Tss : Type 0 where
  pub previous_task_link : ℕ
  pub esp0 : ℕ
  pub ss0 : ℕ
  pub esp1 : ℕ
  pub ss1 : ℕ
  pub esp2 : ℕ
  pub ss2 : ℕ
  pub cr3 : ℕ
  pub eip : ℕ
  pub e_flags : ℕ
  pub eax : ℕ
  pub ecx : ℕ
  pub edx : ℕ
  pub ebx : ℕ
  pub esp : ℕ
  pub ebp : ℕ
  pub esi : ℕ
  pub edi : ℕ
  pub es : ℕ
  pub cs : ℕ
  pub ss : ℕ
  pub ds : ℕ
  pub fs : ℕ
  pub gs : ℕ
  pub ldt_segment_selector : ℕ
  pub debug_trap : ℕ
  pub io_map_base_address : ℕ

-- `setTSS`: the TSS, and what `set_task_reg` loads; `initial_esp` is the end of the stack of task 1
unfoldable pub set_tss : (initial_esp : ℕ) → Tss × ℕ
set_tss initial_esp = (
  record {
    previous_task_link = 0;
    esp0 = initial_esp;
    ss0 = kernel_ds;
    esp1 = 0;
    ss1 = 0;
    esp2 = 0;
    ss2 = 0;
    cr3 = 0;
    eip = 0;
    e_flags = initial_eflags;
    eax = 0;
    ecx = 0;
    edx = 0;
    ebx = 0;
    esp = user_esp;
    ebp = user_esp;
    esi = 0;
    edi = 0;
    es = user_ds;
    cs = user_cs;
    ss = user_ds;
    ds = user_ds;
    fs = 0;
    gs = 0;
    ldt_segment_selector = kernel_tss;
    debug_trap = 0;
    io_map_base_address = 0;
  },
  kernel_tss,
)
