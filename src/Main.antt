-- ===== src/Main.antt =====
-- system.c: `main`, from the tables of the processor to the jump into user mode. The flags and the
-- segment registers, the messages, the moving of the user image and the mask of the interrupts are
-- not modelled. `set_handlers` and `zeos_init_auxjp` are not under src/ and are arguments.
pub mod Ready
use so2_zeos.Prelude.{ℕ}
use so2_zeos.Kernel.{Kernel}
use so2_zeos.Interrupts.{Register, Idt, EntryPoints, set_idt}
use so2_zeos.Segments.{Gdt, Tss, set_gdt, set_tss, user_cs, user_ds, user_esp, l_user_start}
use so2_zeos.Boot.{boot}

-- the kernel, the tables of the processor, and the registers that hold where they are
pub record Machine : Type 0 where
  pub kernel : Kernel
  pub gdt : Gdt
  pub gdt_register : Register
  pub idt : Idt
  pub idt_register : Register
  pub tss : Tss
  pub task_register : ℕ

-- the arguments of `return_gate`: where user mode begins
pub record UserEntry : Type 0 where
  pub ds : ℕ
  pub ss : ℕ
  pub esp : ℕ
  pub cs : ℕ
  pub eip : ℕ

-- what the linker fixes: the entry points, the TSS, the end of the stack of each task
-- (`KERNEL_ESP`), and the pages before and behind the tasks
pub record Layout : Type 0 where
  pub entries : EntryPoints
  pub tss : ℕ
  pub kernel_esp : ℕ → ℕ
  pub low : ℕ
  pub high : ℕ

-- `setTSS` sets `esp0` to INITIAL_ESP, the end of the stack of task 1; `update_TSS` sets it again.
unfoldable pub main :
    (set_handlers : Idt → Idt) (zeos_init_auxjp : Machine → Machine)
    → Layout
    → Machine
    → Machine × UserEntry
main set_handlers zeos_init_auxjp at m =
    let (gdt, gdt_register) = set_gdt at.tss m.gdt in
    let (idt, idt_register) = set_idt set_handlers at.entries m.idt in
    let (tss, task_register) = set_tss (at.kernel_esp 1) in
    let kernel = boot at.low at.high m.kernel in
    (
      zeos_init_auxjp (record {
        kernel = kernel;
        gdt = gdt;
        gdt_register = gdt_register;
        idt = idt;
        idt_register = idt_register;
        tss = record tss { esp0 = at.kernel_esp kernel.esp0 };
        task_register = task_register;
      }),
      record { ds = user_ds; ss = user_ds; esp = user_esp; cs = user_cs; eip = l_user_start },
    )
