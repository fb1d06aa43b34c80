-- ===== src/Main/Ready.antt =====
-- What holds when `main` enters user mode.
use so2_zeos.Prelude.{ℕ, ◌+◌, ◌-◌, ◌*◌, ◌%◌, ◌≤◌, ◌<◌, ◌≡◌, Bool, true, false, some}
use so2_zeos.Memory.{num_pag_kernel, num_pag_data, pag_log_init_code, pag_log_init_data}
use so2_zeos.LinkedList.Queues.{open_list}
use so2_zeos.Kernel.Addresses.{keyboardqueue}
use so2_zeos.Faults.{page_of}
use so2_zeos.Interrupts.Gates.{handler_of, level_of}
use so2_zeos.Segments.TaskSegment.{base_of, entry_of}
use so2_zeos.Directories.UserPages.{IsUser}
use so2_zeos.Boot.Views.{running_view}
use so2_zeos.System.Shape.{Sound}
use so2_zeos.Main.{Machine, UserEntry, Layout}

-- the privilege level that a selector asks for
abbrev pub requested_level : ℕ → ℕ
requested_level selector = selector % 4

-- The frame of a user page: the frames of the first process are the first even ones that are not the
-- kernel's, one for each page of code and data.
abbrev pub frame_for : ℕ → ℕ
frame_for page = num_pag_kernel + 2 * (page - pag_log_init_code)

-- the machine and the jump when user mode begins; `hung` is what the kernel was before
abbrev pub IsReady : Layout → (hung : Bool) → Machine → UserEntry → Type 0
IsReady at hung m u =
    Sound m.kernel (open_list keyboardqueue running_view)
    × (m.kernel.hung ≡ hung)
    × (base_of (m.gdt (entry_of m.task_register)) ≡ at.tss)
    × (m.tss.esp0 ≡ at.kernel_esp m.kernel.current)
    × (requested_level m.tss.ss0 ≡ 0)
    × (handler_of (m.idt 0x80) ≡ at.entries.system_call_handler)
    × (level_of (m.idt 0x80) ≡ 3)
    × (handler_of (m.idt 14) ≡ at.entries.pf_handler)
    × (level_of (m.idt 14) ≡ 0)
    × (handler_of (m.idt 32) ≡ at.entries.clock_handler)
    × (level_of (m.idt 32) ≡ 0)
    × (handler_of (m.idt 33) ≡ at.entries.keyboard_handler)
    × (level_of (m.idt 33) ≡ 0)
    × (requested_level u.cs ≡ 3)
    × (requested_level u.ss ≡ 3)
    × (d : ℕ) × ((m.kernel.tasks m.kernel.current).dir ≡ some d)
    × IsUser false (m.kernel.mem.page_table d (page_of u.eip))
    × IsUser true (m.kernel.mem.page_table d (page_of (u.esp - 1)))
    × ((p : ℕ)
        → pag_log_init_code ≤ p
        → p < pag_log_init_data + num_pag_data
        → (m.kernel.mem.page_table d p).pbase_addr ≡ frame_for p)
