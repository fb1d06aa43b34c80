-- ===== src/Kernel/Addresses.antt =====
-- The addresses of the kernel's `list_head`s, told apart by numbers, and `list_entry`.
use so2_zeos.Prelude.{ℕ, ◌+◌, ◌-◌}
use so2_zeos.LinkedList.{Ptr}

abbrev pub free_queue : Ptr
free_queue = 1

abbrev pub readyqueue : Ptr
readyqueue = 2

abbrev pub keyboardqueue : Ptr
keyboardqueue = 3

abbrev pub free_dirs : Ptr
free_dirs = 4

-- `&tasks[t].task.anchor`
abbrev pub anchor : ℕ → Ptr
anchor t = 100 + t

-- `&tasks[t].task.semaphores`
abbrev pub owned_semaphores : ℕ → Ptr
owned_semaphores t = 200 + t

-- `&semaphores[n].anchor`
abbrev pub sem_anchor : ℕ → Ptr
sem_anchor n = 300 + n

-- `&semaphores[n].blocked`
abbrev pub sem_blocked : ℕ → Ptr
sem_blocked n = 400 + n

-- `&dir_status[i].anchor`
abbrev pub dir_anchor : ℕ → Ptr
dir_anchor i = 500 + i

-- `list_head_to_task_struct`: the macro `list_entry` subtracts the member's offset.
abbrev pub list_head_to_task : Ptr → ℕ
list_head_to_task p = p - 100

-- `list_entry(p, struct semaphore, anchor) - &semaphores[0]`
abbrev pub list_head_to_semaphore : Ptr → ℕ
list_head_to_semaphore p = p - 300

-- `list_entry(p, struct dir_info, anchor)->pos`
abbrev pub list_head_to_dir : Ptr → ℕ
list_head_to_dir p = p - 500
