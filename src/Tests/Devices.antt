-- ===== src/Tests/Devices.antt =====
-- mm.c, keyboard.c, io.c: the theorems at concrete states.
use so2_zeos.Prelude.{
  ℕ, ◌+◌, ◌-◌, ◌%◌, ◌≡◌, ◌≢◌, ◌↔◌, ◌≤◌, ◌<◌, inl, refl, true, false, ◌&&◌, ◌||◌, none, some, [],
  ◌∷◌, ◌++◌, ◌==◌, if◌then◌else◌, arith, update, drop, take, leb, pos,
}
use so2_zeos.Memory.{
  Memory, no_entry, num_pag_kernel, total_pages, free_frame_mark, alloc_frame, find_frame,
  free_frame, mark_frame, share_cow_page,
}
use so2_zeos.Memory.Frames.{
  alloc_frame-takes, alloc_frame-none, free_frame-alloc_frame, free_frame-counts,
}
use so2_zeos.Memory.Sharing.{writable, read_only, window, share_cow_page_lem}
use so2_zeos.AccessOk.{access_ok, check_pages, verify_write}
use so2_zeos.Faults.{pf_rsi}
use so2_zeos.Faults.Handled.{Fatal, pf_rsi-shared, pf_rsi-halted_iff}
use so2_zeos.Kernel.{Kernel}
use so2_zeos.Scheduler.Consistent.{Consistent}
use so2_zeos.Keyboard.{is_buffer_full, put_key, read_from_keyboard_buffer}
use so2_zeos.Keyboard.Ring.{IsValid, keys, put_key-keys, read_from_keyboard_buffer-keys}
use so2_zeos.Console.{Console, printk, sys_write, write_all}
use so2_zeos.Console.Cursor.{OnScreen, place, text_shown, printk-OnScreen}
use so2_zeos.Console.Writing.{
  bytes_at, total_printed, sys_write_lem, sys_write-checks, checked, pos_part,
}
use so2_zeos.Tests.Machine.{kernel, keyboard, memory}

first_frame : alloc_frame memory ≡ some (256, mark_frame 256 memory)
unfolding alloc_frame find_frame
first_frame = refl

alloc_frame-takes_example :
    let m' = mark_frame 256 memory in
    (num_pag_kernel ≤ 256)
    × (256 < total_pages)
    × (256 % 2 ≡ 0)
    × (memory.phys_mem 256 ≡ free_frame_mark)
    × (m'.phys_mem 256 ≢ free_frame_mark)
    × (m'.cow_count_mem 256 ≡ 0)
    × ((g : ℕ)
        → g ≢ 256
        → (m'.phys_mem g ≡ memory.phys_mem g) × (m'.cow_count_mem g ≡ memory.cow_count_mem g))
    × (m'.page_table ≡ memory.page_table)
    × (m'.dir_count ≡ memory.dir_count)
    × (m'.frame_data ≡ memory.frame_data)
alloc_frame-takes_example = alloc_frame-takes memory (mark_frame 256 memory) 256 first_frame

free_frame-alloc_frame_example : (free_frame 256 (mark_frame 256 memory)).phys_mem ≡ memory.phys_mem
free_frame-alloc_frame_example =
    free_frame-alloc_frame memory (mark_frame 256 memory) 256 first_frame

-- every frame in use
abbrev full_memory : Memory
full_memory = record memory { phys_mem = λ f. 1 }

no_frame : alloc_frame full_memory ≡ none
unfolding alloc_frame find_frame
no_frame = refl

alloc_frame-none_example : full_memory.phys_mem 300 ≢ free_frame_mark
alloc_frame-none_example =
    alloc_frame-none full_memory no_frame 300 (omega arith) (omega arith) (omega arith)

-- pages of directories 0 and 1 in one frame, or in frame 258 for directory 0 alone
abbrev shared_memory : ℕ → Memory
shared_memory n = record memory {
  phys_mem = update memory.phys_mem 258 1;
  cow_count_mem = update memory.cow_count_mem 258 n;
  page_table = λ d p. read_only 258;
}

free_frame-counts_example :
    ((free_frame 258 (shared_memory 2)).cow_count_mem
      ≡ update (shared_memory 2).cow_count_mem 258 ((2 + 255) % 256))
    × ((free_frame 258 (shared_memory 2)).phys_mem
        ≡ update (shared_memory 2).phys_mem 258 (if leb 2 2 then 1 else free_frame_mark))
free_frame-counts_example =
    free_frame-counts 258 (shared_memory 2) (omega arith) (omega arith) (omega arith)

-- directory 0 has its page 264 in frame 258
abbrev mapped : Memory
mapped = record memory {
  page_table = λ d p. if (d == 0) && (p == 264) then writable 258 else no_entry;
}

share_cow_page_lem_example :
    let m' = share_cow_page 0 1 264 mapped in
    ((d p : ℕ)
      → m'.page_table d p
        ≡ (if (p == 264) && ((d == 0) || (d == 1)) then read_only 258 else mapped.page_table d p))
    × (m'.cow_count_mem ≡ update mapped.cow_count_mem 258 (if 0 == 0 then 2 else 0 + 1))
    × (m'.phys_mem ≡ mapped.phys_mem)
    × (m'.frame_data ≡ mapped.frame_data)
share_cow_page_lem_example =
    share_cow_page_lem 0 1 264 258 true mapped (omega arith) (omega arith) refl (omega arith)

-- task 1 with directory 0, and with the memory above
abbrev faulting : ℕ → Kernel
faulting n = record kernel {
  mem = shared_memory n;
  tasks = λ t. record (kernel.tasks t) { dir = some 0 };
}

abbrev one_less : Memory
one_less = record (shared_memory 2) {
  cow_count_mem = update (shared_memory 2).cow_count_mem 258 (2 - 1);
}

first_frame_again : alloc_frame one_less ≡ some (256, mark_frame 256 one_less)
unfolding alloc_frame find_frame
first_frame_again = refl

-- the address 0x108004 is in page 264
may_write : access_ok verify_write 0x108004 1 0x1fffff ≡ true
unfolding access_ok check_pages
may_write = refl

pf_rsi-shared_example :
    (m' : Memory) × (pf_rsi 0x108004 (faulting 2) ≡ record (faulting 2) { mem = m' })
    × (◌≢◌ {A = ℕ} 256 258)
    × (m'.frame_data 256 ≡ (shared_memory 2).frame_data 258)
    × (m'.frame_data 258 ≡ (shared_memory 2).frame_data 258)
    × (m'.cow_count_mem 258 ≡ 2 - 1)
    × (m'.cow_count_mem 256 ≡ 0)
    × ((c p : ℕ)
        → m'.page_table c p ≡ (
            if c == 0
            then (if p == 264
                then writable 256
                else if p == window
                then no_entry
                else read_only 258)
            else read_only 258))
pf_rsi-shared_example =
    pf_rsi-shared 0x108004 0 258 256 (faulting 2) (mark_frame 256 one_less) refl may_write
      (omega arith) (omega arith) (omega arith) refl (omega arith) first_frame_again

pf_rsi-halted_iff_example :
    ((pf_rsi 0x108004 (faulting 1)).halted ≡ true) ↔ Fatal 0x108004 0 (faulting 1)
pf_rsi-halted_iff_example = pf_rsi-halted_iff 0x108004 0 (faulting 1) refl refl

keyboard-IsValid : IsValid keyboard
keyboard-IsValid = omega arith

not_full : is_buffer_full keyboard ≡ false
unfolding is_buffer_full
not_full = refl

put_key-keys_example :
    IsValid (put_key 90 keyboard) × (keys (put_key 90 keyboard) ≡ keys keyboard ++ (90 ∷ []))
put_key-keys_example = put_key-keys keyboard 90 (omega arith) not_full

read_from_keyboard_buffer-keys_example :
    let (read, kb') = read_from_keyboard_buffer 2 keyboard in
    (read ≡ take 2 (keys keyboard)) × (keys kb' ≡ drop 2 (keys keyboard)) × IsValid kb'
read_from_keyboard_buffer-keys_example = read_from_keyboard_buffer-keys 2 keyboard (omega arith)

abbrev screen : Console
screen = record { x = 79; y = 24; video = λ a. 0; port = [] }

printk-OnScreen_example :
    OnScreen (printk (72 ∷ 105 ∷ 10 ∷ []) screen)
    × ((printk (72 ∷ 105 ∷ 10 ∷ []) screen).video 0xb7fff ≡ screen.video 0xb7fff)
printk-OnScreen_example =
    printk-OnScreen (72 ∷ 105 ∷ 10 ∷ []) 0xb7fff screen (omega arith) (inl (omega arith))

sys_write_lem_example :
    let text = bytes_at (λ a. a) 1000 (total_printed 300) in
    (s' : Console) × (sys_write (λ a. true) (λ a. a) (pos 1) 1000 (pos 300) screen
      ≡ some (s', pos 300))
    × (s'.port ≡ [] ++ text)
    × (s'.video ≡ text_shown text (place screen) screen.video)
    × OnScreen s'
sys_write_lem_example =
    sys_write_lem (λ a. true) (λ a. a) 1000 300 screen (omega arith) (omega arith) (λ a lo hi. refl)

sys_write-checks_example :
    sys_write (λ a. true) (λ a. a) (pos 0) 1000 (pos 3) screen
    ≡ checked
        (pos 0)
        1000
        (pos 3)
        screen
        (write_all (λ a. true) (λ a. a) 1000 (pos_part (pos 3)) screen)
sys_write-checks_example = sys_write-checks (λ a. true) (λ a. a) (pos 0) 1000 (pos 3) screen
