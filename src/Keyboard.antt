-- ===== src/Keyboard.antt =====
-- keyboard.c: the ring of keys typed and not yet read, the keyboard interrupt, and the reading of
-- keys by processes, which block until the keys that they want have been typed.
pub mod Ring
pub mod Reading
use so2_zeos.Prelude.{
  ℕ, zero, suc, ◌+◌, ◌-◌, ◌/◌, ◌%◌, Bool, true, false, ◌&&◌, ◌||◌, not, Option, none, some, List,
  [], ◌∷◌, ◌++◌, ◌==◌, ltb, if◌then◌else◌, get_or, length, update, ℤ, pos, negsuc,
}
use so2_zeos.LinkedList.{Links, init_list_head, list_empty, list_first}
use so2_zeos.Stats.{sys_to_ready, sys_to_blocked, blocked_to_ready}
use so2_zeos.Kernel.{Context, to_user, in_read, Keyboard, Kernel, set_links, update_stats}
use so2_zeos.Kernel.Addresses.{keyboardqueue, list_head_to_task}
use so2_zeos.Faults.{store_bytes}
use so2_zeos.Scheduler.{update_process_state, add_process_to_scheduling, sched_next_rr}

-- `char_map`, as the bytes of keyboard.c
abbrev pub char_map : List ℕ
char_map =
    0 ∷ 0 ∷ b'1' ∷ b'2' ∷ b'3' ∷ b'4' ∷ b'5' ∷ b'6' ∷ b'7' ∷ b'8' ∷ b'9' ∷ b'0' ∷ 0x27 ∷ 0xa1 ∷ 0
    ∷ 0 ∷ b'q' ∷ b'w' ∷ b'e' ∷ b'r' ∷ b't' ∷ b'y' ∷ b'u' ∷ b'i' ∷ b'o' ∷ b'p' ∷ b'`' ∷ b'+' ∷ 0 ∷ 0
    ∷ b'a' ∷ b's' ∷ b'd' ∷ b'f' ∷ b'g' ∷ b'h' ∷ b'j' ∷ b'k' ∷ b'l' ∷ 0xf1 ∷ 0 ∷ 0xba ∷ 0 ∷ 0xe7
    ∷ b'z' ∷ b'x' ∷ b'c' ∷ b'v' ∷ b'b' ∷ b'n' ∷ b'm' ∷ b',' ∷ b'.' ∷ b'-' ∷ 0 ∷ b'*' ∷ 0 ∷ 0 ∷ 0 ∷ 0
    ∷ 0 ∷ 0 ∷ 0 ∷ 0 ∷ 0 ∷ 0 ∷ 0 ∷ 0 ∷ 0 ∷ 0 ∷ 0 ∷ b'7' ∷ b'8' ∷ b'9' ∷ b'-' ∷ b'4' ∷ b'5' ∷ b'6'
    ∷ b'+' ∷ b'1' ∷ b'2' ∷ b'3' ∷ b'0' ∷ 0 ∷ 0 ∷ 0 ∷ b'<' ∷ 0 ∷ 0 ∷ 0 ∷ 0 ∷ 0 ∷ 0 ∷ 0 ∷ 0 ∷ 0 ∷ 0
    ∷ 0 ∷ []

abbrev pub keyboard_buffer_size : ℕ
keyboard_buffer_size = 10

-- `i++; if(i == KEYBOARD_BUFFER_SIZE) i = 0;`
abbrev pub next_index : ℕ → ℕ
next_index i = if (i + 1) == keyboard_buffer_size then 0 else i + 1

-- `buff_from - buff_to == 1` of two indices that are not negative
unfoldable pub is_buffer_full : Keyboard → Bool
is_buffer_full kb =
    (kb.buff_from == (kb.buff_to + 1))
    || ((kb.buff_from == 0) && (kb.buff_to == (keyboard_buffer_size - 1)))

unfoldable pub init_keyboard : Kernel → Kernel
init_keyboard k = set_links (init_list_head keyboardqueue k.links) (record k {
  keyboard = record k.keyboard { buff_from = 0; buff_to = 0; remaining_to_read = pos 0 };
})

-- the write of a key into the ring, which is not full
unfoldable pub put_key : ℕ → Keyboard → Keyboard
put_key key kb = record kb {
  buffer = update kb.buffer kb.buff_to key;
  buff_to = next_index kb.buff_to;
}

-- i - 1
abbrev pub dec : ℤ → ℤ
dec (pos zero) = negsuc 0
dec (pos (suc n)) = pos n
dec (negsuc n) = negsuc (suc n)

-- i <= 0
abbrev pub le_zero : ℤ → Bool
le_zero (pos zero) = true
le_zero (pos (suc n)) = false
le_zero (negsuc n) = true

-- The reader has its keys, or the ring is full: the running process makes way, and the reader goes
-- to the front of the ready queue.
unfoldable pub wake_reader : Kernel → Kernel
wake_reader k =
    let k1 =
      if not (k.current == k.idle_task)
      then add_process_to_scheduling k.current sys_to_ready false k
      else k in
    let reader = list_head_to_task (list_first keyboardqueue k1.links) in
    sched_next_rr to_user (add_process_to_scheduling reader blocked_to_ready true k1)

-- `if(!list_empty(&keyboardqueue)) …`: a key less is wanted
unfoldable pub count_key : Kernel → Kernel
count_key k =
    let kb = record k.keyboard { remaining_to_read = dec k.keyboard.remaining_to_read } in
    let k' = record k { keyboard = kb } in
    if le_zero kb.remaining_to_read || is_buffer_full kb then wake_reader k' else k'

-- `if(!is_buffer_full()) …`
unfoldable pub type_key : ℕ → Kernel → Kernel
type_key key k =
    let k' = record k { keyboard = put_key key k.keyboard } in
    if is_buffer_full k.keyboard
    then k
    else if not (list_empty keyboardqueue k'.links)
    then count_key k'
    else k'

-- `keyboard_routine`; `value` is the scan code that `inb(0x60)` returns.
unfoldable pub keyboard_routine : ℕ → Kernel → Kernel
keyboard_routine value k =
    let position = value % 128 in
    if ((value / 128) == 0) && ltb position 98 then type_key (get_or char_map position 0) k else k

unfoldable pub block_in_read : Bool → Context → Kernel → Kernel
block_in_read first ctx k =
    let k1 = update_process_state k.current keyboardqueue first k in
    sched_next_rr ctx (update_stats k1.current sys_to_blocked k1)

-- The keys that are read and the ring that is left; the loop runs `size` times at most.
unfoldable pub read_from_keyboard_buffer : ℕ → Keyboard → List ℕ × Keyboard
read_from_keyboard_buffer zero kb = ([], kb)
read_from_keyboard_buffer (suc size) kb =
    let rest = read_from_keyboard_buffer size (record kb { buff_from = next_index kb.buff_from }) in
    if kb.buff_from == kb.buff_to then ([], kb) else (kb.buffer kb.buff_from ∷ rest.0, rest.1)

-- The test of `while(size > 0)`, with `got` in the user's buffer: the loop blocks or is done. The
-- result is what is returned and what stands in the buffer.
unfoldable pub read_step : (buffer total size : ℕ) → List ℕ → Kernel → Kernel × Option (ℕ × List ℕ)
read_step buffer total size got k =
    if ltb 0 size
    then (
      block_in_read true (in_read buffer total size got)
          (record k { keyboard = record k.keyboard { remaining_to_read = pos size } }),
      none,
    )
    else (k, some (total, got))

-- `size -= read_from_keyboard_buffer(&buffer[total_size - size], size);`, with the keys stored in the
-- user's memory, and the loop again
unfoldable pub read_on : (buffer total size : ℕ) → List ℕ → Kernel → Kernel × Option (ℕ × List ℕ)
unfolding read_step
read_on buffer total size got k =
    let (keys, kb) = read_from_keyboard_buffer size k.keyboard in
    let k' = store_bytes (buffer + (total - size)) keys (record k { keyboard = kb }) in
    read_step buffer total (size - length keys) (got ++ keys) k'

-- `none` is that the caller has lost the CPU; it goes on by `read_on`, as its context says.
unfoldable pub sys_read_keyboard : (buffer size : ℕ) → Kernel → Kernel × Option (ℕ × List ℕ)
unfolding read_on
sys_read_keyboard buffer size k =
    if not (list_empty keyboardqueue k.links)
    then (block_in_read false (in_read buffer size size []) k, none)
    else read_on buffer size size [] k
