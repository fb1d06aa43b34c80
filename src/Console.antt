-- ===== src/Console.antt =====
-- io.c and devices.c: the text screen, and `sys_write` of sys.c, which prints to it.
-- `video` is memory by byte addresses, with the screen at 0xb8000; `port` is what has been sent to
-- the debug port 0xe9.
pub mod Cursor
pub mod Writing
use Prim.Native.Nat.{bit_or}
use so2_zeos.Prelude.{
  ℕ, zero, suc, ◌+◌, ◌*◌, ◌/◌, ◌%◌, Bool, true, false, ◌&&◌, ◌||◌, not, List, [], ◌∷◌, ◌++◌, ◌==◌,
  ltb, leb, if◌then◌else◌, update, ℤ, pos, negsuc, neg, is_neg, int_eq, Option, none, some,
}

pub record Console : Type 0 where
  pub x : ℕ
  pub y : ℕ
  pub video : ℕ → ℕ
  pub port : List ℕ

abbrev pub num_columns : ℕ
num_columns = 80

abbrev pub num_rows : ℕ
num_rows = 25

-- the address of a cell
abbrev pub cell : ℕ → ℕ → ℕ
cell x y = 0xb8000 + (y * num_columns + x) * 2

abbrev pub new_line : Console → Console
new_line s = record s { x = 0; y = (s.y + 1) % num_rows }

-- `if(++x >= NUM_COLUMNS) …`; x is a byte.
abbrev pub advance : Console → Console
advance s =
    let x' = (s.x + 1) % 256 in if leb num_columns x' then new_line s else record s { x = x' }

-- the character with its colour: `(Word) (c & 0x00FF) | 0x0200`
abbrev pub coloured : ℕ → ℕ
coloured c = bit_or (c % 256) 0x0200

-- `movw`: the two bytes of a word, the low one first
abbrev pub put_word : ℕ → ℕ → (ℕ → ℕ) → ℕ → ℕ
put_word address w video = update (update video address (w % 256)) (address + 1) ((w / 256) % 256)

unfoldable pub printc : ℕ → Console → Console
printc c s =
    let s' = record s { port = s.port ++ (c ∷ []) } in
    if c == b'\n'
    then new_line s'
    else let s2 = advance s' in record s2 { video = put_word (cell s.x s.y) (coloured c) s.video }

unfoldable pub printc_xy : ℕ → ℕ → ℕ → Console → Console
printc_xy mx my c s = record (printc c (record s { x = mx; y = my })) { x = s.x; y = s.y }

-- `printk` of the characters in front of the NUL
unfoldable pub printk : List ℕ → Console → Console
printk [] s = s
printk (c ∷ cs) s = printk cs (printc c s)

-- the loop of `sys_write_console`: `size` characters at address `a` of `mem`
unfoldable pub print_from : (ℕ → ℕ) → ℕ → ℕ → Console → Console
print_from mem a zero s = s
print_from mem a (suc size) s = print_from mem (a + 1) size (printc (mem a) s)

unfoldable pub sys_write_console : (ℕ → ℕ) → ℕ → ℕ → Console → Console × ℕ
unfolding print_from
sys_write_console mem buffer size s = (print_from mem buffer size s, size)

abbrev pub read_operation : ℕ
read_operation = 0

abbrev pub write_operation : ℕ
write_operation = 1

abbrev pub ebadf : ℤ
ebadf = neg 9

abbrev pub efault : ℤ
efault = neg 14

abbrev pub einval : ℤ
einval = neg 22

unfoldable pub check_fd : ℤ → ℕ → ℤ
check_fd fd permissions =
    if not (int_eq fd 0) && not (int_eq fd 1)
    then ebadf
    else if int_eq fd 1 && not (permissions == write_operation)
    then ebadf
    else if int_eq fd 0 && not (permissions == read_operation)
    then ebadf
    else pos 0

abbrev pub chunk_size : ℕ
chunk_size = 256

-- `min(size, CHUNK_SIZE)`
abbrev pub move_size : ℕ → ℕ
move_size size = if ltb size chunk_size then size else chunk_size

-- whether the read of each of the `n` bytes at address `a` comes back
unfoldable pub readable : (ℕ → Bool) → ℕ → ℕ → Bool
readable comes_back a zero = true
readable comes_back a (suc n) = comes_back a && readable comes_back (a + 1) n

-- The loop of `sys_write` from `offset` on. `copy_from_user` copies `move_size` bytes to the stack
-- and returns 0, so the loop ends by its second test alone. Nothing has checked the buffer: where a
-- page is not there the copy raises a page fault. `comes_back` says of which addresses a read comes
-- to its end; `none` is that the kernel loops in `pf_rsi` for ever. The fuel bounds the rounds.
unfoldable pub write_from :
    ℕ → (ℕ → Bool) → (ℕ → ℕ) → (buffer size offset : ℕ) → Console → Option Console
unfolding sys_write_console
write_from zero comes_back mem buffer size offset s = some s
write_from (suc rounds) comes_back mem buffer size offset s =
    let s' = (sys_write_console mem (buffer + offset) (move_size size) s).0 in
    let rest = write_from rounds comes_back mem buffer size (offset + move_size size) s' in
    if not (ltb offset size)
    then some s
    else if readable comes_back (buffer + offset) (move_size size)
    then rest
    else none

-- `return size;`
abbrev pub wrote : ℕ → Option Console → Option (Console × ℤ)
wrote size none = none
wrote size (some s) = some (s, pos size)

-- `sys_write` behind its checks; `size / 256 + 1` rounds are enough.
unfoldable pub write_all : (ℕ → Bool) → (ℕ → ℕ) → ℕ → ℕ → Console → Option (Console × ℤ)
write_all comes_back mem buffer size s =
    wrote size (write_from (size / chunk_size + 1) comes_back mem buffer size 0 s)

-- the checks of the buffer and the size
unfoldable pub write_checked : (ℕ → Bool) → (ℕ → ℕ) → ℕ → ℤ → Console → Option (Console × ℤ)
unfolding write_all
write_checked comes_back mem buffer (negsuc n) s =
    if buffer == 0 then some (s, efault) else some (s, einval)
write_checked comes_back mem buffer (pos size) s =
    if buffer == 0 then some (s, efault) else write_all comes_back mem buffer size s

unfoldable pub sys_write : (ℕ → Bool) → (ℕ → ℕ) → ℤ → ℕ → ℤ → Console → Option (Console × ℤ)
unfolding check_fd write_checked
sys_write comes_back mem fd buffer size s =
    if is_neg (check_fd fd write_operation)
    then some (s, check_fd fd write_operation)
    else write_checked comes_back mem buffer size s
