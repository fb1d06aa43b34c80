-- ===== src/Libc.antt =====
-- libc.c, the library of user programs: `itoa`, `strlen` and `perror`. A buffer is a function of the
-- index, from the pointer that the function is given.
pub mod Decimal
use so2_zeos.Prelude.{
  ℕ, zero, suc, ◌+◌, ◌-◌, ◌*◌, ◌/◌, ◌%◌, Bool, true, false, ◌==◌, ltb, if◌then◌else◌, update, List,
  [], ◌∷◌, length, get_or, ℤ, pos, negsuc,
}
use Prim.Native.String
use Prim.Native.String.{String}
use Prim.Native.Char.{code}

-- `while(a > 0)` of `itoa`: the digits from index `i` on, the lowest first, and where they end. The
-- fuel bounds the rounds.
unfoldable pub put_digits : (fuel a i : ℕ) → (ℕ → ℕ) → ℕ × (ℕ → ℕ)
put_digits zero a i b = (i, b)
put_digits (suc fuel) a i b =
    let rest = put_digits fuel (a / 10) (i + 1) (update b i (a % 10 + b'0')) in
    if ltb 0 a then rest else (i, b)

-- the body of the loop `for(i1 = 0; i1 < i/2; i1++)`
abbrev pub swap_ends : (i1 i : ℕ) → (ℕ → ℕ) → ℕ → ℕ
swap_ends i1 i b = update (update b i1 (b (i - i1 - 1))) (i - i1 - 1) (b i1)

-- the loop, from `i1` on; the rounds left are `i/2 - i1`
unfoldable pub reverse_digits : (rounds i1 i : ℕ) → (ℕ → ℕ) → ℕ → ℕ
reverse_digits zero i1 i b = b
reverse_digits (suc rounds) i1 i b = reverse_digits rounds (i1 + 1) i (swap_ends i1 i b)

-- `itoa` behind the case of 0
unfoldable pub itoa_from : ℕ → (ℕ → ℕ) → ℕ → ℕ
unfolding put_digits reverse_digits
itoa_from a b = let (i, b') = put_digits a a 0 b in update (reverse_digits (i / 2) 0 i b') i 0

-- A negative number has no rounds in either loop.
unfoldable pub itoa : ℤ → (ℕ → ℕ) → ℕ → ℕ
unfolding itoa_from
itoa (negsuc n) b = update b 0 0
itoa (pos a) b = if a == 0 then update (update b 0 b'0') 1 0 else itoa_from a b

-- The loop of `strlen`, from index `i` on; the fuel bounds its rounds.
unfoldable pub strlen_from : (fuel i : ℕ) → (ℕ → ℕ) → ℕ
strlen_from zero i a = i
strlen_from (suc fuel) i a = let rest = strlen_from fuel (i + 1) a in if a i == 0 then i else rest

-- the bytes of a string literal
abbrev pub codes : String → List ℕ
codes String.[] = []
codes (String.◌∷◌ c s) = code c ∷ codes s

-- `error_message`, by the value of `errno`
unfoldable pub error_message : ℕ → List ℕ
error_message errno =
    if errno == 38
    then codes "System call not defined"
    else if errno == 9
    then codes "Bad file descriptor identifier"
    else if errno == 13
    then codes "Wrong permission writing to file"
    else if errno == 22
    then codes "Buffer size is equal or less than 0"
    else if errno == 14
    then codes "Address is null"
    else if errno == 11
    then codes "There are not free tasks to store the new process"
    else if errno == 12
    then codes "There are not free frames to allocate the duplicated data+stack of child"
    else if errno == 3
    then codes "There is no process with this PID"
    else codes "Unknown error"

-- a literal in memory, with its 0 at the end
abbrev pub text_at : List ℕ → ℕ → ℕ
text_at s i = get_or s i 0

-- What `perror` passes to `write`: the descriptor, the bytes and their number.
unfoldable pub perror : ℕ → ℕ × List ℕ × ℕ
unfolding error_message strlen_from
perror errno = let s = error_message errno in (1, s, strlen_from (length s + 1) 0 (text_at s))
