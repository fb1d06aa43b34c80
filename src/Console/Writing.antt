-- ===== src/Console/Writing.antt =====
-- What `sys_write` prints.
use so2_zeos.Prelude.{
  is_neg, not, ℕ, zero, suc, ◌+◌, ◌-◌, ◌*◌, ◌/◌, ◌≤◌, ◌<◌, ◌≡◌, ◌≢◌, inl, inr, refl, ◌∙◌, ap, sym,
  Bool, true, false, List, [], ◌∷◌, ◌++◌, ◌==◌, arith, ltb, leb, Bool-cases, if◌then◌else◌, ℤ, pos,
  negsuc, int_eq, Option, some,
}
use mathlib.Core.List.{append_assoc, append-nil}
use so2_zeos.Console.{
  Console, printc, print_from, chunk_size, move_size, readable, write_from, wrote, write_all,
  sys_write, ebadf, efault, einval,
}
use so2_zeos.Console.Cursor.{OnScreen, place, place_behind, text_shown, printc-shown}

-- the `n` bytes at address `a`
abbrev pub bytes_at : (ℕ → ℕ) → ℕ → ℕ → List ℕ
bytes_at mem a zero = []
bytes_at mem a (suc n) = mem a ∷ bytes_at mem (a + 1) n

bytes_at-add :
    (mem : ℕ → ℕ) (a n m : ℕ) → bytes_at mem a n ++ bytes_at mem (a + n) m ≡ bytes_at mem a (n + m)
bytes_at-add mem a zero m =
    let e : a + 0 ≡ a = omega arith in let z : zero + m ≡ m = omega arith in rw (e, z)
bytes_at-add mem a (suc n) m =
    let e : a + suc n ≡ a + 1 + n = omega arith in
    let z : suc n + m ≡ suc (n + m) = omega arith in
    rw (e, z) (ap (λ l. mem a ∷ l) (bytes_at-add mem (a + 1) n m))

port-printc : (c : ℕ) (s : Console) → (printc c s).port ≡ s.port ++ (c ∷ [])
unfolding printc
port-printc c s = ground arith

port-print_from :
    (mem : ℕ → ℕ) (a n : ℕ) (s : Console) → (print_from mem a n s).port ≡ s.port ++ bytes_at mem a n
unfolding print_from
port-print_from mem a zero s = sym (append-nil s.port)
port-print_from mem a (suc n) s =
    port-print_from mem (a + 1) n (printc (mem a) s)
    ∙ ap (λ l. l ++ bytes_at mem (a + 1) n) (port-printc (mem a) s)
    ∙ append_assoc s.port (mem a ∷ []) (bytes_at mem (a + 1) n)

-- how many bytes the loop prints from `offset` on: whole moves, as many as begin below `size`
abbrev pub printed : ℕ → ℕ → ℕ → ℕ
printed zero size offset = 0
printed (suc rounds) size offset =
    if ltb offset size then move_size size + printed rounds size (offset + move_size size) else 0

print_from-add :
    (mem : ℕ → ℕ) (a n m : ℕ) (s : Console)
    → print_from mem (a + n) m (print_from mem a n s) ≡ print_from mem a (n + m) s
unfolding print_from
print_from-add mem a zero m s =
    let e : a + 0 ≡ a = omega arith in let z : zero + m ≡ m = omega arith in rw (e, z)
print_from-add mem a (suc n) m s =
    let e : a + suc n ≡ a + 1 + n = omega arith in
    let z : suc n + m ≡ suc (n + m) = omega arith in
    rw (e, z) (print_from-add mem (a + 1) n m (printc (mem a) s))

readable-all :
    (comes_back : ℕ → Bool) (a n : ℕ)
    → ((b : ℕ) → a ≤ b → b < a + n → comes_back b ≡ true)
    → readable comes_back a n ≡ true
unfolding readable
readable-all comes_back a zero h = refl
readable-all comes_back a (suc n) h =
    let first = h a (omega arith) (omega arith) in
    let rest = readable-all comes_back (a + 1) n (λ b lo hi. h b (omega arith) (omega arith)) in
    rw (first, rest)

-- Where every read comes back the whole loop prints one run of bytes.
write_from-print_from :
    (rounds : ℕ) (comes_back : ℕ → Bool) (mem : ℕ → ℕ) (buffer size offset : ℕ) (s : Console)
    → ((a : ℕ)
        → buffer + offset ≤ a
        → a < buffer + offset + printed rounds size offset
        → comes_back a ≡ true)
    → write_from rounds comes_back mem buffer size offset s
      ≡ some (print_from mem (buffer + offset) (printed rounds size offset) s)
unfolding write_from print_from
write_from-print_from zero comes_back mem buffer size offset s h = refl
write_from-print_from (suc rounds) comes_back mem buffer size offset s h =
    elim (Bool-cases (ltb offset size)) [
      | inl more ↦
          let m = move_size size in
          let n = printed rounds size (offset + m) in
          let at : buffer + (offset + m) ≡ buffer + offset + m = omega arith in
          let all : (a : ℕ)
              → buffer + offset ≤ a
              → a < buffer + offset + (m + n)
              → comes_back a ≡ true =
            rw more at h in
          let now =
            readable-all comes_back (buffer + offset) m (λ a lo hi. all a lo (omega arith)) in
          rw (more, now)
            (write_from-print_from rounds comes_back mem buffer size (offset + m)
                (print_from mem (buffer + offset) m s)
                (λ a lo hi. all a (omega arith) (omega arith))
              ∙ ap (λ b. some (print_from mem b n (print_from mem (buffer + offset) m s))) at
              ∙ ap some (print_from-add mem (buffer + offset) m n s))
      | inr done ↦ rw done
    ]

-- a whole number of chunks that covers `n` bytes
abbrev pub chunks : ℕ → ℕ
chunks n = (n + 255) / 256 * 256

printed-chunks :
    (rounds size offset : ℕ)
    → chunk_size ≤ size
    → size - offset ≤ rounds * 256
    → printed rounds size offset ≡ chunks (size - offset)
printed-chunks zero size offset big enough = omega arith
printed-chunks (suc rounds) size offset big enough =
    ground (arith, printed-chunks rounds size (offset + 256))

printed-small : (rounds size : ℕ) → size ≤ chunk_size → printed (suc rounds) size 0 ≡ size
printed-small zero size small = ground arith
printed-small (suc rounds) size small = ground arith

-- what `sys_write` prints when `size` bytes are asked for
abbrev pub total_printed : ℕ → ℕ
total_printed size = if leb size chunk_size then size else chunks size

printed-total : (size : ℕ) → printed (size / chunk_size + 1) size 0 ≡ total_printed size
printed-total size = elim (Bool-cases (leb size chunk_size)) [
  | inl small ↦
      let e : size / chunk_size + 1 ≡ suc (size / chunk_size) = omega arith in
      rw (small, e) (printed-small (size / chunk_size) size (ground arith))
  | inr large ↦ rw large (
      printed-chunks (size / chunk_size + 1) size 0 (ground arith) (ground arith)
      ∙ ap chunks (omega arith))
]

-- What is on the screen after a run of bytes.
print_from-shown :
    (mem : ℕ → ℕ) (a n : ℕ) (s : Console)
    → OnScreen s
    → OnScreen (print_from mem a n s)
      × ((print_from mem a n s).video ≡ text_shown (bytes_at mem a n) (place s) s.video)
unfolding print_from
print_from-shown mem a zero s v = (v, refl)
print_from-shown mem a (suc n) s v =
    let one = printc-shown (mem a) s v in
    let rest = print_from-shown mem (a + 1) n (printc (mem a) s) one.0 in
    (
      rest.0,
      rest.1
          ∙ ap (λ p. text_shown (bytes_at mem (a + 1) n) p (printc (mem a) s).video) one.1
          ∙ ap (text_shown (bytes_at mem (a + 1) n) (place_behind (mem a) (place s))) one.2,
    )

-- `sys_write` to the screen from a buffer that is not NULL, the cursor on the screen and every read
-- of what is printed coming back, returns `size`. It sends to the debug port and shows on the screen,
-- from the cursor on and in colour 2, the bytes from the start of the buffer on, in order: `size` of
-- them if that is at most 256, and otherwise whole chunks of 256, so up to 255 bytes behind the end
-- of what was to be written. The cursor stays on the screen.
pub sys_write_lem :
    (comes_back : ℕ → Bool) (mem : ℕ → ℕ) (buffer size : ℕ) (s : Console)
    → buffer ≢ 0
    → OnScreen s
    → ((a : ℕ) → buffer ≤ a → a < buffer + total_printed size → comes_back a ≡ true)
    → let text = bytes_at mem buffer (total_printed size) in
      (s' : Console) × (sys_write comes_back mem (pos 1) buffer (pos size) s ≡ some (s', pos size))
      × (s'.port ≡ s.port ++ text)
      × (s'.video ≡ text_shown text (place s) s.video)
      × OnScreen s'
unfolding sys_write
sys_write_lem comes_back mem buffer size s ne v reads =
    let b : (buffer == 0) ≡ false = ground arith in
    let at : buffer + 0 ≡ buffer = omega arith in
    let n = total_printed size in
    let rounds = size / chunk_size + 1 in
    let total = printed-total size in
    let loop : write_from rounds comes_back mem buffer size 0 s ≡ some (print_from mem buffer n s) =
      write_from-print_from rounds comes_back mem buffer size 0 s
        (λ a lo hi. reads a (omega arith) (omega (arith, total)))
      ∙ ap (λ k. some (print_from mem (buffer + 0) k s)) total
      ∙ ap (λ k. some (print_from mem k n s)) at in
    let screen = print_from-shown mem buffer n s v in
    (
      print_from mem buffer n s,
      rw b (ap (wrote size) loop),
      port-print_from mem buffer n s,
      screen.1,
      screen.0,
    )

abbrev pub pos_part : ℤ → ℕ
pos_part (pos n) = n
pos_part (negsuc n) = 0

-- the checks of `sys_write`, in order
abbrev pub checked : ℤ → ℕ → ℤ → Console → Option (Console × ℤ) → Option (Console × ℤ)
checked fd buffer size s done =
    if not (int_eq fd 1)
    then some (s, ebadf)
    else if buffer == 0
    then some (s, efault)
    else if is_neg size
    then some (s, einval)
    else done

-- `sys_write` fails and prints nothing, with -EBADF on any descriptor but 1, else with -EFAULT for
-- NULL, else with -EINVAL for a negative size; else it writes.
pub sys_write-checks :
    (comes_back : ℕ → Bool) (mem : ℕ → ℕ) (fd : ℤ) (buffer : ℕ) (size : ℤ) (s : Console)
    → sys_write comes_back mem fd buffer size s
      ≡ checked fd buffer size s (write_all comes_back mem buffer (pos_part size) s)
unfolding sys_write
sys_write-checks comes_back mem (negsuc n) buffer size s = refl
sys_write-checks comes_back mem (pos n) buffer (negsuc m) s = ground arith
sys_write-checks comes_back mem (pos n) buffer (pos m) s = ground arith
