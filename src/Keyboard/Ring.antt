-- ===== src/Keyboard/Ring.antt =====
-- The ring of keys is a queue of at most nine keys.
use so2_zeos.Prelude.{
  ℕ, zero, suc, ◌+◌, ◌-◌, ◌%◌, ◌<◌, ◌≡◌, inl, inr, refl, ap, true, false, List, [], ◌∷◌, ◌++◌, ◌==◌,
  arith, Bool-cases, update, length, take, drop, ◌↔◌,
}
use so2_zeos.Kernel.{Keyboard}
use so2_zeos.Keyboard.{
  next_index, keyboard_buffer_size, is_buffer_full, put_key, read_from_keyboard_buffer,
}

pub record IsValid (kb : Keyboard) : Type 0 where
  pub from : kb.buff_from < keyboard_buffer_size
  pub to : kb.buff_to < keyboard_buffer_size

-- the number of keys in the ring
abbrev pub count : Keyboard → ℕ
count kb = (kb.buff_to + keyboard_buffer_size - kb.buff_from) % keyboard_buffer_size

-- `n` keys from index `i` on
abbrev pub window : (ℕ → ℕ) → ℕ → ℕ → List ℕ
window b i zero = []
window b i (suc n) = b i ∷ window b (next_index i) n

-- the keys in the ring, the oldest first
abbrev pub keys : Keyboard → List ℕ
keys kb = window kb.buffer kb.buff_from (count kb)

length-window : (b : ℕ → ℕ) (i n : ℕ) → length (window b i n) ≡ n
length-window b i zero = refl
length-window b i (suc n) = ap suc (length-window b (next_index i) n)

window-update :
    (b : ℕ → ℕ) (x n i j : ℕ)
    → i < keyboard_buffer_size
    → n < keyboard_buffer_size
    → j ≡ (i + n) % keyboard_buffer_size
    → window (update b j x) i (suc n) ≡ window b i n ++ (x ∷ [])
window-update b x zero i j hi hn e = ground arith
window-update b x (suc n) i j hi hn e =
    let ih = window-update b x n (next_index i) j (ground arith) (omega arith) (ground arith) in
    let other : (i == j) ≡ false = ground arith in rw other (ap (λ l. b i ∷ l) ih)

-- The ring is full exactly with nine keys in it.
pub is_buffer_full-count :
    (kb : Keyboard)
    → IsValid kb
    → (is_buffer_full kb ≡ true) ↔ (length (keys kb) ≡ keyboard_buffer_size - 1)
unfolding is_buffer_full
is_buffer_full-count kb v = rw (length-window kb.buffer kb.buff_from (count kb)) (ground arith)

-- Putting a key into a ring that is not full keeps its indices in range and adds the key at the
-- end of the keys.
pub put_key-keys :
    (kb : Keyboard) (key : ℕ)
    → IsValid kb
    → is_buffer_full kb ≡ false
    → IsValid (put_key key kb) × (keys (put_key key kb) ≡ keys kb ++ (key ∷ []))
unfolding put_key is_buffer_full
put_key-keys kb key v room =
    let grows : count (record kb { buff_to = next_index kb.buff_to }) ≡ suc (count kb) =
      ground arith in
    (
      ground arith,
      rw grows (
          window-update kb.buffer key (count kb) kb.buff_from kb.buff_to v.from (omega arith)
            (omega arith)),
    )

-- Reading takes as many keys as are wanted and there, from the front, and leaves the others.
pub read_from_keyboard_buffer-keys :
    (size : ℕ) (kb : Keyboard)
    → IsValid kb
    → let (read, kb') = read_from_keyboard_buffer size kb in
      (read ≡ take size (keys kb)) × (keys kb' ≡ drop size (keys kb)) × IsValid kb'
unfolding read_from_keyboard_buffer
read_from_keyboard_buffer-keys zero kb v = (refl, refl, v)
read_from_keyboard_buffer-keys (suc size) kb v = elim (Bool-cases (kb.buff_from == kb.buff_to)) [
  | inl empty ↦ let none_left : count kb ≡ 0 = ground arith in rw (empty, none_left) (refl, refl, v)
  | inr more ↦
      let kb' = record kb { buff_from = next_index kb.buff_from } in
      let one_less : count kb ≡ suc (count kb') = ground arith in
      let ih = read_from_keyboard_buffer-keys size kb' (ground arith) in
      rw (more, one_less) (ap (λ l. kb.buffer kb.buff_from ∷ l) ih.0, ih.1, ih.2)
]
