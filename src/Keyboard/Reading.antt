-- ===== src/Keyboard/Reading.antt =====
-- What a reading process gets.
use so2_zeos.Prelude.{ℕ, zero, suc, ◌+◌, ◌-◌, ◌≤◌, ◌≡◌, true, List, [], ◌∷◌, arith, length, take}
use so2_zeos.LinkedList.Queues.{View}
use so2_zeos.Kernel
use so2_zeos.Kernel.{Kernel}
use so2_zeos.Kernel.Addresses.{keyboardqueue, anchor}
use so2_zeos.Faults.{store_bytes}
use so2_zeos.Scheduler.Consistent.{Consistent, moved}
use so2_zeos.Keyboard.{read_from_keyboard_buffer}
use so2_zeos.Keyboard.Ring.{IsValid}

length-take_le : (n : ℕ) (xs : List ℕ) → length (take n xs) ≤ n
length-take_le zero xs = omega arith
length-take_le (suc n) [] = omega arith
length-take_le (suc n) (x ∷ xs) = omega (arith, length-take_le n xs)

module _ (buffer total size : ℕ) (got : List ℕ) (k : Kernel) (valid : IsValid k.keyboard)
    (fits : length got + size ≡ total) where
  -- the kernel once the keys that there are have been stored
  abbrev stored : Kernel
  stored =
      let (read, kb) = read_from_keyboard_buffer size k.keyboard in
      store_bytes (buffer + (total - size)) read (record k { keyboard = kb })

-- the queues when the running process has gone to the front of the keyboard's
abbrev pub reading_view : Kernel → View → View
reading_view k v = moved (anchor k.current) keyboardqueue true v
