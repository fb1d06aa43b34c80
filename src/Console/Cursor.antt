-- ===== src/Console/Cursor.antt =====
-- The cursor stays on the screen, and so does what is written.
use Prim.Native.Nat.{bit_or}
use so2_zeos.Prelude.{
  ℕ, zero, suc, ◌+◌, ◌*◌, ◌/◌, ◌%◌, ◌≤◌, ◌<◌, ◌≡◌, ◌≢◌, ◌⊎◌, inl, inr, ◌∙◌, refl, Bool, true, ◌&&◌,
  ◌==◌, if◌then◌else◌, Bool-cases, List, [], ◌∷◌, arith, fun_ext,
}
use so2_zeos.Console.{Console, num_columns, num_rows, cell, coloured, printc, printc_xy, printk}

-- a test that holds of every number below `n`
all_below : ℕ → (ℕ → Bool) → Bool
all_below zero p = true
all_below (suc n) p = p n && all_below n p

all_below_sound : (n : ℕ) (p : ℕ → Bool) (b : ℕ) → all_below n p ≡ true → b < n → p b ≡ true
unfolding all_below
all_below_sound zero p b h lt = absurd (omega arith)
all_below_sound (suc n) p b h lt = ground (arith, all_below_sound n p b)

colour_table :
    all_below 256 (λ b. ((bit_or b 0x0200 % 256) == b) && (((bit_or b 0x0200 / 256) % 256) == 2))
    ≡ true
unfolding all_below
colour_table = refl

pub record OnScreen (s : Console) : Type 0 where
  pub column : s.x < num_columns
  pub row : s.y < num_rows

-- `printc` keeps the cursor on the screen.
printc-OnScreen : (c : ℕ) (s : Console) → OnScreen s → OnScreen (printc c s)
unfolding printc
printc-OnScreen c s v = ground arith

-- It writes to no address outside the 4000 bytes of the screen.
printc-outside :
    (c a : ℕ) (s : Console)
    → OnScreen s
    → (a < 0xb8000) ⊎ (0xb8000 + 4000 ≤ a)
    → (printc c s).video a ≡ s.video a
unfolding printc
printc-outside c a s v out = ground arith

-- From a cursor on the screen, `printk` of any string leaves the cursor on the screen, and changes
-- no memory outside the 4000 bytes of the screen.
pub printk-OnScreen :
    (cs : List ℕ) (a : ℕ) (s : Console)
    → OnScreen s
    → (a < 0xb8000) ⊎ (0xb8000 + 4000 ≤ a)
    → OnScreen (printk cs s) × ((printk cs s).video a ≡ s.video a)
unfolding printk
printk-OnScreen [] a s v out = (v, refl)
printk-OnScreen (c ∷ cs) a s v out =
    let rest = printk-OnScreen cs a (printc c s) (printc-OnScreen c s v) out in
    (rest.0, rest.1 ∙ printc-outside c a s v out)

-- the character with its colour is two bytes
coloured_bytes : (c : ℕ) → (coloured c % 256 ≡ c % 256) × ((coloured c / 256) % 256 ≡ 2)
coloured_bytes c =
    let t =
      all_below_sound 256
        (λ b. ((bit_or b 0x0200 % 256) == b) && (((bit_or b 0x0200 / 256) % 256) == 2)) (c % 256)
        colour_table (omega arith) in
    ground (arith, t)

-- `printc_xy` of a character other than a line feed shows it at the given place in colour 2, and
-- leaves the cursor where it was.
pub printc_xy_lem :
    (mx my c : ℕ) (s : Console)
    → c ≢ b'\n'
    → let s' = printc_xy mx my c s in
      (s'.video (cell mx my) ≡ c % 256)
      × (s'.video (cell mx my + 1) ≡ 2)
      × (s'.x ≡ s.x)
      × (s'.y ≡ s.y)
unfolding printc_xy printc
printc_xy_lem mx my c s ne =
    (ground (arith, coloured_bytes c), ground (arith, coloured_bytes c), refl, refl)

-- the number of the cell that the cursor is at, from 0 to 1999
abbrev pub place : Console → ℕ
place s = s.y * 80 + s.x

-- where the cursor goes behind a character: to the start of the next line, or one cell on, and from
-- the last line or cell to the first
abbrev pub place_behind : ℕ → ℕ → ℕ
place_behind c p = if c == b'\n' then ((p / 80 + 1) * 80) % 2000 else (p + 1) % 2000

-- the screen with a character shown in colour 2 at the cell with the number `p`
abbrev pub shown : ℕ → ℕ → (ℕ → ℕ) → ℕ → ℕ
shown c p video a =
    if a == (0xb8000 + 2 * p) then c % 256 else if a == (0xb8000 + 2 * p + 1) then 2 else video a

-- the screen after a text that begins at the cell with the number `p`; a line feed shows nothing
abbrev pub text_shown : List ℕ → ℕ → (ℕ → ℕ) → ℕ → ℕ
text_shown [] p video = video
text_shown (c ∷ cs) p video =
    text_shown cs (place_behind c p) (if c == b'\n' then video else shown c p video)

pub printc-shown :
    (c : ℕ) (s : Console)
    → OnScreen s
    → OnScreen (printc c s)
      × (place (printc c s) ≡ place_behind c (place s))
      × ((printc c s).video ≡ (if c == b'\n' then s.video else shown c (place s) s.video))
unfolding printc
printc-shown c s v = elim (Bool-cases (c == b'\n')) [
  | inl line ↦ rw line (ground arith, omega (arith, v.row, v.column), refl)
  | inr char ↦ rw char (ground arith, ground arith, fun_ext λ a. ground (arith, coloured_bytes c))
]
