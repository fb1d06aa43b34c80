-- ===== src/Prelude/Lists.antt =====
-- Lists of addresses and bytes: length, membership as a test, removal, distinctness.
use Prim.Native.Nat.{ℕ, zero, suc, ◌+◌, ◌≤◌, ◌<◌}
use mathlib.Core.Path.{◌≡◌, refl}
use mathlib.Core.Bool.{Bool, true, false, ◌||◌}
use mathlib.Core.List.{List, [], ◌∷◌, ◌++◌}
use native.Mathlib.Omega.{arith}
use so2_zeos.Prelude.Tests.{◌==◌, if◌then◌else◌, Bool-cases}
use mathlib.Core.Logic.{inl, inr}

module _ {ℓ} {A : Type ℓ} where
  abbrev pub length : List A → ℕ
  length [] = 0
  length (x ∷ xs) = suc (length xs)

  abbrev pub get_or : List A → ℕ → A → A
  get_or [] i d = d
  get_or (x ∷ xs) zero d = x
  get_or (x ∷ xs) (suc i) d = get_or xs i d

  abbrev pub take : ℕ → List A → List A
  take zero xs = []
  take (suc n) [] = []
  take (suc n) (x ∷ xs) = x ∷ take n xs

  abbrev pub drop : ℕ → List A → List A
  drop zero xs = xs
  drop (suc n) [] = []
  drop (suc n) (x ∷ xs) = drop n xs

  pub length-append : (xs ys : List A) → length (xs ++ ys) ≡ length xs + length ys
  length-append [] ys = omega arith
  length-append (x ∷ xs) ys = omega (arith, length-append xs ys)

-- Is `a` in the list?
abbrev pub has : ℕ → List ℕ → Bool
has a [] = false
has a (x ∷ xs) = (a == x) || has a xs

-- The list without `a`, which stands in it once at most.
abbrev pub erase : ℕ → List ℕ → List ℕ
erase a [] = []
erase a (x ∷ xs) = if a == x then xs else x ∷ erase a xs

abbrev pub Distinct : List ℕ → Type 0
Distinct [] = Unit
Distinct (x ∷ xs) = (has x xs ≡ false) × Distinct xs

pub has-append : (a : ℕ) (xs ys : List ℕ) → has a (xs ++ ys) ≡ (has a xs || has a ys)
has-append a [] ys = refl
has-append a (x ∷ xs) ys = ground (arith, has-append a xs ys)

pub has-erase_ne : (a b : ℕ) (xs : List ℕ) → (a == b) ≡ false → has a (erase b xs) ≡ has a xs
has-erase_ne a b [] ne = refl
has-erase_ne a b (x ∷ xs) ne = ground (arith, has-erase_ne a b xs)

pub has-erase_self : (a : ℕ) (xs : List ℕ) → Distinct xs → has a (erase a xs) ≡ false
has-erase_self a [] d = refl
has-erase_self a (x ∷ xs) d = ground (arith, has-erase_self a xs d.1)

pub has_of_has-erase : (a b : ℕ) (xs : List ℕ) → has a (erase b xs) ≡ true → has a xs ≡ true
has_of_has-erase a b [] h = h
has_of_has-erase a b (x ∷ xs) h = ground (arith, has_of_has-erase a b xs)

pub Distinct-erase : (a : ℕ) (xs : List ℕ) → Distinct xs → Distinct (erase a xs)
Distinct-erase a [] d = d
Distinct-erase a (x ∷ xs) d = ground (arith, Distinct-erase a xs d.1, has_of_has-erase x a xs)

pub Distinct-snoc :
    (a : ℕ) (xs : List ℕ) → Distinct xs → has a xs ≡ false → Distinct (xs ++ (a ∷ []))
Distinct-snoc a [] d out = (refl, tt)
Distinct-snoc a (x ∷ xs) d out = ground (arith, Distinct-snoc a xs d.1, has-append x xs (a ∷ []))

length-erase : (a : ℕ) (xs : List ℕ) → has a xs ≡ true → length (erase a xs) + 1 ≡ length xs
length-erase a [] h = cc h
length-erase a (x ∷ xs) h = ground (arith, length-erase a xs)

-- Distinct numbers out of `n` are `n` at most.
pub length-le-range :
    (n lo : ℕ) (xs : List ℕ)
    → Distinct xs
    → ((a : ℕ) → has a xs ≡ true → (lo ≤ a) × (a < lo + n))
    → length xs ≤ n
length-le-range zero lo [] d within = omega arith
length-le-range zero lo (x ∷ xs) d within = absurd (ground (arith, within x))
length-le-range (suc n) lo xs d within = elim (Bool-cases (has (lo + n) xs)) [
  | inl h ↦
      let ih = length-le-range n lo (erase (lo + n) xs) (Distinct-erase (lo + n) xs d) (λ a m.
        ground
          (arith, within a (has_of_has-erase a (lo + n) xs m), has-erase_self (lo + n) xs d)) in
      omega (arith, length-erase (lo + n) xs h)
  | inr h ↦ omega (arith, length-le-range n lo xs d (λ a m. ground (arith, within a m)))
]
