-- ===== src/Prelude/Counting.antt =====
-- How many of the first `n` numbers pass a test.
use Prim.Native.Nat.{ℕ, zero, suc, ◌+◌, ◌≤◌, ◌<◌}
use mathlib.Core.Path.{◌≡◌, refl}
use mathlib.Core.Logic.{◌≢◌, inl, inr}
use mathlib.Core.Bool.{Bool, true, false}
use native.Mathlib.Omega.{arith}
use so2_zeos.Prelude.Tests.{◌==◌, if◌then◌else◌, Bool-cases}

pub count_below : ℕ → (ℕ → Bool) → ℕ
count_below zero p = 0
count_below (suc n) p = count_below n p + (if p n then 1 else 0)

pub count_below-same :
    (n : ℕ) (p q : ℕ → Bool) → ((t : ℕ) → t < n → p t ≡ q t) → count_below n p ≡ count_below n q
unfolding count_below
count_below-same zero p q e = refl
count_below-same (suc n) p q e =
    ground (arith, e n, count_below-same n p q (λ t h. e t (omega arith)))

-- One number more passes.
pub count_below-one_more :
    (n t : ℕ) (p q : ℕ → Bool)
    → t < n
    → p t ≡ true
    → q t ≡ false
    → ((u : ℕ) → u < n → u ≢ t → p u ≡ q u)
    → count_below n p ≡ count_below n q + 1
unfolding count_below
count_below-one_more zero t p q lt pt qt e = absurd (omega arith)
count_below-one_more (suc n) t p q lt pt qt e = elim (Bool-cases (t == n)) [
  | inl at ↦
      let here : t ≡ n = ground arith in
      let rest = count_below-same n p q (λ u h. e u (omega arith) (λ same. absurd (omega arith))) in
      let pn : p n ≡ true = rw (← here) pt in
      let qn : q n ≡ false = rw (← here) qt in rw (pn, qn) (omega (arith, rest))
  | inr before ↦
      let ne : t ≢ n = ground arith in
      let ih = count_below-one_more n t p q (ground arith) pt qt (λ u h. e u (omega arith)) in
      let last = e n (omega arith) (λ same. ne (omega arith)) in rw last (omega (arith, ih))
]

pub count_below-pos : (n t : ℕ) (p : ℕ → Bool) → t < n → p t ≡ true → 1 ≤ count_below n p
unfolding count_below
count_below-pos zero t p lt pt = absurd (omega arith)
count_below-pos (suc n) t p lt pt = elim (Bool-cases (t == n)) [
  | inl at ↦
      let here : t ≡ n = ground arith in let pn : p n ≡ true = rw (← here) pt in rw pn (omega arith)
  | inr before ↦ omega (arith, count_below-pos n t p (ground arith) pt)
]

pub count_below-le : (n : ℕ) (p : ℕ → Bool) → count_below n p ≤ n
unfolding count_below
count_below-le zero p = omega arith
count_below-le (suc n) p = ground (arith, count_below-le n p)

pub count_below-none :
    (n : ℕ) (p : ℕ → Bool) → ((t : ℕ) → t < n → p t ≡ false) → count_below n p ≡ 0
unfolding count_below
count_below-none zero p e = refl
count_below-none (suc n) p e =
    rw (e n (omega arith)) (omega (arith, count_below-none n p (λ t h. e t (omega arith))))
