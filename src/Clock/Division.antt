-- ===== src/Clock/Division.antt =====
-- `do_div` divides its 64-bit dividend, and its one machine division does not trap.
use native.Mathlib.Nat.{div-add-mod, mod-lt}
use so2_zeos.Prelude.{ℕ, ◌+◌, ◌*◌, ◌/◌, ◌%◌, ◌^◌, ◌<◌, ◌≡◌, arith}
use so2_zeos.Clock.{do_div}

-- Long division by two digits.
halves :
    (high low base : ℕ)
    → (high / base * 2 ^ 32 + (high % base * 2 ^ 32 + low) / base) * base
        + (high % base * 2 ^ 32 + low) % base
      ≡ high * 2 ^ 32 + low
halves high low base =
    omega (arith, div-add-mod high base, div-add-mod (high % base * 2 ^ 32 + low) base)

-- For any dividend of two 32-bit halves and any 32-bit divisor but 0, `do_div` leaves the quotient
-- and returns the remainder: the divisor times the one, plus the other, is the dividend, and the
-- remainder is smaller than the divisor.
pub do_div-exact :
    (high low base : ℕ)
    → 0 < base
    → low < 2 ^ 32
    → ((do_div high low base).quotient * base + (do_div high low base).remainder
        ≡ high * 2 ^ 32 + low)
      × ((do_div high low base).remainder < base)
unfolding do_div
do_div-exact high low base pos fits = ground (
  arith,
  halves high low base,
  halves 0 low base,
  div-add-mod (high % base * 2 ^ 32 + low) base,
  mod-lt (high % base * 2 ^ 32 + low) pos,
)

-- The division of the lower half cannot overflow the 32-bit quotient register.
pub do_div-no_trap :
    (high low base : ℕ) → 0 < base → low < 2 ^ 32 → ((high % base) * 2 ^ 32 + low) / base < 2 ^ 32
do_div-no_trap high low base pos fits = grind arith
