-- ===== src/Clock.antt =====
-- utils.c, `get_ticks` and the macro `do_div`: the processor's time-stamp counter in clock ticks.
-- `rdtsc` is the hardware's: its reading, a 64-bit number in two halves, is an argument.
pub mod Division
use so2_zeos.Prelude.{ℕ, ◌+◌, ◌*◌, ◌/◌, ◌%◌, ◌^◌, ◌==◌, if◌then◌else◌}

abbrev pub cycles_per_tick : ℕ
cycles_per_tick = 109000

-- the quotient that `do_div` leaves in `n`, and the remainder that it returns
pub record Divided : Type 0 where
  pub quotient : ℕ
  pub remainder : ℕ

-- `divl`: edx:eax by a 32-bit divisor. (It traps if the quotient exceeds 32 bits.)
abbrev pub divl : ℕ → ℕ → ℕ → Divided
divl edx eax base = record {
  quotient = (edx * 2 ^ 32 + eax) / base;
  remainder = (edx * 2 ^ 32 + eax) % base;
}

-- `do_div(n, base)`, with `n` in the halves `high` and `low`: the high word is divided first.
unfoldable pub do_div : ℕ → ℕ → ℕ → Divided
do_div high low base =
    let upper = if high == 0 then high else high % base in
    let high' = if high == 0 then high else high / base in
    let d = divl upper low base in
    record { quotient = high' * 2 ^ 32 + d.quotient; remainder = d.remainder }

-- `unsigned long` is 32 bits wide: the quotient is cut on return.
unfoldable pub get_ticks : ℕ → ℕ → ℕ
unfolding do_div
get_ticks edx eax = (do_div edx eax cycles_per_tick).quotient % 2 ^ 32
