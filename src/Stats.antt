-- ===== src/Stats.antt =====
-- stats.c and include/stats.h: the accounting of a process's time.
-- All counters are `unsigned long`, 32 bits wide.
pub mod Accounting
use so2_zeos.Prelude.{ℕ, ◌+◌, ◌-◌, ◌%◌, ◌^◌, Option, none, some}

-- `struct stats`
pub record Stats : Type 0 where
  pub user_ticks : ℕ
  pub system_ticks : ℕ
  pub blocked_ticks : ℕ
  pub ready_ticks : ℕ
  pub elapsed_total_ticks : ℕ
  pub total_trans : ℕ
  pub remaining_ticks : ℕ

-- `enum event`
pub data Event : Type 0 where
  free_to_ready user_to_sys sys_to_user sys_to_ready ready_to_sys : Event
  sys_to_blocked blocked_to_ready quantum_updated current_ticks_updated refresh : Event

-- `enum state_t` of include/sched.h
pub data State : Type 0 where
  st_run st_ready st_blocked st_zombie st_invalid : State

-- 32-bit addition and subtraction
abbrev pub add32 : ℕ → ℕ → ℕ
add32 a b = (a + b) % 2 ^ 32

abbrev pub sub32 : ℕ → ℕ → ℕ
sub32 a b = (a + 2 ^ 32 - b) % 2 ^ 32

unfoldable pub reset_stats : Stats
reset_stats = record {
  user_ticks = 0;
  system_ticks = 0;
  blocked_ticks = 0;
  ready_ticks = 0;
  elapsed_total_ticks = 0;
  total_trans = 0;
  remaining_ticks = 0;
}

-- The event REFRESH, by the state of the process; `none` is the loop `while(1)`.
unfoldable pub refresh_stats : State → ℕ → Stats → Option Stats
refresh_stats st_ready incr s = some (record s { ready_ticks = add32 s.ready_ticks incr })
refresh_stats st_blocked incr s = some (record s { blocked_ticks = add32 s.blocked_ticks incr })
refresh_stats _ incr s = none

-- The events that read the clock: `incr` is the time since the last of them.
unfoldable pub charge_stats : Event → State → (quantum incr : ℕ) → Stats → Option Stats
unfolding refresh_stats
charge_stats free_to_ready state quantum incr s = some (record s { remaining_ticks = quantum })
charge_stats user_to_sys state quantum incr s =
    some (record s { user_ticks = add32 s.user_ticks incr })
charge_stats sys_to_user state quantum incr s =
    some (record s { system_ticks = add32 s.system_ticks incr })
charge_stats sys_to_ready state quantum incr s =
    some (record s { system_ticks = add32 s.system_ticks incr; remaining_ticks = quantum })
charge_stats ready_to_sys state quantum incr s =
    some (record s { ready_ticks = add32 s.ready_ticks incr; total_trans = add32 s.total_trans 1 })
charge_stats sys_to_blocked state quantum incr s =
    some (record s { system_ticks = add32 s.system_ticks incr })
charge_stats blocked_to_ready state quantum incr s =
    some (record s { blocked_ticks = add32 s.blocked_ticks incr })
charge_stats refresh state quantum incr s = refresh_stats state incr s
charge_stats quantum_updated state quantum incr s = some s
charge_stats current_ticks_updated state quantum incr s = some s

-- then `elapsed_total_ticks` is brought up to the present
unfoldable pub stamp_stats : ℕ → Option Stats → Option Stats
stamp_stats now none = none
stamp_stats now (some s) = some (record s { elapsed_total_ticks = now })

-- `update_stats`, given the process's `state` and `quantum`, the global `current_ticks`, and what
-- `get_ticks()` returns.
unfoldable pub update_stats : Event → State → (quantum current_ticks now : ℕ) → Stats → Option Stats
unfolding charge_stats stamp_stats
update_stats quantum_updated state quantum current_ticks now s =
    some (record s { remaining_ticks = quantum - current_ticks })
update_stats current_ticks_updated state quantum current_ticks now s =
    some (record s { remaining_ticks = quantum - current_ticks })
update_stats e state quantum current_ticks now s =
    stamp_stats now (charge_stats e state quantum (sub32 now s.elapsed_total_ticks) s)
