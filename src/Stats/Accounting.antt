-- ===== src/Stats/Accounting.antt =====
-- No tick is lost or counted twice.
use so2_zeos.Prelude.{
  ◌↔◌, ◌∙◌, refl, Option-cases, inl, inr, ℕ, ◌+◌, ◌%◌, ◌^◌, ◌<◌, ◌≡◌, ◌≢◌, Option, none, some, List,
  [], ◌∷◌, arith,
}
use so2_zeos.Stats.{
  Stats, Event, free_to_ready, refresh, State, st_ready, st_blocked, sub32, update_stats,
}

-- the four counters of time together
abbrev pub charged : Stats → ℕ
charged s = (s.user_ticks + s.system_ticks + s.blocked_ticks + s.ready_ticks) % 2 ^ 32

-- an event that does not restart the account of a process
abbrev pub Charges : Event → Type 0
Charges free_to_ready = ⊥
Charges _ = Unit

-- One event keeps the difference of the counters and the time of the last reading.
charged-update_stats :
    (e : Event) (state : State) (quantum current_ticks now : ℕ) (s s' : Stats)
    → Charges e
    → now < 2 ^ 32
    → s.elapsed_total_ticks < 2 ^ 32
    → update_stats e state quantum current_ticks now s ≡ some s'
    → (sub32 (charged s') s'.elapsed_total_ticks ≡ sub32 (charged s) s.elapsed_total_ticks)
      × (s'.elapsed_total_ticks < 2 ^ 32)
unfolding update_stats
charged-update_stats free_to_ready state q c now s s' ch fits old h = absurd ch
charged-update_stats refresh st_ready q c now s s' ch fits old h = ground arith
charged-update_stats refresh _ q c now s s' ch fits old h = ground arith
charged-update_stats e state q c now s s' ch fits old h = ground arith

-- A call of `update_stats`: what the kernel passes and reads.
pub record Reading : Type 0 where
  pub event : Event
  pub state : State
  pub quantum : ℕ
  pub current_ticks : ℕ
  pub now : ℕ

-- a history of calls on one process
unfoldable pub account : List Reading → Stats → Option Stats
account [] s = some s
account (r ∷ rs) s = elim (update_stats r.event r.state r.quantum r.current_ticks r.now s) [
  | none ↦ none
  | some s' ↦ account rs s'
]

abbrev pub AllCharge : List Reading → Type 0
AllCharge [] = Unit
AllCharge (r ∷ rs) = Charges r.event × (r.now < 2 ^ 32) × AllCharge rs

account-keeps :
    (rs : List Reading) (s s' : Stats)
    → AllCharge rs
    → s.elapsed_total_ticks < 2 ^ 32
    → account rs s ≡ some s'
    → (sub32 (charged s') s'.elapsed_total_ticks ≡ sub32 (charged s) s.elapsed_total_ticks)
      × (s'.elapsed_total_ticks < 2 ^ 32)
unfolding account
account-keeps [] s s' all old h = ground arith
account-keeps (r ∷ rs) s s' all old h =
    elim (Option-cases (update_stats r.event r.state r.quantum r.current_ticks r.now s)) [
      | inl stuck ↦ cc stuck
      | inr (t, e) ↦
          let one =
            charged-update_stats r.event r.state r.quantum r.current_ticks r.now s t all.0 all.1 old
              e in
          let rest = account-keeps rs t s' all.2 one.1 (rw (e, account) at h) in
          (rest.0 ∙ one.0, rest.1)
    ]

-- Over any history of calls of `update_stats` on one process in which no event is FREE_TO_READY and
-- every clock reading fits 32 bits, if it returns, user + system + blocked + ready ticks have
-- grown, modulo 2 ^ 32, by exactly the time between the first and the last clock reading that
-- `elapsed_total_ticks` holds.
pub charged-account :
    (rs : List Reading) (s s' : Stats)
    → AllCharge rs
    → s.elapsed_total_ticks < 2 ^ 32
    → account rs s ≡ some s'
    → sub32 (charged s') (charged s) ≡ sub32 s'.elapsed_total_ticks s.elapsed_total_ticks
charged-account rs s s' all old h = omega (arith, account-keeps rs s s' all old h)

-- `update_stats` fails to return exactly for REFRESH on a process that is neither ready nor
-- blocked.
pub update_stats-eq-none_iff :
    (e : Event) (state : State) (quantum current_ticks now : ℕ) (s : Stats)
    → (update_stats e state quantum current_ticks now s ≡ none)
      ↔ ((e ≡ refresh) × (state ≢ st_ready) × (state ≢ st_blocked))
unfolding update_stats
update_stats-eq-none_iff refresh st_ready q c now s = (λ e. cc, λ h. absurd (h.1 refl))
update_stats-eq-none_iff refresh st_blocked q c now s = (λ e. cc, λ h. absurd (h.2 refl))
update_stats-eq-none_iff refresh _ q c now s = (λ e. (refl, λ d. cc, λ d. cc), λ h. refl)
update_stats-eq-none_iff e state q c now s = ground arith
