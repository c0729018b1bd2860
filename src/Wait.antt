-- ===== src/Wait.antt =====
-- src/wait.rs: the wait strategies and the idle ladder. A call of `Idle::idle` returns what it
-- asks of the operating system beside the new ladder state.
pub mod Ladder
mod Tests
use ultima_rings.Base.{
  ℕ, zero, suc, ◌+◌, ◌-◌, ◌*◌, ◌^◌, min, Bool, true, false, ◌||◌, ltb, if◌then◌else◌,
}

pub data WaitStrategy : Type 0 where
  busy_spin backoff backoff_yield park : WaitStrategy

-- `PartialEq` of the strategies, at the two variants that the code tests for.
abbrev pub is_park : WaitStrategy → Bool
is_park WaitStrategy.park = true
is_park WaitStrategy.busy_spin = false
is_park WaitStrategy.backoff = false
is_park WaitStrategy.backoff_yield = false

abbrev pub is_backoff_yield : WaitStrategy → Bool
is_backoff_yield WaitStrategy.backoff_yield = true
is_backoff_yield WaitStrategy.busy_spin = false
is_backoff_yield WaitStrategy.backoff = false
is_backoff_yield WaitStrategy.park = false

abbrev pub spins : ℕ
spins = 10

abbrev pub yields : ℕ
yields = 20

-- Durations are in microseconds.
abbrev pub park_min : ℕ
park_min = 64

abbrev pub park_max : ℕ
park_max = 1000

abbrev pub u32_max : ℕ
u32_max = 2 ^ 32 - 1

pub record Idle : Type 0 where
  pub step : ℕ  -- u32
  pub park : ℕ
  pub yield_only : Bool

-- What one rung asks for.
pub data Pause : Type 0 where
  spin_loop yield_now : Pause
  park_timeout : ℕ → Pause

unfoldable pub new : Idle
new = record { step = 0; park = park_min; yield_only = false }

unfoldable pub for_strategy : WaitStrategy → Idle
unfolding new
for_strategy strategy = record new { yield_only = is_backoff_yield strategy }

-- `self.step.saturating_add(1)`
abbrev next_step : ℕ → ℕ
next_step n = min (n + 1) u32_max

unfoldable pub idle : Idle → Pause × Idle
idle s =
    if ltb s.step spins
    then (spin_loop, record s { step = next_step s.step })
    else if s.yield_only || ltb s.step (spins + yields)
    then (yield_now, record s { step = next_step s.step })
    else (
      park_timeout s.park,
      record s { park = min (s.park * 2) park_max; step = next_step s.step },
    )

-- The ladder after `n` calls, and what call number `n` asks for.
unfoldable pub climb : ℕ → Idle → Idle
climb zero s = s
climb (suc n) s = (idle (climb n s)).1

unfoldable pub rung : WaitStrategy → ℕ → Pause
unfolding climb
rung strategy n = (idle (climb n (for_strategy strategy))).0
