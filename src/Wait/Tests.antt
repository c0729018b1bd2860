-- ===== src/Wait/Tests.antt =====
-- The ladder of src/wait.rs at concrete calls.
use ultima_rings.Base.{◌≤◌, ◌≡◌, refl}
use ultima_rings.Wait.{WaitStrategy, yield_now, park_timeout, for_strategy, idle, climb, rung}
use ultima_rings.Wait.Ladder.{rung_closed_form, rung_bounds}

rung_closed_form_example :
    (rung WaitStrategy.backoff 32 ≡ park_timeout 256)
    × (rung WaitStrategy.backoff_yield 32 ≡ yield_now)
rung_closed_form_example = rung_closed_form 32

rung_bounds_example : (64 ≤ 1000) × (1000 ≤ 1000)
unfolding rung for_strategy climb idle
rung_bounds_example = rung_bounds WaitStrategy.backoff 35 1000 refl
