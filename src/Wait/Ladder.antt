-- ===== src/Wait/Ladder.antt =====
-- The ladder of src/wait.rs in closed form.
use native.Mathlib.Nat.{pow-suc, one-le-pow}
use ultima_rings.Base.{
  ℕ, zero, suc, ◌+◌, ◌-◌, ◌*◌, ◌^◌, ◌≤◌, ◌<◌, min, ◌≡◌, refl, true, false, arith, ltb,
  if◌then◌else◌,
}
use ultima_rings.Wait.{
  WaitStrategy, spins, yields, park_min, park_max, u32_max, spin_loop, yield_now, park_timeout,
  for_strategy, idle, climb, rung,
}

-- The park interval after `n` calls of the parking ladder: it doubles with each park.
abbrev pub interval : ℕ → ℕ
interval n = min (park_min * 2 ^ (n - (spins + yields))) park_max

interval-suc : (n : ℕ) → n < spins + yields → interval (suc n) ≡ park_min
interval-suc n h = let e : suc n - (spins + yields) ≡ 0 = omega arith in rw e

interval_double : (n : ℕ) → spins + yields ≤ n → interval (suc n) ≡ min (interval n * 2) park_max
interval_double n h =
    let e : suc n - (spins + yields) ≡ suc (n - (spins + yields)) = omega arith in
    rw e (omega (arith, pow-suc 2 (n - (spins + yields))))

interval_flat : (n : ℕ) → n ≤ spins + yields → interval n ≡ park_min
interval_flat n h = let e : n - (spins + yields) ≡ 0 = omega arith in rw e

-- The state after `n` calls of the parking ladder.
climb-parking :
    (n : ℕ)
    → let s = climb n (for_strategy WaitStrategy.backoff) in
      (s.step ≡ min n u32_max) × (s.yield_only ≡ false) × (s.park ≡ interval n)
unfolding climb for_strategy idle
climb-parking zero = (refl, refl, refl)
climb-parking (suc n) =
    ground (arith, climb-parking n, interval-suc n, interval_double n, interval_flat n)

climb-yielding :
    (n : ℕ)
    → let s = climb n (for_strategy WaitStrategy.backoff_yield) in
      (s.step ≡ min n u32_max) × (s.yield_only ≡ true) × (s.park ≡ park_min)
unfolding climb for_strategy idle
climb-yielding zero = (refl, refl, refl)
climb-yielding (suc n) = ground (arith, climb-yielding n)

rung-backoff :
    (n : ℕ)
    → rung WaitStrategy.backoff n ≡ (
        if ltb n spins
        then spin_loop
        else if ltb n (spins + yields)
        then yield_now
        else park_timeout (interval n))
unfolding rung idle
rung-backoff n = ground (arith, climb-parking n)

rung-backoff_yield :
    (n : ℕ) → rung WaitStrategy.backoff_yield n ≡ (if ltb n spins then spin_loop else yield_now)
unfolding rung idle
rung-backoff_yield n = ground (arith, climb-yielding n)

-- Call number `n` (from 0) of a `Backoff` ladder spins below 10, yields below 30, and from then on
-- parks for 64 microseconds doubled with each park, at most 1000, however often it is called; a
-- `BackoffYield` ladder spins below 10 and yields from then on: it never parks.
pub rung_closed_form :
    (n : ℕ)
    → (rung WaitStrategy.backoff n ≡ (
        if ltb n spins
        then spin_loop
        else if ltb n (spins + yields)
        then yield_now
        else park_timeout (interval n)))
      × (rung WaitStrategy.backoff_yield n ≡ (if ltb n spins then spin_loop else yield_now))
rung_closed_form n = (rung-backoff n, rung-backoff_yield n)

rung_bounds_parking :
    (n d : ℕ) → rung WaitStrategy.backoff n ≡ park_timeout d → (park_min ≤ d) × (d ≤ park_max)
rung_bounds_parking n d h = ground (arith, rung-backoff n, one-le-pow (n - (spins + yields)) 2)

-- Whatever the strategy, a timed park lasts at least 64 and at most 1000 microseconds.
pub rung_bounds :
    (strategy : WaitStrategy) (n d : ℕ)
    → rung strategy n ≡ park_timeout d
    → (park_min ≤ d) × (d ≤ park_max)
unfolding rung for_strategy
rung_bounds WaitStrategy.backoff n d h = rung_bounds_parking n d h
rung_bounds WaitStrategy.backoff_yield n d h = ground (arith, rung-backoff_yield n)
rung_bounds WaitStrategy.busy_spin n d h = rung_bounds_parking n d h
rung_bounds WaitStrategy.park n d h = rung_bounds_parking n d h
