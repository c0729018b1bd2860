-- ===== src/Sharded/Tests.antt =====
-- A sweep of src/sharded.rs over three shards.
use ultima_rings.Base.{
  refl, ℕ, zero, suc, ◌+◌, ◌<◌, ◌≡◌, ◌%◌, [], ◌∷◌, arith, some, min, ◌≤◌, length, ap, none,
  replicate, ◌^◌, List,
}
use ultima_rings.Channel.{ok, err, TryRecvError}
use ultima_rings.Wait.{WaitStrategy}
use ultima_rings.Spsc.Defs.{Config}
use ultima_rings.Spsc.System.{System, config, init}
use ultima_rings.Sharded.Construct.{new_receiver, IsAccepted, shards_outcome}
use ultima_rings.Sharded.{
  channel, Receiver, Call, Answer, try_recv, sweep, advance, drain, drain_loop,
}
use ultima_rings.Sharded.Sweep.{IsReceiver, run, visits_from, answer, IsFruitless, sweep_outcome}
use ultima_rings.Sharded.Batch.{Asks, DrainShows, amount, batch_outcome}

-- The shard at 0 has a value, the others are empty.
abbrev answers : (j : ℕ) (c : Call) → Answer ℕ c
answers j (Call.try_recv_shard zero) = ok 7
answers j (Call.try_recv_shard _) = err TryRecvError.empty
answers j (Call.drain_shard _ want) = some (min want 2)
answers j (Call.pause _) = tt

abbrev spent : Receiver
spent = record { shards = 3; cursor = 1; budget = 32; strategy = WaitStrategy.busy_spin }

spent_is : IsReceiver spent
spent_is = record { inside = omega arith; visits = omega arith }

sweep_outcome_example :
    ((m : ℕ) × (m < 3)
      × (Call.try_recv_shard 2 ∷ Call.try_recv_shard 0 ∷ [] ≡ visits_from answers 3 2 0 (suc m))
      × IsFruitless answers 3 2 (0 + m)
      × (answer answers 3 2 (0 + m) ≡ ok 7)
      × (0 ≡ (2 + (0 + m)) % 3))
    × IsReceiver (record spent { cursor = 0; budget = 1 })
    × (◌≡◌ {A = ℕ} 3 3)
unfolding run try_recv sweep advance
sweep_outcome_example = sweep_outcome answers spent spent_is

honest : (j i want k : ℕ) → answers j (Call.drain_shard i want) ≡ some k → k ≤ want
honest j i want k e = let f : min want 2 ≡ k = ap amount e in omega arith

batch_outcome_example :
    let calls = Call.drain_shard 1 5 ∷ Call.drain_shard 2 3 ∷ Call.drain_shard 0 1 ∷ [] in
    Asks answers 5 3 1 0 0 calls
    × (length calls ≤ 3)
    × DrainShows answers 5 3 1 0 3 0 calls 0 (some 5)
    × (◌≡◌ {A = ℕ} 3 3)
    × (0 < 3)
unfolding run drain drain_loop advance
batch_outcome_example = batch_outcome answers honest spent 5 (omega arith)

four_by_four : IsAccepted 4 16 2 WaitStrategy.backoff
four_by_four = record { some_shards = omega arith; fits = omega arith; whole = refl; awake = refl }

shards_outcome_example :
    ((p : List (Config × System ℕ) × Receiver)
      → channel 4 16 WaitStrategy.backoff ≡ some p
      → (k : ℕ) × IsAccepted 4 16 k WaitStrategy.backoff
        × (p ≡ (
          replicate 4 (config (2 ^ k) WaitStrategy.backoff, init (2 ^ k)),
          new_receiver 4 WaitStrategy.backoff,
        ))
        × IsReceiver (new_receiver 4 WaitStrategy.backoff))
    × ((k : ℕ)
        → IsAccepted 4 16 k WaitStrategy.backoff
        → channel {T = ℕ} 4 16 WaitStrategy.backoff
          ≡ some (
            replicate 4 (config (2 ^ k) WaitStrategy.backoff, init (2 ^ k)),
            new_receiver 4 WaitStrategy.backoff,
          ))
shards_outcome_example = shards_outcome 4 16 WaitStrategy.backoff

-- Accepted arguments, and two that are not.
four_shards :
    channel {T = ℕ} 4 16 WaitStrategy.backoff
    ≡ some
        (replicate 4 (config 4 WaitStrategy.backoff, init 4), new_receiver 4 WaitStrategy.backoff)
four_shards = (shards_outcome 4 16 WaitStrategy.backoff).1 2 four_by_four

no_shards : channel {T = ℕ} 0 16 WaitStrategy.backoff ≡ none
unfolding channel
no_shards = refl

uneven_shards : channel {T = ℕ} 3 16 WaitStrategy.backoff ≡ none
unfolding channel
uneven_shards = refl
