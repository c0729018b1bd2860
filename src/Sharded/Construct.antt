-- ===== src/Sharded/Construct.antt =====
-- What the constructor of src/sharded.rs accepts.
use native.Mathlib.Nat.{div-add-mod, mul-mod_right, mul-div_cancel_left}
use mathlib.Core.Option.{some-injective}
use ultima_rings.Base.{
  ◌∙◌, ℕ, ◌+◌, ◌*◌, ◌/◌, ◌%◌, ◌^◌, ◌<◌, ◌≡◌, refl, sym, true, false, Bool, ◌&&◌, not, some, none,
  List, replicate, arith, usize_bits, ltb, ◌==◌, if◌then◌else◌,
}
use ultima_rings.Channel.{assert_cap, is_power_of_two}
use ultima_rings.Channel.Capacity.{assert_cap_iff}
use ultima_rings.Wait.{WaitStrategy, is_park}
use ultima_rings.Spsc.Construct.{channel_outcome}
use ultima_rings.Spsc.Defs.{Config}
use ultima_rings.Spsc.System.{System, config, init}
use ultima_rings.Sharded.{Receiver, channel}
use ultima_rings.Sharded.Sweep.{IsReceiver}

abbrev pub new_receiver : ℕ → WaitStrategy → Receiver
new_receiver n strategy = record { shards = n; cursor = 0; budget = 0; strategy = strategy }

-- Arguments that the constructor accepts: some shards, each of the same capacity, a power of two
-- that is a word, and a strategy other than `Park`.
pub record IsAccepted (n total k : ℕ) (strategy : WaitStrategy) : Type 0 where
  pub some_shards : 0 < n
  pub fits : k < usize_bits
  pub whole : total ≡ n * 2 ^ k
  pub awake : is_park strategy ≡ false

parts :
    (a b c d : Bool)
    → (a && b && c && not d) ≡ true
    → (a ≡ true) × (b ≡ true) × (c ≡ true) × (d ≡ false)
parts a b c d h = ground (arith, h)

even_shards : (n total k : ℕ) → (total % n == 0) ≡ true → total / n ≡ 2 ^ k → total ≡ n * 2 ^ k
even_shards n total k even size =
    let none_left : total % n ≡ 0 = ground (arith, even) in
    rw (sym size) (
      let all : n * (total / n) + total % n ≡ total = div-add-mod total n in
      omega (arith, none_left))

module _ {T : Type 0} (n total : ℕ) (strategy : WaitStrategy) where
  accepted :
      (k : ℕ)
      → IsAccepted n total k strategy
      → channel {T = T} n total strategy
        ≡ some (replicate n (config (2 ^ k) strategy, init (2 ^ k)), new_receiver n strategy)
  unfolding channel assert_cap
  accepted k a =
      let fit : assert_cap (2 ^ k) ≡ true = (assert_cap_iff (2 ^ k)).1 (k, a.fits, refl) in
      let ring = (channel_outcome {T = T} (2 ^ k) strategy).1 k a.fits refl in
      let shards : ltb 0 n ≡ true = ground (arith, a.some_shards) in
      rw
        (
          a.whole,
          mul-div_cancel_left (2 ^ k) a.some_shards,
          mul-mod_right n (2 ^ k),
          shards,
          fit,
          a.awake,
          ring,
        )
        refl

  channel-IsAccepted :
      (p : _) → channel {T = T} n total strategy ≡ some p → (k : ℕ) × IsAccepted n total k strategy
  unfolding channel assert_cap
  channel-IsAccepted p h = go _ _ refl h
    where
      go :
          (made : _) (guards : Bool)
          → (ltb 0 n
              && total % n == 0
              && (ltb 0 (total / n) && is_power_of_two (total / n))
              && not (is_park strategy))
            ≡ guards
          → (if guards then made else none) ≡ some p
          → (k : ℕ) × IsAccepted n total k strategy
      go made true e h =
          let (some_shards, even, fit, awake) =
            parts (ltb 0 n) (total % n == 0) (ltb 0 (total / n) && is_power_of_two (total / n))
              (is_park strategy) e in
          let (k, lt, size) = (assert_cap_iff (total / n)).0 fit in
          (
            k,
            record {
              some_shards = ground (arith, some_shards);
              fits = lt;
              whole = even_shards n total k even size;
              awake = awake;
            },
          )
      go made false e h = absurd (ground (arith, h))

-- The constructor panics unless the arguments are accepted: some shards, a total capacity that is that
-- number times a power of two below the word size, and a strategy other than `Park`. If it does not
-- panic, it gives every shard an empty ring of that power of two as its capacity, and the consumer, with
-- its cursor at the first shard. For accepted arguments it does not panic.
pub shards_outcome :
    {T : Type 0} (n total : ℕ) (strategy : WaitStrategy)
    → ((p : List (Config × System T) × Receiver)
        → channel n total strategy ≡ some p
        → (k : ℕ) × IsAccepted n total k strategy
          × (p ≡ (replicate n (config (2 ^ k) strategy, init (2 ^ k)), new_receiver n strategy))
          × IsReceiver (new_receiver n strategy))
      × ((k : ℕ)
          → IsAccepted n total k strategy
          → channel {T = T} n total strategy
            ≡ some (replicate n (config (2 ^ k) strategy, init (2 ^ k)), new_receiver n strategy))
shards_outcome n total strategy = (
  λ p h.
      let (k, a) = channel-IsAccepted n total strategy p h in
      (
        k,
        a,
        some-injective p _ (sym h ∙ accepted n total strategy k a),
        record { inside = a.some_shards; visits = omega arith },
      ),
  accepted n total strategy,
)
