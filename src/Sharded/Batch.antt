-- ===== src/Sharded/Batch.antt =====
-- What `drain` of src/sharded.rs takes from the shards.
use native.Mathlib.Nat.{mod-lt, mod-eq_of_lt}
use ultima_rings.Base.{
  ℕ, zero, suc, ◌+◌, ◌-◌, ◌%◌, ◌≤◌, ◌<◌, ◌≡◌, refl, sym, List, [], ◌∷◌, Option, some, none, arith,
  length, leb, ◌==◌, inl, inr, ◌⊎◌, Bool-cases,
}
use ultima_rings.Sharded.{Receiver, Call, Answer, advance, drain_loop, drain}
use ultima_rings.Sharded.Sweep.{run, next_shard}

answered : (o : Option ℕ) → (o ≡ none) ⊎ ((k : ℕ) × (o ≡ some k))
answered none = inl refl
answered (some k) = inr (k, refl)

abbrev pub amount : Option ℕ → ℕ
amount none = 0
amount (some k) = k

module _ {T : Type 0} (answers : (j : ℕ) (c : Call) → Answer T c) where
  -- The number of items that the calls from number `j` on took, an unwinding call aside.
  abbrev pub taken : ℕ → List Call → ℕ
  taken j [] = 0
  taken j (Call.drain_shard i want ∷ calls) =
      amount (answers j (Call.drain_shard i want)) + taken (suc j) calls
  taken j (Call.try_recv_shard _ ∷ calls) = taken (suc j) calls
  taken j (Call.pause _ ∷ calls) = taken (suc j) calls

  -- Call number `j` is a shard's `drain` that returns, or unwinds.
  abbrev pub Returns : ℕ → Call → Type 0
  Returns j (Call.drain_shard i want) = (k : ℕ) × (answers j (Call.drain_shard i want) ≡ some k)
  Returns j (Call.try_recv_shard _) = ⊥
  Returns j (Call.pause _) = ⊥

  abbrev pub Unwinds : ℕ → Call → Type 0
  Unwinds j (Call.drain_shard i want) = answers j (Call.drain_shard i want) ≡ none
  Unwinds j (Call.try_recv_shard _) = ⊥
  Unwinds j (Call.pause _) = ⊥

  -- All calls from number `j` on returned.
  abbrev pub Returned : ℕ → List Call → Type 0
  Returned j [] = Unit
  Returned j (c ∷ calls) = Returns j c × Returned (suc j) calls

  -- The last of the calls from number `j` on unwound, and all others returned.
  abbrev pub Unwound : ℕ → List Call → Type 0
  Unwound j [] = ⊥
  Unwound j (c ∷ calls) = (Unwinds j c × (calls ≡ [])) ⊎ (Returns j c × Unwound (suc j) calls)

  module _ (max n from : ℕ) where
    -- From call number `j` on, each call is of the next shard, cyclically, for all that is then left of
    -- `max`, which is never nothing.
    abbrev pub Asks : ℕ → ℕ → List Call → Type 0
    Asks j count [] = Unit
    Asks j count (Call.drain_shard i want ∷ calls) =
        (i ≡ (from + j) % n)
        × (want ≡ max - count)
        × (count < max)
        × Asks (suc j) (count + amount (answers j (Call.drain_shard i want))) calls
    Asks j count (Call.try_recv_shard _ ∷ calls) = ⊥
    Asks j count (Call.pause _ ∷ calls) = ⊥

    -- What the calls, the new cursor and the result of the loop of `drain` show, which began with `count`
    -- items taken, call number `j` to make and `left` shards to visit.
    abbrev pub DrainShows : ℕ → ℕ → ℕ → List Call → ℕ → Option ℕ → Type 0
    DrainShows j left count calls cursor (some k) =
        (k ≡ count + taken j calls)
        × (k ≤ max)
        × (k < max → length calls ≡ left)
        × (k ≡ max
            → count < max
            → (m : ℕ) × (length calls ≡ suc m) × (cursor ≡ (from + (j + m)) % n))
        × Returned j calls
    DrainShows j left count calls cursor none =
        ((m : ℕ) × (length calls ≡ suc m) × (cursor ≡ (from + (j + m)) % n)) × Unwound j calls

    Outcome : ℕ → ℕ → ℕ → List Call × (Receiver × Option ℕ) → Type 0
    Outcome j left count (calls, (self, r)) =
        Asks j count calls
        × (length calls ≤ left)
        × DrainShows j left count calls self.cursor r
        × (self.shards ≡ n)
        × (self.cursor < n)

    -- One call that leaves more to take, before the rest of the loop.
    visited :
        (j left count i k : ℕ) (p : List Call × (Receiver × Option ℕ))
        → answers j (Call.drain_shard i (max - count)) ≡ some k
        → i ≡ (from + j) % n
        → count + k < max
        → Outcome (suc j) left (count + k) p
        → Outcome j (suc left) count (Call.drain_shard i (max - count) ∷ p.0, p.1)
    unfolding Outcome
    visited j left count i k (calls, (self, some t)) e at room
          (asks, visits, (total, most, all, held, fine), size, inside) =
        rw e (
          (at, refl, omega (arith, room), asks),
          omega arith,
          (
            omega arith,
            most,
            (λ h. omega (arith, all h)),
            λ full _.
                let (m, len, there) = held full room in
                let same : j + suc m ≡ suc j + m = omega arith in
                (suc m, omega arith, rw same there),
            ((k, refl), fine),
          ),
          size,
          inside,
        )
    visited j left count i k (calls, (self, none)) e at room
          (asks, visits, ((m, len, held), ends), size, inside) =
        let same : j + suc m ≡ suc j + m = omega arith in
        rw e (
          (at, refl, omega (arith, room), asks),
          omega arith,
          ((suc m, omega arith, rw same held), inr ((k, refl), ends)),
          size,
          inside,
        )

    drain_loop_lem :
        ((j i want k : ℕ) → answers j (Call.drain_shard i want) ≡ some k → k ≤ want)
        → (left count j : ℕ) (self : Receiver) → count ≤ max
        → 0 < n
        → self.shards ≡ n
        → self.cursor ≡ (from + j) % n
        → Outcome j left count (run answers j (drain_loop left max self count))
    unfolding drain_loop run Outcome advance
    drain_loop_lem honest zero count j self within pos size at = (
      tt,
      omega arith,
      (omega arith, within, (λ h. refl), (λ h lt. absurd (omega arith)), tt),
      size,
      rw at (mod-lt (from + j) pos),
    )
    drain_loop_lem honest (suc left) count j self within pos size at =
        elim (Bool-cases (leb max count)) [
          | inl full ↦ rw full (
            tt,
            omega arith,
            (
              omega arith,
              within,
              (λ h. absurd (ground (arith, full, h))),
              (λ h lt. absurd (ground (arith, full, lt))),
              tt,
            ),
            size,
            rw at (mod-lt (from + j) pos),
          )
          | inr room ↦
              rw room (elim (answered (answers j (Call.drain_shard self.cursor (max - count)))) [
                | inl e ↦ rw e (
                  (at, refl, ground (arith, room), tt),
                  omega arith,
                  ((0, refl, (let same : j + 0 ≡ j = omega arith in rw same at)), inl (e, refl)),
                  size,
                  rw at (mod-lt (from + j) pos),
                )
                | inr (k, e) ↦
                    let less : k ≤ max - count = honest j self.cursor (max - count) k e in
                    let next : (advance self).cursor ≡ (from + suc j) % n =
                      (let m : from + suc j ≡ suc (from + j) = omega arith in
                        rw (size, m) (next_shard n (from + j) self.cursor pos at)) in
                    rw e (elim (Bool-cases (k == max - count)) [
                      | inl reached ↦ rw reached (
                          rw e (
                            (at, refl, ground (arith, room), tt),
                            omega arith,
                            (
                              omega arith,
                              ground (arith, reached),
                              (λ h. absurd (ground (arith, reached, h))),
                              (λ h _.
                                  (0, refl, (let same : j + 0 ≡ j = omega arith in rw same at))),
                              ((k, refl), tt),
                            ),
                            size,
                            rw at (mod-lt (from + j) pos),
                          ))
                      | inr short ↦ rw short (
                          rw e at (
                            visited j left count self.cursor k
                              (run answers (suc j) (drain_loop left max (advance self) (count + k)))
                              e at (ground (arith, short, less, room))
                              (drain_loop_lem honest left (count + k) (suc j) (advance self)
                                (omega arith) pos size next)))
                    ])
              ])
        ]

-- If the cursor points to a shard, and no shard's `drain` that returns takes more than it is asked for,
-- then `drain max` asks the shards one after another, cyclically from the one at the cursor, each at
-- most once, and each for all that is left of `max`, which is more than nothing. On a return it gives
-- the number of items that these calls took: at most `max`, and less than `max` only if every shard was
-- asked; if `max` is reached (and is not 0), the cursor stays at the shard asked last. It returns if
-- all its calls returned. If a call unwinds, it is the last one, and `drain` unwinds with the cursor at
-- its shard. The cursor always points to a shard.
pub batch_outcome :
    {T : Type 0} (answers : (j : ℕ) (c : Call) → Answer T c)
    → ((j i want k : ℕ) → answers j (Call.drain_shard i want) ≡ some k → k ≤ want)
    → (self : Receiver) (max : ℕ) → self.cursor < self.shards
    → let (calls, (after, r)) = run answers 0 (drain self max) in
      Asks answers max self.shards self.cursor 0 0 calls
      × (length calls ≤ self.shards)
      × DrainShows answers max self.shards self.cursor 0 self.shards 0 calls after.cursor r
      × (after.shards ≡ self.shards)
      × (after.cursor < self.shards)
unfolding drain Outcome
batch_outcome answers honest self max inside =
    let here : self.cursor ≡ (self.cursor + 0) % self.shards =
      (let k : self.cursor + 0 ≡ self.cursor = omega arith in rw k (sym (mod-eq_of_lt inside))) in
    drain_loop_lem answers max self.shards self.cursor honest self.shards 0 0 self (omega arith)
      (omega (arith, inside)) refl here
