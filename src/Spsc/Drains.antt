-- ===== src/Spsc/Drains.antt =====
-- `drain` of src/spsc.rs keeps to the consumer's rules, and what it hands over and returns.
use ultima_rings.Base.{
  ℕ, zero, suc, ◌+◌, ◌≤◌, ◌<◌, ◌≡◌, refl, Bool, true, false, List, [], ◌∷◌, ◌++◌, Option, none,
  some, arith, add_usize, wrap, wrap-injective, Bool-cases, inl, inr, ◌==◌, ltb, ◌&&◌,
  if◌then◌else◌, length, length-append, bit_and,
}
use ultima_rings.Program.{ret, ◌>>=◌, ◌>>◌, producer, seq_cst}
use ultima_rings.Wait.{is_park}
use ultima_rings.Spsc.Config.{IsConfig, cap_bounds, slot_index}
use ultima_rings.Spsc.Defs.{Config, Receiver, read_slot, fence, wake, apply, Code, get}
use ultima_rings.Spsc.Ops.{available, drain_loop, publish_guard, drain}
use ultima_rings.Spsc.Receives.{
  Reads, IsReceiver, reload, taken, released, empty_test, nonempty_test,
}
use ultima_rings.Spsc.Rules.{Pull, Consumes}
use ultima_rings.Spsc.Rules.Bind.{Consumes-bind}

-- The loop of `drain`, started at `p`, has read the values `out` and given the closure each of them,
-- in order, without releasing any.
record Draining {T : Type 0} (cap max : ℕ) (p : Pull) (self : Receiver) (count : ℕ) (q : Pull)
    (out : List T) : Type 0 where
  reads : Reads cap self q
  kept : q.released ≡ p.released
  total : q.read ≡ p.read + length out
  counted : count ≡ length out
  limit : count ≤ max

-- What the loop leaves behind: it was cut short by the closure, has reached the limit, or has seen
-- no further item.
abbrev Drained : {T : Type 0} → ℕ → ℕ → Pull → Receiver × ℕ × Bool → Pull → List T → List T → Type 0
Drained cap max p (self, count, returned) q out given =
    Draining cap max p self count q out
    × (given ≡ out)
    × (returned ≡ true → count < max → q.read ≡ q.known)

module _ (T : Type 0) {sh : Config} (is : IsConfig sh) where
  abbrev Looped : Pull → ℕ → ℕ → Type 0
  Looped p max n =
      (self : Receiver) (count : ℕ) (q : Pull) (out : List T)
      → count + n ≡ max
      → Draining sh.cap max p self count q out
      → Consumes sh.cap (Drained sh.cap max p) (drain_loop sh n self count) q out out

  -- One round that takes an item, given the rest of the loop.
  abbrev round : ℕ → Receiver → ℕ → Code T (Receiver × ℕ × Bool)
  round n self count = get (read_slot (bit_and self.head sh.mask)) >>= λ v.
      let self = record self { head = add_usize self.head 1 } in
      get (apply v) >>= λ returned.
      if returned then drain_loop sh n self (count + 1) else ret (self, count + 1, false)

  round-Consumes :
      (p : Pull) (max n : ℕ)
      → Looped p max n
      → (self : Receiver) (count : ℕ) (q : Pull) (out : List T) → count + suc n ≡ max
      → (d : Draining sh.cap max p self count q out) → q.read < d.reads.cached
      → Consumes sh.cap (Drained sh.cap max p) (round n self count) q out out
  round-Consumes p max n rest self count q out e d more =
      (omega (arith, d.reads.behind), rw d.reads.head (slot_index is q.read), λ v. after v)
    where
      step :
          (v : T)
          → Draining sh.cap max p
              (record self { head = add_usize self.head 1 })
              (count + 1)
              (record q { read = q.read + 1 })
              (out ++ (v ∷ []))
      step v = record {
        reads = taken is self q d.reads more;
        kept = d.kept;
        total = omega (arith, d.total, length-append out (v ∷ []));
        counted = omega (arith, d.counted, length-append out (v ∷ []));
        limit = omega arith;
      }

      after :
          (v : T) (b : Bool)
          → Consumes sh.cap
              (Drained sh.cap max p)
              (if b
                then drain_loop sh n (record self { head = add_usize self.head 1 }) (count + 1)
                else ret (record self { head = add_usize self.head 1 }, count + 1, false))
              (record q { read = q.read + 1 })
              (out ++ (v ∷ []))
              (out ++ (v ∷ []))
      after v true = rest _ _ _ _ (omega arith) (step v)
      after v false = (step v, refl, λ r. absurd (cc))

  loop-Consumes : (p : Pull) (max n : ℕ) → Looped p max n
  unfolding drain_loop available reload
  loop-Consumes p max zero self count q out e d = (d, refl, λ r lt. absurd (omega arith))
  loop-Consumes p max (suc n) self count q out e d =
      elim (Bool-cases (self.head == self.cached_tail)) [
        | inl e1 ↦ rw e1 (λ t lo hi c.
            let reads' = reload is self q d.reads t q.complete lo hi in
            let d' : Draining sh.cap max p (record self { cached_tail = wrap t }) count
                (record q { known = t }) out =
              record {
                reads = reads';
                kept = d.kept;
                total = d.total;
                counted = d.counted;
                limit = d.limit;
              } in
            elim (Bool-cases (self.head == wrap t)) [
              | inl e2 ↦ rw e2 (d', refl, λ r lt. empty_test is _ _ reads' e2)
              | inr e2 ↦ rw e2 (
                  round-Consumes p max n (loop-Consumes p max n) _ _ _ _ e d'
                    (nonempty_test is _ _ reads' e2))
            ])
        | inr e1 ↦ rw e1 (
            round-Consumes p max n (loop-Consumes p max n) self count q out e d
              (nonempty_test is self q d.reads e1))
      ]

  -- What `drain` returns: the number of values that it has read and given the closure, at most
  -- `max`; fewer only where it has seen that no more were published. Every read is released, also
  -- when the closure unwinds.
  abbrev pub DrainDone : ℕ → Receiver × Option ℕ → Pull → List T → List T → Type 0
  DrainDone max (self, some n) q out given =
      IsReceiver sh.cap self q
      × (given ≡ out)
      × (n ≡ length out)
      × (n ≤ max)
      × (n < max → q.read ≡ q.known)
  DrainDone max (self, none) q out given = IsReceiver sh.cap self q × (given ≡ out)

  -- `drain` from the end of its loop on.
  abbrev finish : ℕ → Receiver × ℕ × Bool → Code T (Receiver × Option ℕ)
  finish start (after, count, returned) =
      publish_guard sh start after
      >> (if returned
          then (if ltb 0 count && is_park sh.strategy
              then (get (fence seq_cst) >> get (wake producer))
              else ret tt)
            >> ret (after, some count)
          else ret (after, none))

  notified :
      (max : ℕ) (self : Receiver) (count : ℕ) (returned : Bool) (q : Pull) (out given : List T)
      → IsReceiver sh.cap self q
      → given ≡ out
      → count ≡ length out
      → count ≤ max
      → (returned ≡ true → count < max → q.read ≡ q.known)
      → Consumes sh.cap
          (DrainDone max)
          (if returned
            then (if ltb 0 count && is_park sh.strategy
                then (get (fence seq_cst) >> get (wake producer))
                else ret tt)
              >> ret (self, some count)
            else ret (self, none))
          q
          out
          given
  notified max self count true q out given r g c l h =
      elim (Bool-cases (ltb 0 count && is_park sh.strategy)) [
        | inl e ↦ rw e (r, g, c, l, h refl)
        | inr e ↦ rw e (r, g, c, l, h refl)
      ]
  notified max self count false q out given r g c l h = (r, g)

  -- Where the guard finds the cursor where it was, nothing was read.
  none_taken :
      (max : ℕ) (self : Receiver) (p : Pull) (s : IsReceiver sh.cap self p) (after : Receiver)
      (count : ℕ) (q : Pull) (out : List T)
      → Draining sh.cap max p after count q out
      → (after.head == self.head) ≡ true
      → q.released ≡ q.read
  none_taken max self p s after count q out d e =
      let same : q.read ≡ p.read =
        wrap-injective q.read p.read (omega (arith, d.total))
          (omega
            (arith, d.reads.ahead, d.reads.behind, d.reads.room, d.kept, s.released, cap_bounds is))
          (ground (arith, d.reads.head, s.reads.head)) in
      omega (arith, d.kept, s.released)

  finish-Consumes :
      (max : ℕ) (self : Receiver) (p : Pull) (s : IsReceiver sh.cap self p)
      (a : Receiver × ℕ × Bool) (q : Pull) (out given : List T)
      → Drained sh.cap max p a q out given
      → Consumes sh.cap (DrainDone max) (finish self.head a) q out given
  finish-Consumes max self p s (after, count, returned) q out given (d, g, h) =
      elim (Bool-cases (after.head == self.head)) [
        | inl e ↦ rw e (
            notified max after count returned q out given
              (record { reads = d.reads; released = none_taken max self p s after count q out d e })
              g d.counted d.limit h)
        | inr e ↦ rw e (
          refl,
          d.reads.head,
          notified max after count returned _ out given (released is after q d.reads) g d.counted
              d.limit h,
        )
      ]

  pub drain-Consumes :
      (max : ℕ) (self : Receiver) (p : Pull)
      → IsReceiver sh.cap self p
      → Consumes sh.cap (DrainDone max) (drain sh self max) p [] []
  unfolding drain
  drain-Consumes max self p s =
      Consumes-bind sh.cap (Drained sh.cap max p) (DrainDone max) (drain_loop sh max self 0)
        (finish self.head) p [] [] (loop-Consumes p max max self 0 p [] (omega arith) start)
        (finish-Consumes max self p s)
    where
      start : Draining {T = T} sh.cap max p self 0 p []
      start = record {
        reads = s.reads;
        kept = refl;
        total = omega arith;
        counted = refl;
        limit = omega arith;
      }
