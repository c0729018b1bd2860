-- ===== src/Mpsc/Drains.antt =====
-- `drain` of src/mpsc.rs keeps to the consumer's rules.
use ultima_rings.Base.{
  ℕ, zero, suc, ◌+◌, ◌≤◌, ◌≡◌, refl, ap, true, false, Bool, Option, none, some, List, [], ◌∷◌, ◌++◌,
  arith, ◌==◌, ltb, Bool-cases, inl, inr, if◌then◌else◌, add_usize, bit_and, length, length-append,
}
use ultima_rings.Program.{ret, ◌>>=◌, ◌>>◌}
use ultima_rings.Wait.{is_park}
use ultima_rings.Mpsc.Config.{IsConfig, slot_index}
use ultima_rings.Mpsc.Defs.{Config, Receiver, Code, get, apply, read_slot}
use ultima_rings.Mpsc.ReceiverOps.{notify_producers, drain_loop, publish_guard, drain}
use ultima_rings.Mpsc.Receives.{Reads, IsReceiver, slot_published-Consumes, read_on}
use ultima_rings.Mpsc.Rules.{Pull, Consumes}
use ultima_rings.Mpsc.Rules.Bind.{Consumes-bind}

module _ (T : Type 0) {sh : Config} (is : IsConfig sh) where
  -- In the middle of a `drain` that began after `start` reads.
  record Draining (start max : ℕ) (self : Receiver) (count : ℕ) (p : Pull) (out given : List T)
      : Type 0 where
    reads : Reads self p.read
    released : p.released ≡ start
    total : p.read ≡ start + length out
    counted : count ≡ length out
    same : given ≡ out
    limit : count ≤ max

  abbrev Drained : ℕ → ℕ → Receiver × ℕ × Bool → Pull → List T → List T → Type 0
  Drained start max (self, count, returned) p out given = Draining start max self count p out given

  -- One round of the loop of `drain`, given its later rounds.
  abbrev round : ℕ → Receiver → ℕ → Bool → Code T (Receiver × ℕ × Bool)
  round n self count published =
      if published
      then (get (read_slot (bit_and self.head sh.mask)) >>= λ v. get (apply v) >>= λ returned.
          if returned
          then drain_loop sh n (record self { head = add_usize self.head 1 }) (count + 1)
          else ret (record self { head = add_usize self.head 1 }, count + 1, false))
      else ret (self, count, true)

  Looped : ℕ → ℕ → ℕ → Type 0
  Looped start max n =
      (self : Receiver) (count : ℕ) (p : Pull) (out given : List T)
      → count + n ≡ max
      → Draining start max self count p out given
      → Consumes sh.cap (Drained start max) (drain_loop sh n self count) p out given

  round-Consumes :
      (start max n : ℕ)
      → Looped start max n
      → (self : Receiver) (count : ℕ) (p : Pull) (out given : List T) → count + suc n ≡ max
      → Draining start max self count p out given
      → (b a : Bool) → (b ≡ true → a ≡ true)
      → Consumes sh.cap
          (Drained start max)
          (round n self count b)
          (record p { available = a })
          out
          given
  unfolding Looped
  round-Consumes start max n rest self count p out given e d true a h = (
    h refl,
    rw d.reads.head (slot_index is p.read (omega (arith, d.reads.small))),
    λ v lt.
        let d' : Draining start max (record self { head = add_usize self.head 1 }) (count + 1)
            (record p { read = p.read + 1; available = false }) (out ++ (v ∷ []))
            (given ++ (v ∷ [])) =
          record {
            reads = read_on T is self p.read d.reads lt;
            released = d.released;
            total = omega (arith, d.total, length-append out (v ∷ []));
            counted = omega (arith, d.counted, length-append out (v ∷ []));
            same = ap (λ l. l ++ (v ∷ [])) d.same;
            limit = omega arith;
          } in
        after v d',
  )
    where
      after :
          (v : T)
          → Draining start max
              (record self { head = add_usize self.head 1 })
              (count + 1)
              (record p { read = p.read + 1; available = false })
              (out ++ (v ∷ []))
              (given ++ (v ∷ []))
          → (r : Bool)
          → Consumes sh.cap
              (Drained start max)
              (if r
                then drain_loop sh n (record self { head = add_usize self.head 1 }) (count + 1)
                else ret (record self { head = add_usize self.head 1 }, count + 1, false))
              (record p { read = p.read + 1; available = false })
              (out ++ (v ∷ []))
              (given ++ (v ∷ []))
      after v d' true = rest _ _ _ _ _ (omega arith) d'
      after v d' false = d'
  round-Consumes start max n rest self count p out given e d false a h = record {
    reads = d.reads;
    released = d.released;
    total = d.total;
    counted = d.counted;
    same = d.same;
    limit = d.limit;
  }

  drain_loop-Consumes : (start max n : ℕ) → Looped start max n
  unfolding drain_loop Looped
  drain_loop-Consumes start max zero self count p out given e d = d
  drain_loop-Consumes start max (suc n) self count p out given e d =
      slot_published-Consumes T is (Drained start max) (round n self count) self p out given d.reads
        (λ b a t c.
          round-Consumes start max n (drain_loop-Consumes start max n) self count p out given e d b
            a t)

  -- What `drain` returns: the number of values that it has read and given to the closure, at most
  -- `max`. Every read is released, also when the closure unwinds.
  abbrev pub DrainDone : ℕ → Receiver × Option ℕ → Pull → List T → List T → Type 0
  DrainDone max (self, some n) p out given =
      IsReceiver self p × (given ≡ out) × (n ≡ length out) × (n ≤ max)
  DrainDone max (self, none) p out given = IsReceiver self p × (given ≡ out)

  -- `drain` from the end of its loop on.
  abbrev finish : ℕ → Receiver × ℕ × Bool → Code T (Receiver × Option ℕ)
  finish start (after, count, returned) =
      publish_guard sh start after
      >> (if returned
          then (if ltb 0 count then notify_producers sh else ret tt) >> ret (after, some count)
          else ret (after, none))

  notified :
      (max : ℕ) (self : Receiver) (count : ℕ) (returned : Bool) (p : Pull) (out given : List T)
      → IsReceiver self p
      → given ≡ out
      → count ≡ length out
      → count ≤ max
      → Consumes sh.cap
          (DrainDone max)
          (if returned
            then (if ltb 0 count then notify_producers sh else ret tt) >> ret (self, some count)
            else ret (self, none))
          p
          out
          given
  notified max self count true p out given r g c l = elim (Bool-cases (ltb 0 count)) [
    | inl e ↦ rw e (elim (Bool-cases (is_park sh.strategy)) [
      | inl f ↦ rw f (r, g, c, l)
      | inr f ↦ rw f (r, g, c, l)
    ])
    | inr e ↦ rw e (r, g, c, l)
  ]
  notified max self count false p out given r g c l = (r, g)

  finish-Consumes :
      (start : Receiver) (max n : ℕ)
      → Reads start n
      → (a : Receiver × ℕ × Bool) (p : Pull) (out given : List T) → Drained n max a p out given
      → Consumes sh.cap (DrainDone max) (finish start.head a) p out given
  finish-Consumes start max n s (self, count, returned) p out given d =
      elim (Bool-cases (self.head == start.head)) [
        | inl e ↦
            let idle : IsReceiver self p = record {
              reads = d.reads;
              released = ground (arith, d.reads.head, s.head, d.released);
            } in
            rw e (notified max self count returned p out given idle d.same d.counted d.limit)
        | inr e ↦ rw e (
          refl,
          d.reads.head,
          notified max self count returned _ out given (record { reads = d.reads; released = refl })
              d.same d.counted d.limit,
        )
      ]

  pub drain-Consumes :
      (max : ℕ) (self : Receiver) (p : Pull)
      → IsReceiver self p
      → Consumes sh.cap (DrainDone max) (drain sh self max) p [] []
  unfolding drain Looped
  drain-Consumes max self p s =
      Consumes-bind sh.cap (Drained p.read max) (DrainDone max) (drain_loop sh max self 0)
        (finish self.head) p [] []
        (drain_loop-Consumes p.read max max self 0 p [] [] (omega arith) (record {
          reads = s.reads;
          released = s.released;
          total = omega arith;
          counted = refl;
          same = refl;
          limit = omega arith;
        }))
        (finish-Consumes self max p.read s.reads)
