-- ===== src/Spsc/Inv/Slots.antt =====
-- What the two slot accesses do to the contents of the ring.
use native.Mathlib.Decide.{dec_lt}
use native.Mathlib.Nat.{le_refl, mod-lt}
use native.Mathlib.Numerals.{add-one}
use ultima_rings.Base.{
  ℕ, ◌+◌, ◌-◌, ◌%◌, ◌≤◌, ◌<◌, ◌≡◌, sym, ap, ◌∙◌, true, false, none, some, List, [], ◌∷◌, ◌++◌,
  arith, leb, length, get_elem?, set, length-append, length-set, get_elem?-set_self,
  get_elem?-set_ne, get_elem?-append_left, get_elem?-append_last, get_elem?_of_lt, take-append_left,
  take-suc, mod-ne_of_near, mod-add_self,
}
use ultima_rings.Spsc.Inv.{Holds, Inv}
use ultima_rings.Spsc.Inv.Knowledge.{written_bounds}
use ultima_rings.Spsc.Rules.{Push, Pull}
use ultima_rings.Spsc.State.{State, Slot}

abbrev holding : {T : Type 0} → T → ℕ → Slot T
holding v i = record { content = some v; stamp = i + 1 }

abbrev empty_slot : {T : Type 0} → ℕ → Slot T
empty_slot stamp = record { content = none; stamp = stamp }

module _ {T : Type 0} (cap : ℕ) where
  -- The slot that the producer writes next is empty, and its last read is known to have happened.
  pub next_slot-free :
      (s : State T) (p : Push) (q : Pull)
      → Inv cap s p q
      → p.written < p.known + cap
      → (stamp : ℕ) × (leb stamp s.known_reads ≡ true)
        × (get_elem? s.slots (p.written % cap) ≡ some (empty_slot stamp))
  next_slot-free s p q inv room =
      let k = inv.knows in
      let near : p.written < q.read + cap = omega (arith, written_bounds cap s p q k, k.released) in
      let (stamp, old, e) = inv.holds.free p.written (le_refl _) near in
      (stamp, ground (arith, old, k.knows_reads), e)

  -- The slot that the consumer reads next holds the next value, whose write is known to have happened.
  pub next_slot-full :
      (s : State T) (p : Push) (q : Pull)
      → Inv cap s p q
      → q.read < q.known
      → (v : T) × (get_elem? s.written q.read ≡ some v)
        × (leb (q.read + 1) s.known_writes ≡ true)
        × (get_elem? s.slots (q.read % cap) ≡ some (holding v q.read))
  next_slot-full s p q inv more =
      let k = inv.knows in
      let near : q.read < p.written = omega (arith, written_bounds cap s p q k) in
      let (v, e) = get_elem?_of_lt s.written q.read (omega (arith, inv.holds.writes)) in
      (v, e, ground (arith, k.knows_writes), inv.holds.full q.read v (le_refl _) near e)

  module _ (v : T) (s : State T) (p : Push) (q : Pull) (h : Holds cap s p q) (pos : 0 < cap)
      (order : q.read ≤ p.written) where
    abbrev after_write : List (Slot T)
    after_write =
        set s.slots (p.written % cap) (record { content = some v; stamp = length s.written + 1 })

    full_after_write :
        (near : p.written < q.read + cap) (i : ℕ) (w : T)
        → q.read ≤ i
        → i < p.written + 1
        → get_elem? (s.written ++ (v ∷ [])) i ≡ some w
        → get_elem? after_write (i % cap) ≡ some (holding w i)
    full_after_write near i w lo hi e = elim (dec_lt i p.written) [
      | yes old ↦
          get_elem?-set_ne s.slots _ (λ c. mod-ne_of_near cap i p.written old (omega arith) (sym c))
          ∙ h.full i w lo old
              (sym (get_elem?-append_left s.written (v ∷ []) i (omega (arith, h.writes))) ∙ e)
      | no new ↦
          let same : i ≡ p.written = omega arith in
          ground (
            arith,
            h.writes,
            h.size,
            mod-lt p.written pos,
            get_elem?-append_last s.written v,
            get_elem?-set_self s.slots (p.written % cap)
                (record { content = some v; stamp = length s.written + 1 }),
          )
    ]

    free_after_write :
        (i : ℕ)
        → p.written + 1 ≤ i
        → i < q.read + cap
        → (stamp : ℕ) × (stamp ≤ i + 1 - cap)
          × (get_elem? after_write (i % cap) ≡ some (empty_slot stamp))
    free_after_write i lo hi =
        let (stamp, old, e) = h.free i (omega arith) hi in
        (
          stamp,
          old,
          get_elem?-set_ne s.slots _ (mod-ne_of_near cap p.written i (omega arith) (omega arith))
              ∙ e,
        )

    pub write_slot-Holds :
        p.written < q.read + cap
        → Holds cap
            (record s { slots = after_write; written = s.written ++ (v ∷ []) })
            (record p { written = p.written + 1; published = false })
            q
    write_slot-Holds near = record {
      size = length-set s.slots (p.written % cap) _ ∙ h.size;
      writes = omega (arith, h.writes, length-append s.written (v ∷ []));
      reads = h.reads;
      full = full_after_write near;
      free = free_after_write;
      fifo = h.fifo ∙ sym (take-append_left q.read s.written (v ∷ []) (omega (arith, h.writes)));
    }

    abbrev after_read : List (Slot T)
    after_read = set s.slots (q.read % cap) (record { content = none; stamp = length s.read + 1 })

    full_after_read :
        (near : p.written ≤ q.read + cap) (i : ℕ) (w : T)
        → q.read + 1 ≤ i
        → i < p.written
        → get_elem? s.written i ≡ some w
        → get_elem? after_read (i % cap) ≡ some (holding w i)
    full_after_read near i w lo hi e =
        get_elem?-set_ne s.slots _ (mod-ne_of_near cap q.read i (omega arith) (omega arith))
        ∙ h.full i w (omega arith) hi e

    free_after_read :
        (more : q.read < p.written) (i : ℕ)
        → p.written ≤ i
        → i < q.read + 1 + cap
        → (stamp : ℕ) × (stamp ≤ i + 1 - cap)
          × (get_elem? after_read (i % cap) ≡ some (empty_slot stamp))
    free_after_read more i lo hi = elim (dec_lt i (q.read + cap)) [
      | yes old ↦
          let (stamp, bound, e) = h.free i lo old in
          (
            stamp,
            bound,
            get_elem?-set_ne s.slots _ (mod-ne_of_near cap q.read i (omega arith) old) ∙ e,
          )
      | no new ↦
          let same : i ≡ q.read + cap = omega arith in
          (
            q.read + 1,
            omega arith,
            ground (
              arith,
              h.reads,
              h.size,
              mod-lt q.read pos,
              mod-add_self cap q.read pos,
              get_elem?-set_self s.slots (q.read % cap)
                  (record { content = none; stamp = length s.read + 1 }),
            ),
          )
    ]

    pub read_slot-Holds :
        p.written ≤ q.read + cap
        → q.read < p.written
        → get_elem? s.written q.read ≡ some v
        → Holds cap
            (record s { slots = after_read; read = s.read ++ (v ∷ []) })
            p
            (record q { read = q.read + 1 })
    read_slot-Holds near more e = record {
      size = length-set s.slots (q.read % cap) _ ∙ h.size;
      writes = h.writes;
      reads = omega (arith, h.reads, length-append s.read (v ∷ []));
      full = full_after_read near;
      free = free_after_read more;
      fifo =
          rw (add-one q.read) (ap (λ l. l ++ (v ∷ [])) h.fifo ∙ sym (take-suc q.read s.written e));
    }
