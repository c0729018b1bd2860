-- ===== src/Mpsc/Inv/Look.antt =====
-- What the consumer learns when it looks at the round of the next slot, or at the count of senders.
use native.Mathlib.Decide.{dec_lt}
use native.Mathlib.Nat.{le_refl}
use ultima_rings.Base.{
  ℕ, zero, suc, ◌/◌, ◌%◌, ◌≤◌, ◌<◌, ◌≡◌, ◌≢◌, refl, sym, ap, subst, ◌∙◌, Bool, some, List, arith,
  get_elem?, member-le-total, update, Bool-cases, inl, inr, ◌==◌,
}
use ultima_rings.Mpsc.Inv.{
  Phase, unclaimed, claimed, filled, published, Rounds, Holds, Window, Owners, Holders,
}
use ultima_rings.Mpsc.State.{Slot, Pending, none_pending, latest_round}

module _ {T : Type 0} where
  -- A round that is the turn of the sequence `n` was stored by its publication.
  pub round-published :
      (cap n choice : ℕ) (slot : Slot T) (phase : Phase T)
      → n / cap ≤ choice
      → Rounds slot.rounds
      → Holds cap n phase slot
      → choice ≤ slot.rounds.latest
      → slot.rounds.value choice ≡ n / cap
      → (v : T) × (phase ≡ published v)
        × (choice ≡ suc (n / cap))
        × (slot.rounds.clock choice ≡ suc (n / cap))
  round-published cap n zero slot phase ge h holds le e = absurd (omega (arith, h.initial))
  round-published cap n (suc c) slot unclaimed ge h holds le e =
      absurd (omega (arith, (h.values c le).0, holds.2))
  round-published cap n (suc c) slot (claimed i) ge h holds le e =
      absurd (omega (arith, (h.values c le).0, holds.2))
  round-published cap n (suc c) slot (filled i v) ge h holds le e =
      absurd (omega (arith, (h.values c le).0, holds.2))
  round-published cap n (suc c) slot (published v) ge h holds le e =
      let (value, clock) = h.values c le in (v, refl, omega arith, omega arith)

  -- A last round that is not the turn of the sequence `n` says that it is not published.
  pub round-unpublished :
      (cap n : ℕ) (slot : Slot T) (phase : Phase T) (v : T)
      → Rounds slot.rounds
      → Holds cap n phase slot
      → slot.rounds.value slot.rounds.latest ≢ n / cap
      → phase ≢ published v
  round-unpublished cap n slot phase v h holds ne e =
      let b = subst (λ x. Holds cap n x slot) e holds in
      let latest : slot.rounds.latest ≡ suc (n / cap) = b.1 in
      let value = (h.values (n / cap) (omega arith)).0 in ne (rw latest value)

  -- Once the senders are gone, nothing is pending.
  pub none-pending_lem :
      (handles senders : ℕ) (chained : Bool) (holds : ℕ → ℕ) (pending : ℕ → Pending T)
      → Holders handles senders chained holds pending
      → senders ≡ 0
      → (i : ℕ) → pending i ≡ none_pending
  none-pending_lem handles senders chained holds pending h z i = h.idle i (elim (dec_lt i handles) [
    | yes lt ↦ omega (arith, h.count, member-le-total handles i holds lt)
    | no ge ↦ h.beyond i (omega arith)
  ])

  -- Once the senders are gone, every sequence that is not published is unclaimed.
  pub unclaimed_lem :
      (cap claim read n : ℕ) (known : ℕ → ℕ) (pending : ℕ → Pending T) (phase : ℕ → Phase T)
      → Owners cap claim read known pending phase
      → ((i : ℕ) → pending i ≡ none_pending)
      → ((v : T) → phase n ≢ published v)
      → claim ≤ n
  unclaimed_lem cap claim read n known pending phase o quiet ne = elim (dec_lt n claim) [
    | no ge ↦ omega arith
    | yes lt ↦ absurd (cases lt (phase n) refl)
  ]
    where
      cases : n < claim → (x : Phase T) → phase n ≡ x → ⊥
      cases lt unclaimed e = o.taken n lt e
      cases lt (claimed i) e = let f = o.claimed_own i n e in let g = quiet i in cc
      cases lt (filled i v) e = let f = o.filled_own i n v e in let g = quiet i in cc
      cases lt (published v) e = ne v e

  -- A look at the next slot.
  pub see-Window :
      (cap read choice : ℕ) (slots : List (Slot T)) (seen : ℕ → ℕ) (phase : ℕ → Phase T)
      (slot : Slot T)
      → Window cap slots seen read phase
      → 0 < cap
      → get_elem? slots (read % cap) ≡ some slot
      → seen (read % cap) ≤ choice
      → choice ≤ slot.rounds.latest
      → Window cap slots (update seen (read % cap) choice) read phase
  see-Window cap read choice slots seen phase slot w pos here ge le m lo hi =
      let a = w m lo hi in
      elim (Bool-cases (m % cap == read % cap)) [
        | inl f ↦
            let same : m % cap ≡ read % cap = ground (arith, f) in
            let e : some a.slot ≡ some slot = sym a.here ∙ ap (get_elem? slots) same ∙ here in
            let g : a.slot ≡ slot = cc in
            record {
              slot = a.slot;
              here = a.here;
              rounds = a.rounds;
              seen_ge = rw f (omega (arith, a.seen_ge, ap seen same));
              seen_le = rw (f, g) le;
              holds = a.holds;
            }
        | inr f ↦ record {
          slot = a.slot;
          here = a.here;
          rounds = a.rounds;
          seen_ge = rw f a.seen_ge;
          seen_le = rw f a.seen_le;
          holds = a.holds;
        }
      ]

  -- Once the consumer has seen the last round of every slot.
  pub all-Window :
      (cap read : ℕ) (slots : List (Slot T)) (seen : ℕ → ℕ) (phase : ℕ → Phase T)
      → Window cap slots seen read phase
      → Window cap slots (λ i. latest_round (get_elem? slots i)) read phase
  all-Window cap read slots seen phase w m lo hi =
      let a = w m lo hi in
      record {
        slot = a.slot;
        here = a.here;
        rounds = a.rounds;
        seen_ge = rw a.here (omega (arith, a.seen_ge, a.seen_le));
        seen_le = rw a.here (le_refl _);
        holds = a.holds;
      }
