-- ===== src/Mpsc/Release.antt =====
-- `Drop` of `Shared` of src/mpsc.rs, which runs when every handle is gone.
use ultima_rings.Base.{
  true, false, ℕ, zero, suc, ◌+◌, ◌-◌, ◌/◌, ◌%◌, ◌≤◌, ◌<◌, ◌≡◌, ◌≢◌, refl, sym, ap, ◌∙◌, subst,
  Option, none, some, List, [], ◌∷◌, arith, length, get_elem?, set, length-set, get_elem?-set_self,
  get_elem?-set_ne, bit_and, mod-ne_of_near, mod-add_self, div-add_self, usize_max, add_usize, ◌==◌,
  Bool-cases, inl, inr,
}
use native.Mathlib.Decide.{dec_lt}
use native.Mathlib.Nat.{mod-lt, le_refl}
use ultima_rings.Memory.{Timeline}
use ultima_rings.Mpsc.Config.{IsConfig, slot_index, round-div, cap_bounds}
use ultima_rings.Mpsc.Defs.{Config, round_of}
use ultima_rings.Mpsc.Inv.{Inv, Rounds, SlotAt, Phase, unclaimed, claimed, filled, published}
use ultima_rings.Mpsc.Inv.Look.{none-pending_lem, unclaimed_lem}
use ultima_rings.Mpsc.Reachable.{Reach-Sound}
use ultima_rings.Mpsc.Rules.{Pull}
use ultima_rings.Mpsc.Sound.{receiver_at}
use ultima_rings.Mpsc.State.{State, Slot}
use ultima_rings.Mpsc.System.{System, RecvThread, Reach}

-- `slot.round`, when nobody else has a handle.
abbrev pub round_now : {T : Type 0} → Slot T → ℕ
round_now slot = slot.rounds.value slot.rounds.latest

-- The loop from `seq` on, with the values that it drops. `none` is a slot out of range, a drop of a
-- slot that holds no value, or a loop that has not ended after so many rounds.
unfoldable pub drop_loop :
    {T : Type 0} → Config → ℕ → ℕ → List (Slot T) → Option (List T × List (Slot T))
drop_loop sh zero seq slots = none
drop_loop sh (suc n) seq slots = elim (get_elem? slots (bit_and seq sh.mask)) [
  | none ↦ none
  | some slot ↦ elim (round_now slot == round_of sh seq) [
    | false ↦ some ([], slots)
    | true ↦ elim slot.content [
      | none ↦ none
      | some v ↦
          elim (drop_loop sh n (add_usize seq 1)
            (set slots (bit_and seq sh.mask) (record slot { content = none }))) [
              | none ↦ none
              | some (vs, slots) ↦ some (v ∷ vs, slots)
            ]
    ]
  ]
]

unfoldable pub drop_shared : {T : Type 0} → Config → ℕ → State T → Option (List T × List (Slot T))
unfolding drop_loop
drop_shared sh n s = drop_loop sh n (s.head.value s.head.latest) s.slots

module _ {T : Type 0} {sh : Config} (is : IsConfig sh) (log : ℕ → Option T) (claim : ℕ) where
  -- The slots from the sequence `q` on are published, with the values written.
  Left : ℕ → List (Slot T) → Type 0
  Left q slots =
      (n : ℕ)
      → q ≤ n
      → n < claim
      → (slot : Slot T) × (v : T) × (get_elem? slots (n % sh.cap) ≡ some slot)
        × (slot.content ≡ some v)
        × (log n ≡ some v)
        × (round_now slot ≡ n / sh.cap)

  -- The slot of the next sequence to be claimed is not.
  End : List (Slot T) → Type 0
  End slots =
      (slot : Slot T) × (get_elem? slots (claim % sh.cap) ≡ some slot)
      × (round_now slot ≢ claim / sh.cap)

  Dropped : ℕ → ℕ → Option (List T × List (Slot T)) → Type 0
  Dropped k q r =
      (dropped : List T) × (slots : List (Slot T)) × (r ≡ some (dropped, slots))
      × (length dropped ≡ k)
      × ((i : ℕ) → i < k → get_elem? dropped i ≡ log (q + i))

  rest-Left :
      (q : ℕ) (slots : List (Slot T)) (slot : Slot T)
      → claim ≤ q + sh.cap
      → Left q slots
      → Left (q + 1) (set slots (q % sh.cap) slot)
  unfolding Left
  rest-Left q slots slot near l n lo hi =
      let (other, v, here, full, logged, turn) = l n (omega arith) hi in
      (
        other,
        v,
        get_elem?-set_ne slots slot (mod-ne_of_near sh.cap q n (omega arith) (omega arith)) ∙ here,
        full,
        logged,
        turn,
      )

  rest-End :
      (i : ℕ) (slots : List (Slot T)) (slot : Slot T)
      → get_elem? slots i ≡ some slot
      → i < length slots
      → End slots
      → End (set slots i (record slot { content = none }))
  unfolding End
  rest-End i slots slot here lt (last, there, ne) = elim (Bool-cases (i == claim % sh.cap)) [
    | inl e ↦
        let same : i ≡ claim % sh.cap = ground (arith, e) in
        let f : some slot ≡ some last = sym here ∙ ap (get_elem? slots) same ∙ there in
        let g : slot ≡ last = cc in
        (record slot { content = none }, rw (← same) (get_elem?-set_self slots i _ lt), rw g ne)
    | inr e ↦
        let other : i ≢ claim % sh.cap = ground (arith, e) in
        (last, get_elem?-set_ne slots _ other ∙ there, ne)
  ]

  cons_values :
      (k q : ℕ) (v : T) (vs : List T)
      → log q ≡ some v
      → ((i : ℕ) → i < k → get_elem? vs i ≡ log (q + 1 + i))
      → (i : ℕ) → i < suc k
      → get_elem? (v ∷ vs) i ≡ log (q + i)
  cons_values k q v vs logged values zero h =
      let e : q + 0 ≡ q = omega arith in sym (ap log e ∙ logged)
  cons_values k q v vs logged values (suc i) h =
      let e : q + 1 + i ≡ q + suc i = omega arith in values i (omega arith) ∙ ap log e

  drop_loop-published :
      (n q : ℕ) (slots : List (Slot T)) (slot : Slot T) (v : T) (vs : List T)
      (after : List (Slot T))
      → q < usize_max
      → get_elem? slots (q % sh.cap) ≡ some slot
      → (round_now slot == round_of sh q) ≡ true
      → slot.content ≡ some v
      → drop_loop sh n (q + 1) (set slots (q % sh.cap) (record slot { content = none }))
        ≡ some (vs, after)
      → drop_loop sh (suc n) q slots ≡ some (v ∷ vs, after)
  unfolding drop_loop
  drop_loop-published n q slots slot v vs after lt here mine full e =
      let next : add_usize q 1 ≡ q + 1 = omega arith in
      let index = slot_index is q (omega arith) in
      rw (drop_loop, index, here, mine, full) (rw (index, next, e) refl)

  drop_loop_lem :
      (n k q : ℕ) (slots : List (Slot T))
      → q + k ≡ claim
      → k < n
      → claim ≤ usize_max
      → claim ≤ q + sh.cap
      → length slots ≡ sh.cap
      → Left q slots
      → End slots
      → Dropped k q (drop_loop sh n q slots)
  unfolding drop_loop Left End Dropped
  drop_loop_lem zero k q slots at lt small near size l last = absurd (omega arith)
  drop_loop_lem (suc n) zero q slots at lt small near size l (slot, here, ne) =
      let same : claim ≡ q = omega arith in
      let other : (round_now slot == round_of sh q) ≡ false =
        ground (arith, ne, same, round-div is q) in
      let there : get_elem? slots (q % sh.cap) ≡ some slot =
        subst (λ c. get_elem? slots (c % sh.cap) ≡ some slot) same here in
      (
        [],
        slots,
        rw (drop_loop, slot_index is q (omega arith), there, other) refl,
        refl,
        λ i h. absurd (omega (arith, h)),
      )
  drop_loop_lem (suc n) (suc k) q slots at lt small near size l last =
      let (slot, v, here, full, logged, turn) = l q (le_refl q) (omega arith) in
      let mine : (round_now slot == round_of sh q) ≡ true = ground (arith, turn, round-div is q) in
      let index : q % sh.cap < length slots = omega (arith, size, mod-lt q (cap_bounds is).0) in
      let (vs, after, e, count, values) =
        drop_loop_lem n k (q + 1) (set slots (q % sh.cap) (record slot { content = none }))
          (omega arith) (omega arith) small (omega arith) (length-set slots (q % sh.cap) _ ∙ size)
          (rest-Left q slots _ near l) (rest-End (q % sh.cap) slots slot here index last) in
      (
        v ∷ vs,
        after,
        drop_loop-published n q slots slot v vs after (omega arith) here mine full e,
        ap suc count,
        cons_values k q v vs logged values,
      )

-- A last round is the turn before the one that it waits for.
turn-ne : (l : Timeline) (n : ℕ) → Rounds l → l.latest ≡ n → l.value l.latest ≢ n
turn-ne l zero h e f = omega (arith, ap l.value e, h.initial)
turn-ne l (suc n) h e f = omega (arith, ap l.value e, (h.values n (omega arith)).0)

module _ {T : Type 0} {sh : Config} (is : IsConfig sh) where
  published_at :
      (n : ℕ) (s : State T) (x : Phase T)
      → SlotAt sh.cap s.slots s.seen_round n x
      → ((v : T) → x ≡ published v → s.log n ≡ some v)
      → (((v : T) → x ≢ published v) → ⊥)
      → (slot : Slot T) × (v : T) × (get_elem? s.slots (n % sh.cap) ≡ some slot)
        × (slot.content ≡ some v)
        × (s.log n ≡ some v)
        × (round_now slot ≡ n / sh.cap)
  published_at n s unclaimed a logged missing = absurd (missing (λ v e. cc))
  published_at n s (claimed i) a logged missing = absurd (missing (λ v e. cc))
  published_at n s (filled i v) a logged missing = absurd (missing (λ v e. cc))
  published_at n s (published v) a logged missing =
      let (full, latest, writes) = a.holds in
      (
        a.slot,
        v,
        a.here,
        full,
        logged v refl,
        ap a.slot.rounds.value latest ∙ (a.rounds.values (n / sh.cap) (omega (arith, latest))).0,
      )

  Inv-Left :
      {handles : ℕ} (s : State T) (q : Pull) (inv : Inv sh.cap handles s q)
      → s.senders ≡ 0
      → Left is s.log s.claim q.read s.slots
  unfolding Left
  Inv-Left {handles} s q inv gone n lo hi =
      let c = inv.counters in
      let here = inv.window n lo (omega (arith, c.room, c.behind)) in
      let quiet = none-pending_lem handles s.senders s.chained s.holds s.pending inv.holders gone in
      let missing : ((v : T) → inv.phase n ≢ published v) → ⊥ = λ ne.
        let le =
          unclaimed_lem sh.cap s.claim q.read n s.known_reads s.pending inv.phase inv.owners quiet
            ne in
        omega arith in
      published_at n s (inv.phase n) here (inv.logs.logged n) missing

  Inv-End :
      {handles : ℕ} (s : State T) (q : Pull) (inv : Inv sh.cap handles s q)
      → s.senders ≡ 0
      → End is s.log s.claim s.slots
  unfolding Left End
  Inv-End s q inv gone =
      let c = inv.counters in
      let pos = (cap_bounds is).0 in
      elim (dec_lt s.claim (q.read + sh.cap)) [
        | yes lt ↦
            let free = inv.owners.ahead s.claim (le_refl _) in
            let a =
              subst (SlotAt sh.cap s.slots s.seen_round s.claim) free
                (inv.window s.claim c.order lt) in
            (a.slot, a.here, turn-ne a.slot.rounds (s.claim / sh.cap) a.rounds a.holds.2)
        | no ge ↦
            let at : s.claim ≡ q.read + sh.cap = omega (arith, c.room, c.behind) in
            let (slot, v, here, full, logged, turn) =
              Inv-Left s q inv gone q.read (le_refl _) (omega arith) in
            let again : s.claim % sh.cap ≡ q.read % sh.cap =
              ap (λ m. m % sh.cap) at ∙ mod-add_self sh.cap q.read pos in
            let next : s.claim / sh.cap ≡ suc (q.read / sh.cap) =
              ap (λ m. m / sh.cap) at ∙ div-add_self sh.cap q.read pos in
            (slot, rw again here, λ e. omega arith)
      ]

  -- When every sender is gone and the receiver too, the drop of the shared block, whose loop ends
  -- within a round for each slot and one more, drops each value that was published and not yet read,
  -- once and in the order of the sequences, and nothing else.
  pub drop_shared_rest :
      {y : System T} (reach : Reach sh y) (n : ℕ)
      → y.state.senders ≡ 0
      → y.receiver ≡ RecvThread.gone
      → sh.cap < n
      → (dropped : List T) × (slots : List (Slot T)) × (drop_shared sh n y.state
          ≡ some (dropped, slots))
        × (length y.state.read + length dropped ≡ y.state.claim)
        × ((i : ℕ)
            → i < length dropped
            → get_elem? dropped i ≡ y.state.log (length y.state.read + i))
  unfolding drop_shared Dropped
  drop_shared_rest {y} reach n gone closed enough =
      let d = Reach-Sound is reach in
      let c = d.inv.counters in
      let released : d.pull.released ≡ d.pull.read = receiver_at is d closed in
      let head : y.state.head.value y.state.head.latest ≡ d.pull.read = c.last ∙ released in
      let count = d.inv.logs.count in
      let (dropped, slots, e, size, values) =
        drop_loop_lem is y.state.log y.state.claim n (y.state.claim - d.pull.read) d.pull.read
          y.state.slots (omega (arith, c.order)) (omega (arith, c.room, released)) c.small
          (omega (arith, c.room, released)) d.inv.size (Inv-Left y.state d.pull d.inv gone)
          (Inv-End y.state d.pull d.inv gone) in
      (
        dropped,
        slots,
        ap (λ h. drop_loop sh n h y.state.slots) head ∙ e,
        omega (arith, count, size, c.order),
        λ i h. values i (omega (arith, h, size)) ∙ ap (λ m. y.state.log (m + i)) count,
      )
