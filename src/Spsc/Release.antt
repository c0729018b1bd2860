-- ===== src/Spsc/Release.antt =====
-- `Drop` of `Shared` of src/spsc.rs, which runs when both handles are gone.
use ultima_rings.Base.{
  true, ℕ, zero, suc, ◌+◌, ◌-◌, ◌%◌, ◌≤◌, ◌<◌, ◌≡◌, refl, sym, ap, ap₂, ◌∙◌, Option, none, some,
  List, [], ◌∷◌, ◌++◌, arith, length, get_elem?, set, take, drop, get_elem?_of_lt, get_elem?-set_ne,
  bit_and, mod-ne_of_near, usize_mod, wrap, take-append-drop, length-drop, take-length,
}
use native.Mathlib.Nat.{mod-eq_of_lt, le_refl}
use ultima_rings.Spsc.Config.{IsConfig, slot_index}
use ultima_rings.Spsc.Defs.{Config}
use ultima_rings.Spsc.Inv.Knowledge.{written_bounds}
use ultima_rings.Spsc.Sound.{Reach-Sound, sender_at, receiver_at}
use ultima_rings.Spsc.State.{State, Slot}
use ultima_rings.Spsc.System.{System, SendThread, RecvThread, Reach}

module _ {T : Type 0} (mask : ℕ) where
  -- `assume_init_drop` of the slot of `seq`, with the value that is dropped; `none` if there is none.
  unfoldable pub drop_slot : ℕ → List (Slot T) → Option (T × List (Slot T))
  drop_slot seq slots = elim (get_elem? slots (bit_and seq mask)) [
    | none ↦ none
    | some slot ↦ elim slot.content [
      | none ↦ none
      | some v ↦ some (v, set slots (bit_and seq mask) (record slot { content = none }))
    ]
  ]

  -- The loop over the counters from `seq` on, with the values that it drops.
  unfoldable pub drop_slots : ℕ → ℕ → List (Slot T) → Option (List T × List (Slot T))
  unfolding drop_slot
  drop_slots zero seq slots = some ([], slots)
  drop_slots (suc n) seq slots = elim (drop_slot seq slots) [
    | none ↦ none
    | some (v, slots) ↦ elim (drop_slots n (seq + 1) slots) [
      | none ↦ none
      | some (vs, slots) ↦ some (v ∷ vs, slots)
    ]
  ]

-- The range `head..tail` is empty unless `head` is less than `tail`.
unfoldable pub drop_shared : {T : Type 0} → Config → State T → Option (List T × List (Slot T))
unfolding drop_slots
drop_shared sh s =
    let head = s.head.value s.head.latest in
    let tail = s.tail.value s.tail.latest in drop_slots sh.mask (tail - head) head s.slots

take-all : {T : Type 0} (n : ℕ) (l : List T) → n ≡ length l → take n l ≡ l
take-all n l e = rw e (take-length l)

drop-cons :
    {T : Type 0} (n : ℕ) (l : List T) {v : T}
    → get_elem? l n ≡ some v
    → drop n l ≡ v ∷ drop (suc n) l
drop-cons n [] h = absurd (ground arith)
drop-cons zero (x ∷ l) h = ground arith
drop-cons (suc n) (x ∷ l) h = drop-cons n l h

module _ {T : Type 0} {sh : Config} (is : IsConfig sh) (written : List T) where
  -- The slots of the totals from `q` up to `q + n` hold the values written.
  Full : ℕ → ℕ → List (Slot T) → Type 0
  Full n q slots =
      (i : ℕ) (v : T)
      → q ≤ i
      → i < q + n
      → get_elem? written i ≡ some v
      → (stamp : ℕ) × (get_elem? slots (i % sh.cap)
          ≡ some (record { content = some v; stamp = stamp }))

  index : (q : ℕ) → q < usize_mod → bit_and q sh.mask ≡ q % sh.cap
  index q h = ap (λ k. bit_and k sh.mask) (sym (mod-eq_of_lt h)) ∙ slot_index is q

  drop_slot_lem :
      (q : ℕ) (slots : List (Slot T)) (v : T) (stamp : ℕ)
      → q < usize_mod
      → get_elem? slots (q % sh.cap) ≡ some (record { content = some v; stamp = stamp })
      → drop_slot sh.mask q slots
        ≡ some (v, set slots (q % sh.cap) (record { content = none; stamp = stamp }))
  unfolding drop_slot
  drop_slot_lem q slots v stamp small e = rw (index q small, e, drop_slot) (rw (index q small) refl)

  drop_slots_lem :
      (n q : ℕ) (slots : List (Slot T))
      → q + n ≤ length written
      → n ≤ sh.cap
      → length written < usize_mod
      → Full n q slots
      → (slots' : List (Slot T)) × (drop_slots sh.mask n q slots
          ≡ some (take n (drop q written), slots'))
  unfolding drop_slots Full
  drop_slots_lem zero q slots in_range few small full = (slots, refl)
  drop_slots_lem (suc n) q slots in_range few small full =
      let (v, e) = get_elem?_of_lt written q (omega arith) in
      let (stamp, f) = full q v (le_refl _) (omega arith) e in
      let next : drop q written ≡ v ∷ drop (q + 1) written =
        drop-cons q written e ∙ ap (λ k. v ∷ drop k written) {x = suc q} (omega arith) in
      let after = set slots (q % sh.cap) (record { content = none; stamp = stamp }) in
      let rest : Full n (q + 1) after = λ i w lo hi g.
        let (t, h) = full i w (omega arith) (omega arith) g in
        (t, get_elem?-set_ne slots _ (mod-ne_of_near sh.cap q i (omega arith) (omega arith)) ∙ h) in
      let (slots', h) = drop_slots_lem n (q + 1) after (omega arith) (omega arith) small rest in
      (slots', rw (drop_slot_lem q slots v stamp (omega arith) f, h, next, drop_slots) refl)

-- In a reachable state of a valid ring in which both handles are gone, and with fewer than 2^64
-- values written over its life, `Drop` of `Shared` drops exactly the values that were written and not
-- read, each once and in order.
pub drop_shared_outcome :
    {T : Type 0} {sh : Config} (is : IsConfig sh) {y : System T} (reach : Reach sh y)
    → y.sender ≡ SendThread.gone
    → y.receiver ≡ RecvThread.gone
    → length y.state.written < usize_mod
    → (rest : List T) × (slots : List (Slot T)) × (y.state.written ≡ y.state.read ++ rest)
      × (drop_shared sh y.state ≡ some (rest, slots))
unfolding drop_shared Full
drop_shared_outcome {sh = sh} is {y = y} reach es er small =
    let d = Reach-Sound is reach in
    let k = d.inv.knows in
    let h = d.inv.holds in
    let bounds = written_bounds sh.cap y.state d.push d.pull k in
    let published : d.push.published ≡ true = (k.closing (sender_at is d es)).0 in
    let last : y.state.tail.clock y.state.tail.latest ≡ d.push.written =
      k.all_published published in
    let freed : y.state.head.clock y.state.head.latest ≡ d.pull.read =
      k.head_now ∙ (receiver_at is d er).1 in
    let tail : y.state.tail.value y.state.tail.latest ≡ d.push.written =
      k.tails.values y.state.tail.latest (le_refl _)
      ∙ ap wrap last
      ∙ mod-eq_of_lt (omega (arith, h.writes)) in
    let head : y.state.head.value y.state.head.latest ≡ d.pull.read =
      k.heads.values y.state.head.latest (le_refl _)
      ∙ ap wrap freed
      ∙ mod-eq_of_lt (omega (arith, h.writes, bounds)) in
    let n = d.push.written - d.pull.read in
    let (slots, e) =
      drop_slots_lem is y.state.written n d.pull.read y.state.slots
        (omega (arith, h.writes, bounds)) (omega (arith, k.room, bounds, k.released)) small
        (λ i v lo hi g. (i + 1, h.full i v lo (omega (arith, bounds)) g)) in
    let rest : take n (drop d.pull.read y.state.written) ≡ drop d.pull.read y.state.written =
      take-all n _ (omega (arith, length-drop d.pull.read y.state.written, h.writes)) in
    (
      drop d.pull.read y.state.written,
      slots,
      sym (
          ap (λ l. l ++ drop d.pull.read y.state.written) h.fifo
          ∙ take-append-drop d.pull.read y.state.written),
      ap₂ (λ t h. drop_slots sh.mask (t - h) h y.state.slots) tail head
          ∙ e
          ∙ ap (λ l. some (l, slots)) rest,
    )
