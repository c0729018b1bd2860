-- ===== src/Mpsc/Inv/Take.antt =====
-- What moving a value out of the next slot, and storing the cursor, do to the invariant.
use native.Mathlib.Decide.{dec_lt}
use native.Mathlib.Nat.{le_refl, mod-lt}
use ultima_rings.Base.{
  ℕ, suc, ◌+◌, ◌/◌, ◌%◌, ◌≤◌, ◌<◌, ◌≡◌, ◌≢◌, refl, sym, ap, ◌∙◌, Option, none, some, List, [], ◌∷◌,
  ◌++◌, arith, length, get_elem?, set, get_elem?-set_self, get_elem?-set_ne, length-append,
  get_elem?-append_left, get_elem?-append_last, Bool-cases, inl, inr, ◌==◌, div-add_self,
  mod-add_self, mod-ne_of_near,
}
use ultima_rings.Memory.{Timeline, store}
use ultima_rings.Mpsc.Inv.{Phase, unclaimed, published, Rounds, Window, Counters, Owners, Logs}
use ultima_rings.Mpsc.State.{Slot, Pending, latest_round}

pub take-Counters :
    (cap claim : ℕ) (head : Timeline) (known : ℕ → ℕ) (read released : ℕ)
    → Counters cap claim head known read released
    → read < claim
    → Counters cap claim head known (read + 1) released
take-Counters cap claim head known read released c lt = record {
  small = c.small;
  versions = c.versions;
  last = c.last;
  behind = omega (arith, c.behind);
  order = omega arith;
  room = c.room;
  knows = c.knows;
}

pub store-Counters :
    (cap claim : ℕ) (head : Timeline) (known : ℕ → ℕ) (read released : ℕ)
    → Counters cap claim head known read released
    → Counters cap claim (store head read read) known read read
store-Counters cap claim head known read released c = record {
  small = c.small;
  versions = λ i le. ground (arith, c.versions i, c.behind);
  last = ground arith;
  behind = le_refl _;
  order = c.order;
  room = omega (arith, c.room, c.behind);
  knows = λ i. omega (arith, c.knows i, c.behind);
}

module _ {T : Type 0} where
  pub take-Owners :
      (cap claim read : ℕ) (known : ℕ → ℕ) (pending : ℕ → Pending T) (phase : ℕ → Phase T) (v : T)
      → Owners cap claim read known pending phase
      → phase read ≡ published v
      → Owners cap claim (read + 1) known pending phase
  take-Owners cap claim read known pending phase v o e = record {
    ahead = o.ahead;
    taken = o.taken;
    done = λ n h. elim (dec_lt n read) [
      | yes lt ↦ o.done n lt
      | no ge ↦ let same : n ≡ read = omega arith in (v, ap phase same ∙ e)
    ];
    claims = o.claims;
    fills = o.fills;
    claimed_own = o.claimed_own;
    filled_own = o.filled_own;
  }

  pub take-Logs :
      (phase : ℕ → Phase T) (log : ℕ → Option T) (read : ℕ) (values : List T) (v : T)
      → Logs phase log read values
      → phase read ≡ published v
      → Logs phase log (read + 1) (values ++ (v ∷ []))
  take-Logs phase log read values v l e = record {
    count = omega (arith, l.count, length-append values (v ∷ []));
    logged = l.logged;
    logging = l.logging;
    fifo = λ n h. elim (dec_lt n read) [
      | yes lt ↦ get_elem?-append_left values (v ∷ []) n (omega (arith, l.count)) ∙ l.fifo n lt
      | no ge ↦
          let same : n ≡ length values = omega (arith, l.count) in
          let here : n ≡ read = omega arith in
          rw same (get_elem?-append_last values v) ∙ sym (ap log here ∙ l.logged read v e)
    ];
  }

  -- The slot that was read is the slot of the sequence a capacity further on.
  pub take-Window :
      (cap : ℕ) (slots : List (Slot T)) (seen : ℕ → ℕ) (read : ℕ) (phase : ℕ → Phase T)
      (slot : Slot T)
      → Window cap slots seen read phase
      → length slots ≡ cap
      → 0 < cap
      → phase (read + cap) ≡ unclaimed
      → Rounds slot.rounds
      → suc (read / cap) ≤ seen (read % cap)
      → seen (read % cap) ≤ slot.rounds.latest
      → slot.rounds.latest ≡ suc (read / cap)
      → slot.writes ≡ suc (read / cap)
      → Window cap
          (set slots (read % cap) (record slot { content = none; stamp = read + 1 }))
          seen
          (read + 1)
          phase
  take-Window cap slots seen read phase slot w size pos free rounds saw le latest writes m lo hi =
      elim (dec_lt m (read + cap)) [
        | yes lt ↦
            let a = w m (omega arith) lt in
            record {
              slot = a.slot;
              here = get_elem?-set_ne slots _ (mod-ne_of_near cap read m (omega arith) lt) ∙ a.here;
              rounds = a.rounds;
              seen_ge = a.seen_ge;
              seen_le = a.seen_le;
              holds = a.holds;
            }
        | no ge ↦
            let same : m ≡ read + cap = omega arith in
            rw same (
              rw free (record {
                slot = record slot { content = none; stamp = read + 1 };
                here = rw (mod-add_self cap read pos) (
                    get_elem?-set_self slots (read % cap) _ (omega (arith, size, mod-lt read pos)));
                rounds = rounds;
                seen_ge = rw (mod-add_self cap read pos, div-add_self cap read pos) saw;
                seen_le = rw (mod-add_self cap read pos) le;
                holds = (
                  refl,
                  omega arith,
                  latest ∙ sym (div-add_self cap read pos),
                  writes ∙ sym (div-add_self cap read pos),
                );
              }))
      ]

  -- A read leaves the rounds as they are.
  pub latest_round-set :
      (slots : List (Slot T)) (i j stamp : ℕ) (content : Option T) (slot : Slot T)
      → get_elem? slots i ≡ some slot
      → i < length slots
      → latest_round (get_elem? (set slots i (record slot { content = content; stamp = stamp })) j)
        ≡ latest_round (get_elem? slots j)
  latest_round-set slots i j stamp content slot here lt = elim (Bool-cases (i == j)) [
    | inl e ↦
        let same : i ≡ j = ground (arith, e) in
        rw (← same) (
          rw
            (get_elem?-set_self slots i (record slot { content = content; stamp = stamp }) lt, here)
            refl)
    | inr e ↦
        let ne : i ≢ j = ground (arith, e) in
        ap latest_round
          (get_elem?-set_ne slots (record slot { content = content; stamp = stamp }) ne)
  ]
