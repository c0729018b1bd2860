-- ===== src/Mpsc/Inv/Claim.antt =====
-- A claim, the write of a slot and the publication of it keep the invariant.
use native.Mathlib.Decide.{dec_lt}
use native.Mathlib.Nat.{mod-lt}
use ultima_rings.Base.{
  ℕ, ◌+◌, ◌/◌, ◌%◌, ◌≤◌, ◌<◌, ◌≡◌, ◌≢◌, sym, ap, subst, ◌∙◌, Bool, Option, some, List, [], ◌∷◌,
  ◌++◌, arith, length, set, get_elem?-set_self, get_elem?-set_ne, usize_max, member-le-total,
  update, mod-ne_of_near, Bool-cases, inl, inr, ◌==◌,
}
use ultima_rings.Memory.{Timeline}
use ultima_rings.Mpsc.Inv.{
  Phase, unclaimed, claimed, filled, published, Rounds, Holds, SlotAt, Window, Counters, Owners,
  Logs, Holders, Published,
}
use ultima_rings.Mpsc.State.{Slot, Pending, none_pending, claiming, filling}

pub claim-Counters :
    (cap claim : ℕ) (head : Timeline) (known : ℕ → ℕ) (read released me : ℕ)
    → Counters cap claim head known read released
    → claim < usize_max
    → claim < known me + cap
    → Counters cap (claim + 1) head known read released
claim-Counters cap claim head known read released me c lt room = record {
  small = omega arith;
  versions = c.versions;
  last = c.last;
  behind = c.behind;
  order = omega (arith, c.order);
  room = omega (arith, c.knows me);
  knows = c.knows;
}

-- Two sequences of one window have different slots.
pub apart :
    (cap read m n : ℕ)
    → read ≤ n
    → read ≤ m
    → n < read + cap
    → m < read + cap
    → m ≢ n
    → n % cap ≢ m % cap
apart cap read m n lo lo' hi hi' ne = elim (dec_lt m n) [
  | yes lt ↦ λ e. mod-ne_of_near cap m n lt (omega arith) (sym e)
  | no ge ↦ mod-ne_of_near cap n m (ground (arith, ne)) (omega arith)
]

module _ {T : Type 0} where
  pub claim-Owners :
      (cap claim read : ℕ) (known : ℕ → ℕ) (pending : ℕ → Pending T) (phase : ℕ → Phase T) (me : ℕ)
      → Owners cap claim read known pending phase
      → read ≤ claim
      → pending me ≡ none_pending
      → claim < known me + cap
      → Owners cap
          (claim + 1)
          read
          known
          (update pending me (claiming claim))
          (update phase claim (claimed me))
  claim-Owners cap claim read known pending phase me o order idle room = record {
    ahead = λ n h. ground (arith, o.ahead n);
    taken = λ n h e. ground (arith, o.taken n);
    done = λ n h. let (v, e) = o.done n h in (v, ground (arith, e));
    claims = λ i n h. ground (arith, o.claims i n, o.ahead claim);
    fills = λ i n v h. ground (arith, o.fills i n v, o.ahead claim);
    claimed_own = λ i n h. ground (arith, o.claimed_own i n);
    filled_own = λ i n v h. ground (arith, o.filled_own i n v);
  }

  pub claim-Logs :
      (phase : ℕ → Phase T) (log : ℕ → Option T) (read : ℕ) (values : List T) (n me : ℕ)
      → Logs phase log read values
      → Logs (update phase n (claimed me)) log read values
  claim-Logs phase log read values n me l = record {
    count = l.count;
    logged = λ m v h. ground (arith, l.logged m v);
    logging = λ i m v h. ground (arith, l.logging i m v);
    fifo = l.fifo;
  }

  -- A new phase for one sequence of the window.
  pub claim-Window :
      (cap : ℕ) (slots : List (Slot T)) (seen : ℕ → ℕ) (read : ℕ) (phase : ℕ → Phase T) (n me : ℕ)
      → Window cap slots seen read phase
      → phase n ≡ unclaimed
      → Window cap slots seen read (update phase n (claimed me))
  claim-Window cap slots seen read phase n me w e m lo hi =
      let a = w m lo hi in
      elim (Bool-cases (m == n)) [
        | inl f ↦
            let same : m ≡ n = ground (arith, f) in
            let free : phase m ≡ unclaimed = ap phase same ∙ e in
            let b = subst (SlotAt cap slots seen m) free a in
            rw f (record {
              slot = b.slot;
              here = b.here;
              rounds = b.rounds;
              seen_ge = b.seen_ge;
              seen_le = b.seen_le;
              holds = b.holds;
            })
        | inr f ↦ rw f a
      ]

  pub fill-Owners :
      (cap claim read : ℕ) (known : ℕ → ℕ) (pending : ℕ → Pending T) (phase : ℕ → Phase T)
      (me n : ℕ) (v : T)
      → Owners cap claim read known pending phase
      → pending me ≡ claiming n
      → Owners cap claim read known (update pending me (filling n v)) (update phase n (filled me v))
  fill-Owners cap claim read known pending phase me n v o e =
      let mine : phase n ≡ claimed me = (o.claims me n e).0 in
      record {
        ahead = λ m h. ground (arith, o.ahead m);
        taken = λ m h f. ground (arith, o.taken m);
        done = λ m h. let (w, f) = o.done m h in (w, ground (arith, f));
        claims = λ i m h. ground (arith, o.claims i m);
        fills = λ i m w h. ground (arith, o.fills i m w);
        claimed_own = λ i m h. ground (arith, o.claimed_own i m);
        filled_own = λ i m w h. ground (arith, o.filled_own i m w);
      }

  pub fill-Logs :
      (phase : ℕ → Phase T) (log : ℕ → Option T) (read : ℕ) (values : List T) (n me : ℕ) (v : T)
      → Logs phase log read values
      → read ≤ n
      → Logs (update phase n (filled me v)) (update log n (some v)) read values
  fill-Logs phase log read values n me v l h = record {
    count = l.count;
    logged = λ m w e. ground (arith, l.logged m w);
    logging = λ i m w e. ground (arith, l.logging i m w);
    fifo = λ m lt. ground (arith, l.fifo m lt);
  }

  pub publish-Owners :
      (cap claim read : ℕ) (known : ℕ → ℕ) (pending : ℕ → Pending T) (phase : ℕ → Phase T)
      (me n : ℕ) (v : T)
      → Owners cap claim read known pending phase
      → pending me ≡ filling n v
      → Owners cap claim read known (update pending me none_pending) (update phase n (published v))
  publish-Owners cap claim read known pending phase me n v o e =
      let mine : phase n ≡ filled me v = o.fills me n v e in
      record {
        ahead = λ m h. ground (arith, o.ahead m);
        taken = λ m h f. ground (arith, o.taken m);
        done = λ m h. let (w, f) = o.done m h in (w, ground (arith, f));
        claims = λ i m h. ground (arith, o.claims i m);
        fills = λ i m w h. ground (arith, o.fills i m w);
        claimed_own = λ i m h. ground (arith, o.claimed_own i m);
        filled_own = λ i m w h. ground (arith, o.filled_own i m w);
      }

  pub publish-Logs :
      (phase : ℕ → Phase T) (log : ℕ → Option T) (read : ℕ) (values : List T) (n me : ℕ) (v : T)
      → Logs phase log read values
      → phase n ≡ filled me v
      → Logs (update phase n (published v)) log read values
  publish-Logs phase log read values n me v l h = record {
    count = l.count;
    logged = λ m w e. ground (arith, l.logged m w, l.logging me n v h);
    logging = λ i m w e. ground (arith, l.logging i m w);
    fifo = l.fifo;
  }

  -- A slot that is written for the sequence `n` of the window, with a new phase for it.
  pub set-Window :
      (cap : ℕ) (slots : List (Slot T)) (seen : ℕ → ℕ) (read : ℕ) (phase : ℕ → Phase T) (n : ℕ)
      (after : Phase T) (slot : Slot T)
      → Window cap slots seen read phase
      → length slots ≡ cap
      → 0 < cap
      → read ≤ n
      → n < read + cap
      → Rounds slot.rounds
      → n / cap ≤ seen (n % cap)
      → seen (n % cap) ≤ slot.rounds.latest
      → Holds cap n after slot
      → Window cap (set slots (n % cap) slot) seen read (update phase n after)
  set-Window cap slots seen read phase n after slot w size pos lo hi rounds ge le holds m lo' hi' =
      elim (Bool-cases (m == n)) [
        | inl f ↦
            let same : m ≡ n = ground (arith, f) in
            rw f (
              rw same (record {
                slot = slot;
                here = get_elem?-set_self slots (n % cap) slot (omega (arith, size, mod-lt n pos));
                rounds = rounds;
                seen_ge = ge;
                seen_le = le;
                holds = holds;
              }))
        | inr f ↦
            let a = w m lo' hi' in
            let other : m ≢ n = λ e. ground (arith, f) in
            rw f (record {
              slot = a.slot;
              here = get_elem?-set_ne slots slot (apart cap read m n lo lo' hi hi' other) ∙ a.here;
              rounds = a.rounds;
              seen_ge = a.seen_ge;
              seen_le = a.seen_le;
              holds = a.holds;
            })
      ]

  pub Published-update :
      (phase : ℕ → Phase T) (n : ℕ) (x : Phase T) (l : List (ℕ × T))
      → ((v : T) → phase n ≢ published v)
      → Published phase l
      → Published (update phase n x) l
  Published-update phase n x [] h a = tt
  Published-update phase n x ((m, v) ∷ l) h (e, a) = (
    elim (Bool-cases (m == n)) [
      | inl f ↦ absurd (h v (let same : m ≡ n = ground (arith, f) in rw (← same) e))
      | inr f ↦ rw f e
    ],
    Published-update phase n x l h a,
  )

  pub Published-append :
      (phase : ℕ → Phase T) (l : List (ℕ × T)) (n : ℕ) (v : T)
      → Published phase l
      → phase n ≡ published v
      → Published phase (l ++ ((n, v) ∷ []))
  Published-append phase [] n v a e = (e, tt)
  Published-append phase ((m, w) ∷ l) n v (f, a) e = (f, Published-append phase l n v a e)

  -- A producer with something pending holds a sender, so that the senders are not all gone.
  pub held-pos :
      (handles senders : ℕ) (chained : Bool) (holds : ℕ → ℕ) (pending : ℕ → Pending T) (me : ℕ)
      → Holders handles senders chained holds pending
      → me < handles
      → 0 < holds me
      → 0 < senders
  held-pos handles senders chained holds pending me h lt pos =
      omega (arith, h.count, member-le-total handles me holds lt)
