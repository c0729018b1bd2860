-- ===== src/Mpsc/Inv/Moved.antt =====
-- What an access of a producer leaves of the invariant.
use native.Mathlib.Decide.{dec_lt}
use ultima_rings.Base.{
  ℕ, ◌<◌, ◌≡◌, ◌≢◌, refl, sym, ap, ◌∙◌, Option, none, some, List, [], ◌++◌, arith, append-nil,
  update, update_ne, Bool-cases, inl, inr, ◌==◌,
}
use ultima_rings.Mpsc.Defs.{Code}
use ultima_rings.Mpsc.Inv.{Phase, published, Holders, Certain, Inv, push_of, Ring}
use ultima_rings.Mpsc.Rules.{Push, Pull, Produces}
use ultima_rings.Mpsc.State.{State, Pending, none_pending}

-- `P` of what an access yields, if it has a result.
abbrev pub Yields : {B : Type 0} → (B → Type 0) → Option B → Type 0
Yields P none = Unit
Yields P (some b) = P b

module _ {T A : Type 0} (cap handles me : ℕ) (Q : A → Push T → List (ℕ × T) → Type 0) where
  -- What an access of the producer `me` leaves: the invariant, the rules for the rest of its program,
  -- and the sequences that it has published; nothing changes for the other threads.
  pub record Moved (s s' : State T) (rest : Code T A) (q : Pull) (out : List (ℕ × T)) : Type 0 where
    pub new : List (ℕ × T)
    pub inv : Inv cap handles s' q
    pub rule : Produces cap Q rest (push_of s' me) (out ++ new)
    pub sent : s'.sent me ≡ s.sent me ++ new
    pub others : (i : ℕ) → i ≢ me → (push_of s' i ≡ push_of s i) × (s'.sent i ≡ s.sent i)
    pub read : s'.read ≡ s.read
    pub given : s'.given ≡ s.given

  -- An access that changes nothing that the invariant is about.
  pub same :
      (s s' : State T) (rest : Code T A) (q : Pull) (out : List (ℕ × T))
      → Inv cap handles s' q
      → Produces cap Q rest (push_of s me) out
      → ((i : ℕ) → push_of s' i ≡ push_of s i)
      → s'.sent ≡ s.sent
      → s'.read ≡ s.read
      → s'.given ≡ s.given
      → Moved s s' rest q out
  same s s' rest q out inv rule pushes sent read given = record {
    new = [];
    inv = inv;
    rule = rw (append-nil, pushes me) rule;
    sent = rw append-nil (ap (λ f. f me) sent);
    others = λ i h. (pushes i, ap (λ f. f i) sent);
    read = read;
    given = given;
  }

module _ {T : Type 0} (cap handles me : ℕ) where
  pub pend-Holders :
      (s : State T) (x : Pending T)
      → Holders handles s.senders s.chained s.holds s.pending
      → 0 < s.holds me
      → Holders handles s.senders s.chained s.holds (update s.pending me x)
  pend-Holders s x h pos = record {
    count = h.count;
    few = h.few;
    beyond = h.beyond;
    idle = λ i z. ground (arith, h.idle i z);
    chain = h.chain;
  }

  -- Whoever is about something holds a sender.
  pub busy-pos :
      (s : State T) (x : Pending T)
      → Holders handles s.senders s.chained s.holds s.pending
      → s.pending me ≡ x
      → x ≢ none_pending
      → 0 < s.holds me
  busy-pos s x h e ne = elim (dec_lt 0 (s.holds me)) [
    | yes pos ↦ pos
    | no z ↦ absurd (ne (sym e ∙ h.idle me (omega arith)))
  ]

  -- What the consumer knows is not affected by a new phase of a sequence that is not published.
  pub phase-Certain :
      (r r' : Ring T) (q : Pull) (phase : ℕ → Phase T) (n : ℕ) (x : Phase T)
      → Certain cap r q phase
      → ((v : T) → phase n ≢ published v)
      → 0 < r.senders
      → r'.seen_round ≡ r.seen_round
      → r'.known_writes ≡ r.known_writes
      → Certain cap r' q (update phase n x)
  phase-Certain r r' q phase n x c ne pos seen known = record {
    available = λ a.
        let (v, e, look, k) = c.available a in
        (
          v,
          elim (Bool-cases (q.read == n)) [
            | inl f ↦ absurd (ne v (let here : q.read ≡ n = ground (arith, f) in rw (← here) e))
            | inr f ↦ rw f e
          ],
          rw seen look,
          rw known k,
        );
    complete = λ a. absurd (omega (arith, (c.complete a).0));
  }

  pub others_at :
      (s : State T) (x : Pending T) (i : ℕ)
      → i ≢ me
      → record { known = s.known_reads i; pending = update s.pending me x i; live = s.holds i }
        ≡ push_of s i
  others_at s x i h = rw (update_ne s.pending me i x h) refl
