-- ===== src/Mpsc/Inv/Fill.antt =====
-- The claim of a sequence, the write of its slot and its publication.
use native.Mathlib.Nat.{le_refl}
use ultima_rings.Base.{
  ℕ, suc, ◌+◌, ◌/◌, ◌%◌, ◌<◌, ◌≡◌, ◌≢◌, refl, sym, subst, ◌∙◌, true, List, [], ◌∷◌, ◌++◌, arith,
  length-set, append-nil, usize_max, update, update_self, update_ne, Bool-cases, inl, inr, ◌==◌,
  leb,
}
use ultima_rings.Memory.{Timeline, store, releases}
use ultima_rings.Program.{MemoryOrdering}
use ultima_rings.Mpsc.Defs.{store_round, write_slot, Code}
use ultima_rings.Mpsc.Inv.Order.{claim-Rising, fill-Rising, publish-Rising}
use ultima_rings.Mpsc.Inv.{
  Rising, floor, unclaimed, claimed, filled, published, Rounds, SlotAt, Counters, Owners, Inv,
  push_of, ring_of,
}
use ultima_rings.Mpsc.Inv.Claim.{
  claim-Counters, claim-Owners, claim-Logs, claim-Window, fill-Owners, fill-Logs, publish-Owners,
  publish-Logs, set-Window, Published-update, Published-append, held-pos,
}
use ultima_rings.Mpsc.Inv.Own.{claimed-window, filled-window, filled-lt}
use ultima_rings.Mpsc.Rules.{Push, Pull, Produces}
use ultima_rings.Mpsc.State.{State, none_pending, claiming, filling, producer_access}
use ultima_rings.Mpsc.Inv.Moved.{Yields, Moved, pend-Holders, busy-pos, phase-Certain, others_at}

module _ {T A : Type 0} (cap handles me : ℕ) (Q : A → Push T → List (ℕ × T) → Type 0) where
  pub claim-Moved :
      (s : State T) (q : Pull) (expected new : ℕ) (rest : Code T A) (out : List (ℕ × T))
      → me < handles
      → Inv cap handles s q
      → s.claim ≡ expected
      → s.pending me ≡ none_pending
      → 0 < s.holds me
      → new ≡ expected + 1
      → expected < usize_max
      → expected < s.known_reads me + cap
      → Produces cap Q rest (record (push_of s me) { pending = claiming expected }) out
      → Moved cap handles me Q s
          (record s { claim = new; pending = update s.pending me (claiming expected) })
          rest
          q
          out
  claim-Moved s q expected new rest out lt inv here idle pos next small room rule =
      let counters : Counters cap expected s.head s.known_reads q.read q.released =
        rw (← here) inv.counters in
      let owners : Owners cap expected q.read s.known_reads s.pending inv.phase =
        rw (← here) inv.owners in
      let rising : (i : ℕ) → Rising 0 (s.sent i) (floor expected (s.pending i)) =
        rw (← here) inv.rising in
      let free : inv.phase expected ≡ unclaimed = owners.ahead expected (le_refl _) in
      let bare : (v : T) → inv.phase expected ≢ published v = λ v e. cc in
      rw next (record {
        new = [];
        inv = record {
          phase = update inv.phase expected (claimed me);
          size = inv.size;
          counters =
              claim-Counters cap expected s.head s.known_reads q.read q.released me counters small
                room;
          owners =
              claim-Owners cap expected q.read s.known_reads s.pending inv.phase me owners
                counters.order idle room;
          window =
              claim-Window cap s.slots s.seen_round q.read inv.phase expected me inv.window free;
          logs = claim-Logs inv.phase s.log q.read s.read expected me inv.logs;
          rising = claim-Rising expected me s.pending s.sent rising idle;
          sent = λ i. Published-update inv.phase expected (claimed me) (s.sent i) bare (inv.sent i);
          holders = pend-Holders cap handles me s (claiming expected) inv.holders pos;
          certain =
              phase-Certain cap handles me (ring_of s) _ q inv.phase expected (claimed me)
                inv.certain bare
                (held-pos handles s.senders s.chained s.holds s.pending me inv.holders lt pos) refl
                refl;
        };
        rule = rw (append-nil, update_self s.pending me (claiming expected)) rule;
        sent = sym (append-nil _);
        others = λ i h. (others_at cap handles me s (claiming expected) i h, refl);
        read = refl;
        given = refl;
      })

  pub write-Moved :
      (choice : ℕ) (s : State T) (q : Pull) (n : ℕ) (v : T) (k : Unit {0} → Code T A)
      (out : List (ℕ × T))
      → me < handles
      → Inv cap handles s q
      → 0 < cap
      → s.pending me ≡ claiming n
      → Produces cap Q (k tt) (record (push_of s me) { pending = filling n v }) out
      → Yields
          (λ (r, s'). Moved cap handles me Q s s' (k r) q out)
          (producer_access me choice s (write_slot (n % cap) v))
  unfolding producer_access
  write-Moved choice s q n v k out lt inv pos pend rule =
      let (lo, hi, mine) = claimed-window s q inv me n pend in
      let near = (inv.owners.claims me n pend).1 in
      let c = inv.counters in
      let bare : (w : T) → inv.phase n ≢ published w = λ w e. cc in
      let a = subst (SlotAt cap s.slots s.seen_round n) mine (inv.window n lo hi) in
      let holding = busy-pos cap handles me s _ inv.holders pend (λ e. cc) in
      let (empty, stamp, latest, writes) = a.holds in
      let known : leb a.slot.stamp (s.known_reads me) ≡ true = ground (arith, stamp, near) in
      rw (a.here, pend, empty, known)
        (record {
          new = [];
          inv = record {
            phase = update inv.phase n (filled me v);
            size = length-set s.slots (n % cap) _ ∙ inv.size;
            counters = c;
            owners =
                fill-Owners cap s.claim q.read s.known_reads s.pending inv.phase me n v inv.owners
                  pend;
            window =
                set-Window cap s.slots s.seen_round q.read inv.phase n (filled me v) _ inv.window
                  inv.size pos lo hi a.rounds a.seen_ge a.seen_le
                  (refl, refl, latest, omega (arith, writes));
            logs = fill-Logs inv.phase s.log q.read s.read n me v inv.logs lo;
            rising = fill-Rising s.claim me n v s.pending s.sent inv.rising pend;
            sent = λ i. Published-update inv.phase n (filled me v) (s.sent i) bare (inv.sent i);
            holders = pend-Holders cap handles me s (filling n v) inv.holders holding;
            certain =
                phase-Certain cap handles me (ring_of s) _ q inv.phase n (filled me v) inv.certain
                  bare
                  (held-pos handles s.senders s.chained s.holds s.pending me inv.holders lt holding)
                  refl refl;
          };
          rule = rw (append-nil, update_self s.pending me (filling n v)) rule;
          sent = sym (append-nil _);
          others = λ i h. (others_at cap handles me s (filling n v) i h, refl);
          read = refl;
          given = refl;
        })

  -- The round of a slot after its publication.
  Rounds-store :
      (l : Timeline) (r clock : ℕ)
      → Rounds l
      → l.latest ≡ r
      → clock ≡ suc r
      → Rounds (store l r clock)
  Rounds-store l r clock h e c = record {
    initial = ground (arith, h.initial);
    values = λ v lt. ground (arith, h.values v);
  }

  pub publish-Moved :
      (choice : ℕ) (s : State T) (q : Pull) (o : MemoryOrdering) (n : ℕ) (v : T)
      (k : Unit {0} → Code T A) (out : List (ℕ × T))
      → me < handles
      → Inv cap handles s q
      → 0 < cap
      → s.pending me ≡ filling n v
      → releases o ≡ true
      → Produces cap Q
          (k tt)
          (record (push_of s me) { pending = none_pending })
          (out ++ ((n, v) ∷ []))
      → Yields
          (λ (r, s'). Moved cap handles me Q s s' (k r) q out)
          (producer_access me choice s (store_round o (n % cap) (n / cap)))
  unfolding producer_access
  publish-Moved choice s q o n v k out lt inv pos pend rel rule =
      let (lo, hi, mine) = filled-window s q inv me n v pend in
      let c = inv.counters in
      let bare : (w : T) → inv.phase n ≢ published w = λ w e. cc in
      let a = subst (SlotAt cap s.slots s.seen_round n) mine (inv.window n lo hi) in
      let holding = busy-pos cap handles me s _ inv.holders pend (λ e. cc) in
      let (full, writer, latest, writes) = a.holds in
      let mine' : (a.slot.writer == me) ≡ true = ground (arith, writer) in
      rw (a.here, pend, rel, mine')
        (record {
          new = (n, v) ∷ [];
          inv = record {
            phase = update inv.phase n (published v);
            size = length-set s.slots (n % cap) _ ∙ inv.size;
            counters = c;
            owners =
                publish-Owners cap s.claim q.read s.known_reads s.pending inv.phase me n v
                  inv.owners pend;
            window =
                set-Window cap s.slots s.seen_round q.read inv.phase n (published v) _ inv.window
                  inv.size pos lo hi
                  (Rounds-store a.slot.rounds (n / cap) a.slot.writes a.rounds latest writes)
                  a.seen_ge (omega (arith, a.seen_le)) (full, omega (arith, latest), writes);
            logs = publish-Logs inv.phase s.log q.read s.read n me v inv.logs mine;
            rising =
                publish-Rising s.claim me n v s.pending s.sent inv.rising pend
                  (filled-lt s q inv me n v pend);
            sent = λ i. elim (Bool-cases (i == me)) [
              | inl f ↦ rw f (
                  Published-append _ (s.sent me) n v
                    (Published-update inv.phase n (published v) (s.sent me) bare (inv.sent me))
                    (update_self inv.phase n (published v)))
              | inr f ↦
                  rw f (Published-update inv.phase n (published v) (s.sent i) bare (inv.sent i))
            ];
            holders = pend-Holders cap handles me s none_pending inv.holders holding;
            certain =
                phase-Certain cap handles me (ring_of s) _ q inv.phase n (published v) inv.certain
                  bare
                  (held-pos handles s.senders s.chained s.holds s.pending me inv.holders lt holding)
                  refl refl;
          };
          rule = rw (update_self s.pending me none_pending) rule;
          sent = update_self s.sent me _;
          others = λ i h. (others_at cap handles me s none_pending i h, update_ne s.sent me i _ h);
          read = refl;
          given = refl;
        })
