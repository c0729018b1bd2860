-- ===== src/Mpsc/Inv/Consumer.antt =====
-- An access of the consumer that keeps to its rules keeps the invariant.
use native.Mathlib.Decide.{dec_lt}
use native.Mathlib.Nat.{le_refl, mod-lt}
use ultima_rings.Base.{
  ℕ, zero, suc, ◌+◌, ◌/◌, ◌%◌, ◌≤◌, ◌<◌, ◌≡◌, ◌≢◌, refl, sym, ap, subst, ◌∙◌, true, false, ◌&&◌,
  ◌||◌, none, some, List, [], ◌∷◌, ◌++◌, arith, length, get_elem?, length-set, append-nil,
  usize_max, Bool-cases, inl, inr, ◌==◌, leb, ltb,
}
use ultima_rings.Memory.{store, acquires}
use ultima_rings.Program.{MemoryOrdering, act}
use ultima_rings.Mpsc.Defs.{
  Access, load_claim, load_head, load_senders, load_rx_dropped, load_round, store_head, store_round,
  store_rx_dropped, compare_exchange_weak, fetch_add_senders, fetch_sub_senders, write_slot,
  read_slot, fence, wake_consumer, prepare_park, cancel, park, wake_producers, prepare_wait, wait,
  pause, apply, Reply, Code,
}
use ultima_rings.Mpsc.Inv.{unclaimed, published, SlotAt, Inv, push_of}
use ultima_rings.Mpsc.Inv.Look.{
  round-published, round-unpublished, none-pending_lem, unclaimed_lem, see-Window, all-Window,
}
use ultima_rings.Mpsc.Inv.Moved.{Yields}
use ultima_rings.Mpsc.Inv.Take.{
  take-Counters, store-Counters, take-Owners, take-Logs, take-Window, latest_round-set,
}
use ultima_rings.Mpsc.Rules.{Pull, Consumes}
use ultima_rings.Mpsc.State.{State, Slot, latest_round, consumer_access}

module _ {T A : Type 0} (cap handles : ℕ) (Q : A → Pull → List T → List T → Type 0) where
  -- What an access of the consumer leaves: the invariant, the rules for the rest of its program, and
  -- the values that it has read and given to the closure; nothing changes for the producers.
  pub record Taken (s s' : State T) (rest : Code T A) (out given : List T) : Type 0 where
    pub pull : Pull
    pub new : List T
    pub gave : List T
    pub inv : Inv cap handles s' pull
    pub rule : Consumes cap Q rest pull (out ++ new) (given ++ gave)
    pub pushes : (i : ℕ) → push_of s' i ≡ push_of s i
    pub sent : s'.sent ≡ s.sent
    pub read : s'.read ≡ s.read ++ new
    pub handed : s'.given ≡ s.given ++ gave

  -- An access that reads no value.
  look :
      (s s' : State T) (rest : Code T A) (q : Pull) (out given : List T)
      → Inv cap handles s' q
      → Consumes cap Q rest q out given
      → ((i : ℕ) → push_of s' i ≡ push_of s i)
      → s'.sent ≡ s.sent
      → s'.read ≡ s.read
      → s'.given ≡ s.given
      → Taken s s' rest out given
  look s s' rest q out given inv rule pushes sent r g = record {
    pull = q;
    new = [];
    gave = [];
    inv = inv;
    rule = rw (append-nil out, append-nil given) rule;
    pushes = pushes;
    sent = sent;
    read = rw append-nil r;
    handed = rw append-nil g;
  }

  -- A look at the next slot once the senders are gone and every round has been seen.
  all_read :
      (choice : ℕ) (s : State T) (q : Pull) (slot : Slot T) (inv : Inv cap handles s q)
      → 0 < cap
      → get_elem? s.slots (q.read % cap) ≡ some slot
      → s.seen_round (q.read % cap) ≤ choice
      → choice ≤ slot.rounds.latest
      → q.complete ≡ true
      → slot.rounds.value choice ≢ q.read / cap
      → q.read ≡ q.all
  all_read choice s q slot inv pos here ge le h ne =
      let (gone, all, seen) = inv.certain.complete h in
      let a = inv.window q.read (le_refl _) (omega arith) in
      let e : some a.slot ≡ some slot = sym a.here ∙ here in
      let same : a.slot ≡ slot = cc in
      let old : s.seen_round (q.read % cap) ≡ slot.rounds.latest =
        seen (q.read % cap) ∙ ap latest_round here in
      let last : choice ≡ slot.rounds.latest = omega arith in
      let other : a.slot.rounds.value a.slot.rounds.latest ≢ q.read / cap =
        rw same (rw (← last) ne) in
      let behind =
        unclaimed_lem cap s.claim q.read q.read s.known_reads s.pending inv.phase inv.owners
          (none-pending_lem handles s.senders s.chained s.holds s.pending inv.holders gone)
          (λ v. round-unpublished cap q.read a.slot (inv.phase q.read) v a.rounds a.holds other) in
      omega (arith, inv.counters.order)

  load_round-Taken :
      (choice : ℕ) (s : State T) (q : Pull) (o : MemoryOrdering) (k : ℕ → Code T A)
      (out given : List T)
      → 0 < cap
      → Inv cap handles s q
      → acquires o ≡ true
      → ((r : ℕ)
          → (q.complete ≡ true → r ≢ q.read / cap → q.read ≡ q.all)
          → Consumes cap Q
              (k r)
              (record q { available = q.available || r == q.read / cap })
              out
              given)
      → Yields
          (λ (r, s'). Taken s s' (k r) out given)
          (consumer_access choice s (load_round o (q.read % cap)))
  unfolding consumer_access
  load_round-Taken choice s q o k out given pos inv acq rule =
      let c = inv.counters in
      let a = inv.window q.read (le_refl _) (omega arith) in
      rw (a.here, acq)
        (elim (Bool-cases
          (leb (s.seen_round (q.read % cap)) choice && leb choice a.slot.rounds.latest)) [
            | inr e ↦ rw e tt
            | inl e ↦
                let ge : s.seen_round (q.read % cap) ≤ choice = ground (arith, e) in
                let le : choice ≤ a.slot.rounds.latest = ground (arith, e) in
                rw e (
                  look s _ (k (a.slot.rounds.value choice))
                    (record q {
                      available = q.available || a.slot.rounds.value choice == q.read / cap;
                    })
                    out given
                    (record {
                      phase = inv.phase;
                      size = inv.size;
                      counters = c;
                      owners = inv.owners;
                      window =
                          see-Window cap q.read choice s.slots s.seen_round inv.phase a.slot
                            inv.window (omega arith) a.here ge le;
                      logs = inv.logs;
                      sent = inv.sent;
                      rising = inv.rising;
                      holders = inv.holders;
                      certain = record {
                        available = λ h.
                            elim (Bool-cases (a.slot.rounds.value choice == q.read / cap)) [
                              | inl f ↦
                                  let (v, p, version, clock) =
                                    round-published cap q.read choice a.slot (inv.phase q.read)
                                      (omega (arith, a.seen_ge)) a.rounds a.holds le
                                      (ground (arith, f)) in
                                  (v, p, ground (arith, version), ground (arith, clock))
                              | inr f ↦
                                  let was : q.available ≡ true = ground (arith, h, f) in
                                  let (v, p, saw, known) = inv.certain.available was in
                                  (v, p, ground (arith, saw), ground (arith, known))
                            ];
                        complete = λ h.
                            let (gone, all, seen) = inv.certain.complete h in
                            (
                              gone,
                              all,
                              λ j. elim (Bool-cases (j == q.read % cap)) [
                                | inl f ↦
                                    let here : j ≡ q.read % cap = ground (arith, f) in
                                    rw (f, here)
                                      (rw a.here (
                                        let old = seen (q.read % cap) in
                                        omega (arith, rw a.here at old)))
                                | inr f ↦ rw f (seen j)
                              ],
                            );
                      };
                    })
                    (rule (a.slot.rounds.value choice)
                      (λ h ne. all_read choice s q a.slot inv (omega arith) a.here ge le h ne))
                    (λ i. refl) refl refl refl)
          ])

  gone-Taken :
      (s : State T) (q : Pull) (k : ℕ → Code T A) (out given : List T)
      → 0 < cap
      → Inv cap handles s q
      → s.senders ≡ 0
      → Consumes cap Q (k 0) (record q { complete = true; all = s.claim }) out given
      → Taken s (record s { seen_round = λ i. latest_round (get_elem? s.slots i) }) (k 0) out given
  gone-Taken s q k out given pos inv gone rule =
      look s _ (k 0) (record q { complete = true; all = s.claim }) out given
        (record {
          phase = inv.phase;
          size = inv.size;
          counters = inv.counters;
          owners = inv.owners;
          window = all-Window cap q.read s.slots s.seen_round inv.phase inv.window;
          logs = inv.logs;
          sent = inv.sent;
          rising = inv.rising;
          holders = inv.holders;
          certain = record {
            available = λ h.
                let (v, p, saw, known) = inv.certain.available h in
                let a = inv.window q.read (le_refl _) (omega arith) in
                (v, p, rw a.here (omega (arith, saw, a.seen_le)), known);
            complete = λ h. (gone, refl, λ j. refl);
          };
        })
        rule (λ i. refl) refl refl refl

  read_slot-Taken :
      (choice : ℕ) (s : State T) (q : Pull) (k : T → Code T A) (out given : List T)
      → 0 < cap
      → Inv cap handles s q
      → q.available ≡ true
      → ((v : T)
          → q.read < usize_max
          → Consumes cap Q
              (k v)
              (record q { read = q.read + 1; available = false })
              (out ++ (v ∷ []))
              given)
      → Yields
          (λ (r, s'). Taken s s' (k r) out given)
          (consumer_access choice s (read_slot (q.read % cap)))
  unfolding consumer_access
  read_slot-Taken choice s q k out given pos inv avail rule =
      let c = inv.counters in
      let (v, p, saw, known) = inv.certain.available avail in
      let a =
        subst (SlotAt cap s.slots s.seen_round q.read) p
          (inv.window q.read (le_refl _) (omega arith)) in
      let (full, latest, writes) = a.holds in
      let seen : leb a.slot.writes (s.known_writes (q.read % cap)) ≡ true =
        ground (arith, writes, known) in
      let index : q.read % cap < length s.slots = omega (arith, inv.size, mod-lt q.read pos) in
      let lt : q.read < s.claim = elim (dec_lt q.read s.claim) [
        | yes lt ↦ lt
        | no ge ↦
            let f = inv.owners.ahead q.read (omega arith) in
            absurd (let e : unclaimed ≡ published v = sym f ∙ p in cc)
      ] in
      rw (a.here, full, seen)
        (record {
          pull = record q { read = q.read + 1; available = false };
          new = v ∷ [];
          gave = [];
          inv = record {
            phase = inv.phase;
            size = length-set s.slots (q.read % cap) _ ∙ inv.size;
            counters = take-Counters cap s.claim s.head s.known_reads q.read q.released c lt;
            owners =
                take-Owners cap s.claim q.read s.known_reads s.pending inv.phase v inv.owners p;
            window = rw (← inv.logs.count) (
                take-Window cap s.slots s.seen_round q.read inv.phase a.slot inv.window inv.size pos
                  (inv.owners.ahead (q.read + cap) (omega (arith, c.room, c.behind))) a.rounds saw
                  a.seen_le latest writes);
            logs = take-Logs inv.phase s.log q.read s.read v inv.logs p;
            sent = inv.sent;
            rising = inv.rising;
            holders = inv.holders;
            certain = record {
              available = λ h. absurd (let e : false ≡ true = h in cc);
              complete = λ h.
                  let (gone, all, old) = inv.certain.complete h in
                  (
                    gone,
                    all,
                    λ j.
                        old j
                        ∙ sym (
                            latest_round-set s.slots (q.read % cap) j (length s.read + 1) none
                              a.slot a.here index),
                  );
            };
          };
          rule = rw (append-nil given) (rule v (omega (arith, c.small)));
          pushes = λ i. refl;
          sent = refl;
          read = refl;
          handed = sym (append-nil _);
        })

  store_head-Inv :
      (s : State T) (q : Pull)
      → Inv cap handles s q
      → Inv cap handles
          (record s { head = store s.head q.read (length s.read) })
          (record q { released = q.read })
  store_head-Inv s q inv = record {
    phase = inv.phase;
    size = inv.size;
    counters =
        rw (← inv.logs.count)
          (store-Counters cap s.claim s.head s.known_reads q.read q.released inv.counters);
    owners = inv.owners;
    window = inv.window;
    logs = inv.logs;
    sent = inv.sent;
    rising = inv.rising;
    holders = inv.holders;
    certain = record { available = inv.certain.available; complete = inv.certain.complete };
  }

  -- Whatever it is, an access that keeps to the consumer's rules leaves the invariant.
  pub consumer_access-Taken :
      (choice : ℕ) (s : State T) (q : Pull) (c : Access T) (k : Reply c → Code T A)
      (out given : List T)
      → 0 < cap
      → Inv cap handles s q
      → Consumes cap Q (act c k) q out given
      → Yields (λ (r, s'). Taken s s' (k r) out given) (consumer_access choice s c)
  unfolding consumer_access
  consumer_access-Taken choice s q (load_round o i) k out given pos inv (index, acq, rule) =
      rw index (load_round-Taken choice s q o k out given pos inv acq rule)
  consumer_access-Taken zero s q (load_senders o) k out given pos inv (acq, more, none_left) =
      elim (Bool-cases (s.senders == 0)) [
        | inl e ↦
            let f : (acquires o && s.chained) ≡ true = ground (arith, acq, inv.holders.chain) in
            rw (e, f) (gone-Taken s q k out given pos inv (ground (arith, e)) (none_left s.claim))
        | inr e ↦ rw e tt
      ]
  consumer_access-Taken (suc n) s q (load_senders o) k out given pos inv (acq, more, none_left) =
      let e : ltb 0 (suc n) ≡ true = ground arith in
      rw e (look s s (k (suc n)) q out given inv (more n) (λ i. refl) refl refl refl)
  consumer_access-Taken choice s q (read_slot i) k out given pos inv (avail, index, rule) =
      rw index (read_slot-Taken choice s q k out given (omega arith) inv avail rule)
  consumer_access-Taken choice s q (store_head o x) k out given pos inv (rel, at_read, rule) =
      rw (rel, at_read)
        (look s _ (k tt) (record q { released = q.read }) out given (store_head-Inv s q inv) rule
          (λ i. refl) refl refl refl)
  consumer_access-Taken choice s q (apply v) k out given pos inv rule = record {
    pull = q;
    new = [];
    gave = v ∷ [];
    inv = inv;
    rule = rw (append-nil out) (rule (ltb 0 choice));
    pushes = λ i. refl;
    sent = refl;
    read = sym (append-nil _);
    handed = refl;
  }
  consumer_access-Taken choice s q (store_rx_dropped o) k out given pos inv rule =
      look s _ (k tt) q out given inv rule (λ i. refl) refl refl refl
  consumer_access-Taken choice s q (fence _) k out given pos inv rule =
      look s _ (k tt) q out given inv rule (λ i. refl) refl refl refl
  consumer_access-Taken choice s q (pause _) k out given pos inv rule =
      look s _ (k tt) q out given inv rule (λ i. refl) refl refl refl
  consumer_access-Taken choice s q wake_producers k out given pos inv rule =
      look s _ (k tt) q out given inv rule (λ i. refl) refl refl refl
  consumer_access-Taken choice s q prepare_park k out given pos inv rule =
      look s _ (k tt) q out given inv rule (λ i. refl) refl refl refl
  consumer_access-Taken choice s q cancel k out given pos inv rule =
      look s _ (k tt) q out given inv rule (λ i. refl) refl refl refl
  consumer_access-Taken choice s q park k out given pos inv rule =
      look s _ (k tt) q out given inv rule (λ i. refl) refl refl refl
  consumer_access-Taken choice s q (load_claim _) k out given pos inv rule = absurd rule
  consumer_access-Taken choice s q (load_head _) k out given pos inv rule = absurd rule
  consumer_access-Taken choice s q (load_rx_dropped _) k out given pos inv rule = absurd rule
  consumer_access-Taken choice s q (store_round _ _ _) k out given pos inv rule = absurd rule
  consumer_access-Taken choice s q (compare_exchange_weak _ _ _ _) k out given pos inv rule =
      absurd rule
  consumer_access-Taken choice s q (fetch_add_senders _) k out given pos inv rule = absurd rule
  consumer_access-Taken choice s q (fetch_sub_senders _) k out given pos inv rule = absurd rule
  consumer_access-Taken choice s q (write_slot _ _) k out given pos inv rule = absurd rule
  consumer_access-Taken choice s q wake_consumer k out given pos inv rule = absurd rule
  consumer_access-Taken choice s q prepare_wait k out given pos inv rule = absurd rule
  consumer_access-Taken choice s q wait k out given pos inv rule = absurd rule
