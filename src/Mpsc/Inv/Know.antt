-- ===== src/Mpsc/Inv/Know.antt =====
-- What a producer learns of the reads, and the count of senders.
use ultima_rings.Base.{
  ℕ, ◌+◌, ◌-◌, ◌≤◌, ◌<◌, ◌≡◌, refl, sym, max, Bool, true, ◌&&◌, List, [], arith, append-nil,
  total-update, total-le, ◌^◌, update, update_self, update_ne, Bool-cases, inl, inr, if◌then◌else◌,
  add_usize, sub_usize,
}
use ultima_rings.Memory.{Timeline, acquires}
use ultima_rings.Program.{MemoryOrdering, act}
use ultima_rings.Mpsc.Defs.{load_head, Code}
use ultima_rings.Mpsc.Inv.{Phase, Counters, Owners, Holders, Inv, push_of}
use ultima_rings.Mpsc.Rules.{Push, Pull, Produces}
use ultima_rings.Mpsc.State.{State, Pending, none_pending}
use ultima_rings.Mpsc.Inv.Moved.{Moved, same}

module _ {T A : Type 0} (cap handles me : ℕ) (Q : A → Push T → List (ℕ × T) → Type 0) where
  learn-Counters :
      (claim : ℕ) (head : Timeline) (known : ℕ → ℕ) (read released h : ℕ)
      → Counters cap claim head known read released
      → h ≤ released
      → Counters cap claim head (update known me (max (known me) h)) read released
  learn-Counters claim head known read released h c le = record {
    small = c.small;
    versions = c.versions;
    last = c.last;
    behind = c.behind;
    order = c.order;
    room = c.room;
    knows = λ i. ground (arith, c.knows i, c.knows me);
  }

  learn-Owners :
      (claim read h : ℕ) (known : ℕ → ℕ) (pending : ℕ → Pending T) (phase : ℕ → Phase T)
      → Owners cap claim read known pending phase
      → Owners cap claim read (update known me (max (known me) h)) pending phase
  learn-Owners claim read h known pending phase o = record {
    ahead = o.ahead;
    taken = o.taken;
    done = o.done;
    claims = λ i n e. ground (arith, o.claims i n);
    fills = o.fills;
    claimed_own = o.claimed_own;
    filled_own = o.filled_own;
  }

  pub load_head-Moved :
      (choice : ℕ) (s : State T) (q : Pull) (o : MemoryOrdering) (k : ℕ → Code T A)
      (out : List (ℕ × T))
      → Inv cap handles s q
      → Produces cap Q (act (load_head o) k) (push_of s me) out
      → choice ≤ s.head.latest
      → Moved cap handles me Q s
          (record s {
            known_reads =
                if acquires o
                then update s.known_reads me (max (s.known_reads me) (s.head.clock choice))
                else s.known_reads;
          })
          (k (s.head.value choice))
          q
          out
  load_head-Moved choice s q o k out inv rule le = elim (Bool-cases (acquires o)) [
    | inl e ↦
        let (value, old) = inv.counters.versions choice le in
        rw e (record {
          new = [];
          inv = record {
            phase = inv.phase;
            size = inv.size;
            counters =
                learn-Counters s.claim s.head s.known_reads q.read q.released _ inv.counters old;
            owners = learn-Owners s.claim q.read _ s.known_reads s.pending inv.phase inv.owners;
            window = inv.window;
            logs = inv.logs;
            sent = inv.sent;
            rising = inv.rising;
            holders = inv.holders;
            certain = record { available = inv.certain.available; complete = inv.certain.complete };
          };
          rule =
              rw
                (
                  append-nil,
                  update_self s.known_reads me (max (s.known_reads me) (s.head.clock choice)),
                  value,
                )
                (rw e at (rule (s.head.clock choice)));
          sent = sym (append-nil _);
          others = λ i h. (
            rw (update_ne s.known_reads me i (max (s.known_reads me) (s.head.clock choice)) h) refl,
            refl,
          );
          read = refl;
          given = refl;
        })
    | inr e ↦ rw e (
        same cap handles me Q s s _ q out inv (rw e at (rule (s.head.value choice))) (λ i. refl)
          refl refl refl)
  ]

  -- The count of senders, one more or less.
  pub add-Holders :
      (s : State T)
      → me < handles
      → handles ≤ 2 ^ 62
      → s.holds me ≡ 1
      → Holders handles s.senders s.chained s.holds s.pending
      → Holders handles
          (add_usize s.senders 1)
          s.chained
          (update s.holds me (s.holds me + 1))
          s.pending
  add-Holders s lt small one h = record {
    count = omega (
      arith,
      h.count,
      total-update handles me (s.holds me + 1) s.holds lt,
      total-le handles 2 s.holds h.few,
    );
    few = λ i. ground (arith, h.few i);
    beyond = λ i ge. ground (arith, h.beyond i);
    idle = λ i z. ground (arith, h.idle i);
    chain = h.chain;
  }

  pub sub-Holders :
      (s : State T)
      → me < handles
      → handles ≤ 2 ^ 62
      → s.holds me ≡ 1
      → s.pending me ≡ none_pending
      → Holders handles s.senders s.chained s.holds s.pending
      → Holders handles
          (sub_usize s.senders 1)
          (s.chained && true)
          (update s.holds me (s.holds me - 1))
          s.pending
  sub-Holders s lt small one quiet h = record {
    count = omega (
      arith,
      h.count,
      total-update handles me (s.holds me - 1) s.holds lt,
      total-le handles 2 s.holds h.few,
    );
    few = λ i. ground (arith, h.few i);
    beyond = λ i ge. ground (arith, h.beyond i);
    idle = λ i z. ground (arith, h.idle i);
    chain = rw h.chain refl;
  }

  pub count-Moved :
      (s : State T) (q : Pull) (senders held : ℕ) (chained : Bool) (rest : Code T A)
      (out : List (ℕ × T))
      → Inv cap handles s q
      → 0 < s.senders
      → Holders handles senders chained (update s.holds me held) s.pending
      → Produces cap Q rest (record (push_of s me) { live = held }) out
      → Moved cap handles me Q s
          (record s { senders = senders; chained = chained; holds = update s.holds me held })
          rest
          q
          out
  count-Moved s q senders held chained rest out inv pos h rule = record {
    new = [];
    inv = record {
      phase = inv.phase;
      size = inv.size;
      counters = inv.counters;
      owners = inv.owners;
      window = inv.window;
      logs = inv.logs;
      sent = inv.sent;
      rising = inv.rising;
      holders = h;
      certain = record {
        available = inv.certain.available;
        complete = λ a. absurd (omega (arith, (inv.certain.complete a).0));
      };
    };
    rule = rw (append-nil, update_self s.holds me held) rule;
    sent = sym (append-nil _);
    others = λ i ne. (rw (update_ne s.holds me i held ne) refl, refl);
    read = refl;
    given = refl;
  }
