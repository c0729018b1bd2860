-- ===== src/Spsc/Inv/Consumer.antt =====
-- An access of the consumer that keeps to its rules keeps the invariant.
use native.Mathlib.Nat.{le_refl}
use ultima_rings.Base.{
  Yields, ℕ, ◌+◌, ◌%◌, ◌≤◌, ◌≡◌, refl, sym, Bool, true, ◌&&◌, List, [], ◌∷◌, ◌++◌, arith, ltb, leb,
  max, Bool-cases, inl, inr, if◌then◌else◌, append-nil,
}
use ultima_rings.Notify.Parker.{Parker}
use ultima_rings.Program.{MemoryOrdering, act, End, consumer, producer}
use ultima_rings.Spsc.Defs.{
  Access, load_tail, load_head, load_disconnected, store_tail, store_head, store_disconnected,
  write_slot, read_slot, fence, wake, prepare_park, cancel, park, pause, apply, Reply, Code,
}
use ultima_rings.Spsc.Inv.{Inv}
use ultima_rings.Spsc.Inv.Knowledge.{
  load_tail-Knows, store_head-Knows, close_seen-Knows, close-Knows, read_slot-Knows, written_bounds,
}
use ultima_rings.Spsc.Inv.Slots.{next_slot-full, read_slot-Holds}
use ultima_rings.Spsc.Rules.{Push, Pull, Consumes}
use ultima_rings.Spsc.State.{State, acquires, consumer_access, on_parker}

-- What an access of the consumer leaves: the invariant, the rules for the rest of its program, and
-- the values that it has read and given to the closure.
pub record Taken {T A : Type 0} (cap : ℕ) (Q : A → Pull → List T → List T → Type 0) (s s' : State T)
    (rest : Code T A) (p : Push) (out given : List T) : Type 0 where
  pub pull : Pull
  pub new : List T
  pub gave : List T
  pub inv : Inv cap s' p pull
  pub rule : Consumes cap Q rest pull (out ++ new) (given ++ gave)
  pub written : s'.written ≡ s.written
  pub read : s'.read ≡ s.read ++ new
  pub handed : s'.given ≡ s.given ++ gave

module _ {T A : Type 0} (cap : ℕ) (Q : A → Pull → List T → List T → Type 0) where
  same :
      (s s' : State T) (rest : Code T A) (p : Push) (q : Pull) (out given : List T)
      → Inv cap s' p q
      → Consumes cap Q rest q out given
      → s'.written ≡ s.written
      → s'.read ≡ s.read
      → s'.given ≡ s.given
      → Taken cap Q s s' rest p out given
  same s s' rest p q out given inv rule w r g = record {
    pull = q;
    new = [];
    gave = [];
    inv = inv;
    rule = rw (append-nil out, append-nil given) rule;
    written = w;
    read = rw append-nil r;
    handed = rw append-nil g;
  }

  parker :
      (e : End) (f : Parker → Parker) (s : State T) (p : Push) (q : Pull) {rest : Code T A}
      (out given : List T)
      → Inv cap s p q
      → Consumes cap Q rest q out given
      → Taken cap Q s (on_parker e f s) rest p out given
  parker consumer f s p q out given inv rule =
      same _ _ _ p q out given (assumption (inv.knows, inv.holds)) rule refl refl refl
  parker producer f s p q out given inv rule =
      same _ _ _ p q out given (assumption (inv.knows, inv.holds)) rule refl refl refl

  load_tail-Taken :
      (choice : ℕ) (s : State T) (p : Push) (q : Pull) (o : MemoryOrdering) (k : ℕ → Code T A)
      (out given : List T)
      → Inv cap s p q
      → Consumes cap Q (act (load_tail o) k) q out given
      → (leb s.seen_tail choice && leb choice s.tail.latest) ≡ true
      → Taken cap Q s
          (record s {
            seen_tail = choice;
            known_writes =
                if acquires o then max s.known_writes (s.tail.clock choice) else s.known_writes;
          })
          (k (s.tail.value choice))
          p
          out
          given
  load_tail-Taken choice s p q o k out given inv rule e =
      same _ _ _ _ _ out given
        (record {
          knows = load_tail-Knows cap o choice s p q inv.knows lo hi;
          holds = assumption (inv.holds);
        })
        (rw (inv.knows.tails.values choice hi) (rule (s.tail.clock choice) older newer last)) refl
        refl refl
    where
      lo : s.seen_tail ≤ choice
      lo = ground arith

      hi : choice ≤ s.tail.latest
      hi = ground arith

      older : q.known ≤ s.tail.clock choice
      older = omega (arith, inv.knows.writes_seen, inv.knows.tails.grows s.seen_tail choice lo hi)

      newer : s.tail.clock choice ≤ q.released + cap
      newer = omega (
        arith,
        inv.knows.tails.grows choice s.tail.latest hi (le_refl _),
        inv.knows.tail_now,
        inv.knows.room,
        written_bounds cap s p q inv.knows,
      )

      last : q.complete ≡ true → s.tail.clock choice ≡ q.known
      last c = ground (arith, inv.knows.complete c, inv.knows.closing, inv.knows.all_published)

  load_disconnected-Taken :
      (choice : ℕ) (s : State T) (p : Push) (q : Pull) (o : MemoryOrdering) (k : Bool → Code T A)
      (out given : List T)
      → Inv cap s p q
      → Consumes cap Q (act (load_disconnected o) k) q out given
      → Yields
          (λ (r, s'). Taken cap Q s s' (k r) p out given)
          (consumer_access choice s (load_disconnected o))
  unfolding consumer_access
  load_disconnected-Taken choice s p q o k out given inv (acq, live, stay, go) =
      elim (Bool-cases (s.disconnected && ltb 0 choice)) [
        | inl e ↦
            rw (e, acq)
              (same _ _ _ _ _ out given
                (record {
                  knows = close_seen-Knows cap s p q inv.knows (ground arith) live;
                  holds = assumption (inv.holds);
                })
                (go p.written (written_bounds cap s p q inv.knows).2
                  (omega (arith, inv.knows.room, written_bounds cap s p q inv.knows))
                  (λ c. sym (inv.knows.complete c).2))
                refl refl refl)
        | inr e ↦ rw e (same _ _ _ _ _ out given inv stay refl refl refl)
      ]

  read_slot-Taken :
      (choice : ℕ) (s : State T) (p : Push) (q : Pull) (k : T → Code T A) (out given : List T)
      → Inv cap s p q
      → Consumes cap Q (act (read_slot (q.read % cap)) k) q out given
      → Yields
          (λ (r, s'). Taken cap Q s s' (k r) p out given)
          (consumer_access choice s (read_slot (q.read % cap)))
  unfolding consumer_access
  read_slot-Taken choice s p q k out given inv (more, index, rule) =
      let (v, value, old, e) = next_slot-full cap s p q inv more in
      let b = written_bounds cap s p q inv.knows in
      rw (e, old)
        (record {
          pull = _;
          new = v ∷ [];
          gave = [];
          inv = record {
            knows = read_slot-Knows cap s p q _ _ inv.knows more;
            holds =
                read_slot-Holds cap v s p q inv.holds
                  (omega (arith, b, inv.knows.room, inv.knows.released)) b.0
                  (omega (arith, b, inv.knows.room, inv.knows.released)) (omega (arith, b)) value;
          };
          rule = rw (append-nil given) (rule v);
          written = refl;
          read = refl;
          handed = rw append-nil refl;
        })

  -- Whatever it is, an access that keeps to the consumer's rules leaves the invariant.
  pub consumer_access-Taken :
      (choice : ℕ) (s : State T) (p : Push) (q : Pull) (c : Access T) (k : Reply c → Code T A)
      (out given : List T)
      → Inv cap s p q
      → Consumes cap Q (act c k) q out given
      → Yields (λ (r, s'). Taken cap Q s s' (k r) p out given) (consumer_access choice s c)
  unfolding consumer_access
  consumer_access-Taken choice s p q (load_tail o) k out given inv rule =
      elim (Bool-cases (leb s.seen_tail choice && leb choice s.tail.latest)) [
        | inl e ↦ rw e (load_tail-Taken choice s p q o k out given inv rule e)
        | inr e ↦ rw e tt
      ]
  consumer_access-Taken choice s p q (load_disconnected o) k out given inv rule =
      load_disconnected-Taken choice s p q o k out given inv rule
  consumer_access-Taken choice s p q (store_head o x) k out given inv (rel, value, rule) =
      rw (rel, value)
        (same _ _ _ _ _ out given
          (record {
            knows = store_head-Knows cap s p q inv.knows inv.holds.reads;
            holds = assumption (inv.holds);
          })
          rule refl refl refl)
  consumer_access-Taken choice s p q (store_disconnected o) k out given inv rule =
      same _ _ _ _ _ out given
        (record { knows = close-Knows cap s p q inv.knows; holds = assumption (inv.holds) }) rule
        refl refl refl
  consumer_access-Taken choice s p q (read_slot i) k out given inv (more, index, rule) =
      rw index (read_slot-Taken choice s p q k out given inv (more, refl, rule))
  consumer_access-Taken choice s p q (apply v) k out given inv rule = record {
    pull = q;
    new = [];
    gave = v ∷ [];
    inv = assumption (inv.knows, inv.holds);
    rule = rw (append-nil out) (rule _);
    written = refl;
    read = rw append-nil refl;
    handed = refl;
  }
  consumer_access-Taken choice s p q (fence _) k out given inv rule =
      same _ _ _ p q out given inv rule refl refl refl
  consumer_access-Taken choice s p q (pause _) k out given inv rule =
      same _ _ _ p q out given inv rule refl refl refl
  consumer_access-Taken choice s p q (wake e) k out given inv rule =
      parker e _ s p q out given inv rule
  consumer_access-Taken choice s p q (prepare_park e) k out given inv rule =
      parker e _ s p q out given inv rule
  consumer_access-Taken choice s p q (cancel e) k out given inv rule =
      parker e _ s p q out given inv rule
  consumer_access-Taken choice s p q (park e) k out given inv rule =
      parker e _ s p q out given inv rule
  consumer_access-Taken choice s p q (load_head _) k out given inv rule = absurd rule
  consumer_access-Taken choice s p q (store_tail _ _) k out given inv rule = absurd rule
  consumer_access-Taken choice s p q (write_slot _ _) k out given inv rule = absurd rule
