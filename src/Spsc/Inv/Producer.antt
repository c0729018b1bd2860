-- ===== src/Spsc/Inv/Producer.antt =====
-- An access of the producer that keeps to its rules keeps the invariant.
use ultima_rings.Base.{
  Yields, ℕ, ◌%◌, ◌≤◌, ◌≡◌, refl, true, ◌&&◌, List, [], ◌∷◌, ◌++◌, arith, leb, max, Bool-cases, inl,
  inr, if◌then◌else◌, append-nil,
}
use native.Mathlib.Nat.{le_refl}
use ultima_rings.Notify.Parker.{Parker}
use ultima_rings.Program.{MemoryOrdering}
use ultima_rings.Spsc.Defs.{
  Access, load_tail, load_head, load_disconnected, store_tail, store_head, store_disconnected,
  write_slot, read_slot, fence, wake, prepare_park, cancel, park, pause, apply, Reply, Code,
}
use ultima_rings.Program.{act, End, consumer, producer}
use ultima_rings.Spsc.Inv.{Inv}
use ultima_rings.Spsc.Inv.Knowledge.{
  load_head-Knows, store_tail-Knows, store_disconnected-Knows, write_slot-Knows, written_bounds,
}
use ultima_rings.Spsc.Inv.Slots.{next_slot-free, write_slot-Holds}
use ultima_rings.Spsc.Rules.{Push, Produces, Pull}
use ultima_rings.Spsc.State.{State, acquires, producer_access, on_parker}

-- What an access of the producer leaves: the invariant, the rules for the rest of its program, and
-- the values that it has written.
pub record Moved {T A : Type 0} (cap : ℕ) (Q : A → Push → List T → Type 0) (s s' : State T)
    (rest : Code T A) (q : Pull) (out : List T) : Type 0 where
  pub push : Push
  pub new : List T
  pub inv : Inv cap s' push q
  pub rule : Produces cap Q rest push (out ++ new)
  pub written : s'.written ≡ s.written ++ new
  pub read : s'.read ≡ s.read
  pub given : s'.given ≡ s.given

-- `P` of what an access yields, if it has a result.
module _ {T A : Type 0} (cap : ℕ) (Q : A → Push → List T → Type 0) where
  same :
      (s s' : State T) (rest : Code T A) (p : Push) (q : Pull) (out : List T)
      → Inv cap s' p q
      → Produces cap Q rest p out
      → s'.written ≡ s.written
      → s'.read ≡ s.read
      → s'.given ≡ s.given
      → Moved cap Q s s' rest q out
  same s s' rest p q out inv rule w r g = record {
    push = p;
    new = [];
    inv = inv;
    rule = rw append-nil rule;
    written = rw append-nil w;
    read = r;
    given = g;
  }

  parker :
      (e : End) (f : Parker → Parker) (s : State T) (p : Push) (q : Pull) {rest : Code T A}
      (out : List T)
      → Inv cap s p q
      → Produces cap Q rest p out
      → Moved cap Q s (on_parker e f s) rest q out
  parker consumer f s p q out inv rule =
      same _ _ _ p q out (assumption (inv.knows, inv.holds)) rule refl refl refl
  parker producer f s p q out inv rule =
      same _ _ _ p q out (assumption (inv.knows, inv.holds)) rule refl refl refl

  load_head-Moved :
      (choice : ℕ) (s : State T) (p : Push) (q : Pull) (o : MemoryOrdering) (k : ℕ → Code T A)
      (out : List T)
      → Inv cap s p q
      → Produces cap Q (act (load_head o) k) p out
      → (leb s.seen_head choice && leb choice s.head.latest) ≡ true
      → Moved cap Q s
          (record s {
            seen_head = choice;
            known_reads =
                if acquires o then max s.known_reads (s.head.clock choice) else s.known_reads;
          })
          (k (s.head.value choice))
          q
          out
  load_head-Moved choice s p q o k out inv rule e =
      same _ _ _ _ q out
        (record {
          knows = load_head-Knows cap o choice s p q inv.knows lo hi;
          holds = assumption (inv.holds);
        })
        (rw (inv.knows.heads.values choice hi) (rule (s.head.clock choice) older newer)) refl refl
        refl
    where
      lo : s.seen_head ≤ choice
      lo = ground arith

      hi : choice ≤ s.head.latest
      hi = ground arith

      older : p.known ≤ s.head.clock choice
      older = omega (arith, inv.knows.reads_seen, inv.knows.heads.grows s.seen_head choice lo hi)

      newer : s.head.clock choice ≤ p.written
      newer = omega (
        arith,
        inv.knows.heads.grows choice s.head.latest hi (le_refl _),
        inv.knows.head_now,
        inv.knows.released,
        written_bounds cap s p q inv.knows,
      )

  write_slot-Moved :
      (choice : ℕ) (s : State T) (p : Push) (q : Pull) (v : T) (k : Unit {0} → Code T A)
      (out : List T)
      → Inv cap s p q
      → Produces cap Q (act (write_slot (p.written % cap) v) k) p out
      → Yields
          (λ (r, s'). Moved cap Q s s' (k r) q out)
          (producer_access choice s (write_slot (p.written % cap) v))
  unfolding producer_access
  write_slot-Moved choice s p q v k out inv (live, room, index, rule) =
      let (stamp, old, e) = next_slot-free cap s p q inv room in
      let b = written_bounds cap s p q inv.knows in
      rw (e, old)
        (record {
          push = _;
          new = v ∷ [];
          inv = record {
            knows = write_slot-Knows cap s p q _ _ inv.knows live room;
            holds =
                write_slot-Holds cap v s p q inv.holds (omega (arith, b, inv.knows.released)) b.0
                  (omega (arith, b, inv.knows.released));
          };
          rule = rule;
          written = refl;
          read = refl;
          given = refl;
        })

  -- Whatever it is, an access that keeps to the producer's rules leaves the invariant.
  pub producer_access-Moved :
      (choice : ℕ) (s : State T) (p : Push) (q : Pull) (c : Access T) (k : Reply c → Code T A)
      (out : List T)
      → Inv cap s p q
      → Produces cap Q (act c k) p out
      → Yields (λ (r, s'). Moved cap Q s s' (k r) q out) (producer_access choice s c)
  unfolding producer_access
  producer_access-Moved choice s p q (load_head o) k out inv rule =
      elim (Bool-cases (leb s.seen_head choice && leb choice s.head.latest)) [
        | inl e ↦ rw e (load_head-Moved choice s p q o k out inv rule e)
        | inr e ↦ rw e tt
      ]
  producer_access-Moved choice s p q (load_disconnected o) k out inv rule =
      same _ _ _ p q out inv (rule _) refl refl refl
  producer_access-Moved choice s p q (store_tail o x) k out inv (rel, live, value, rule) =
      rw (rel, value)
        (same _ _ _ _ q out
          (record {
            knows = store_tail-Knows cap s p q inv.knows live inv.holds.writes;
            holds = assumption (inv.holds);
          })
          rule refl refl refl)
  producer_access-Moved choice s p q (store_disconnected o) k out inv (rel, done, rule) = rw rel (
      same _ _ _ _ q out
        (record {
          knows = store_disconnected-Knows cap s p q inv.knows done;
          holds = assumption (inv.holds);
        })
        rule refl refl refl)
  producer_access-Moved choice s p q (write_slot i v) k out inv (live, room, index, rule) =
      rw index (write_slot-Moved choice s p q v k out inv (live, room, refl, rule))
  producer_access-Moved choice s p q (fence _) k out inv rule =
      same _ _ _ p q out inv rule refl refl refl
  producer_access-Moved choice s p q (pause _) k out inv rule =
      same _ _ _ p q out inv rule refl refl refl
  producer_access-Moved choice s p q (wake e) k out inv rule = parker e _ s p q out inv rule
  producer_access-Moved choice s p q (prepare_park e) k out inv rule = parker e _ s p q out inv rule
  producer_access-Moved choice s p q (cancel e) k out inv rule = parker e _ s p q out inv rule
  producer_access-Moved choice s p q (park e) k out inv rule = parker e _ s p q out inv rule
  producer_access-Moved choice s p q (load_tail _) k out inv rule = absurd rule
  producer_access-Moved choice s p q (store_head _ _) k out inv rule = absurd rule
  producer_access-Moved choice s p q (read_slot _) k out inv rule = absurd rule
  producer_access-Moved choice s p q (apply _) k out inv rule = absurd rule
