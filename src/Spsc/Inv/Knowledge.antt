-- ===== src/Spsc/Inv/Knowledge.antt =====
-- What each access does to the threads' knowledge of one another.
use native.Mathlib.Nat.{le_refl}
use ultima_rings.Base.{
  ℕ, ◌+◌, ◌≤◌, ◌<◌, ◌≡◌, true, false, List, arith, max, length, wrap, if◌then◌else◌,
}
use ultima_rings.Program.{MemoryOrdering}
use ultima_rings.Spsc.Inv.{Counts, Knows}
use ultima_rings.Spsc.Rules.{Push, Pull}
use ultima_rings.Spsc.State.{State, Timeline, Slot, acquires, store}

-- A store of the next total adds a version to a counter.
Counts-store :
    (l : Timeline) (n : ℕ) → Counts l → l.clock l.latest ≤ n → Counts (store l (wrap n) n)
Counts-store l n c h = record {
  values = λ i hi. ground (arith, c.values i);
  grows = λ i j lo hi. ground (arith, c.grows i j lo, c.grows i l.latest);
}

module _ {T : Type 0} (cap : ℕ) where
  pub load_head-Knows :
      (o : MemoryOrdering) (v : ℕ) (s : State T) (p : Push) (q : Pull)
      → Knows cap s p q
      → s.seen_head ≤ v
      → v ≤ s.head.latest
      → Knows cap
          (record s {
            seen_head = v;
            known_reads = if acquires o then max s.known_reads (s.head.clock v) else s.known_reads;
          })
          (record p { known = if acquires o then s.head.clock v else p.known })
          q
  load_head-Knows o v s p q k lo hi =
      ground (arith, k.heads.grows s.seen_head v lo hi, k.heads.grows v s.head.latest hi)

  pub store_tail-Knows :
      (s : State T) (p : Push) (q : Pull)
      → Knows cap s p q
      → p.live ≡ true
      → p.written ≡ length s.written
      → Knows cap
          (record s { tail = store s.tail (wrap p.written) (length s.written) })
          (record p { published = true })
          q
  store_tail-Knows s p q k l w =
      let c : Counts (store s.tail (wrap p.written) (length s.written)) =
        rw (← w) (Counts-store s.tail p.written k.tails k.tail_now) in
      ground (arith, c)

  pub store_disconnected-Knows :
      (s : State T) (p : Push) (q : Pull)
      → Knows cap s p q
      → p.published ≡ true
      → Knows cap
          (record s { disconnected = true; tail_at_close = s.tail.latest })
          (record p { live = false })
          q
  store_disconnected-Knows s p q k h = ground arith

  pub write_slot-Knows :
      (s : State T) (p : Push) (q : Pull) (slots : List (Slot T)) (written : List T)
      → Knows cap s p q
      → p.live ≡ true
      → p.written < p.known + cap
      → Knows cap
          (record s { slots = slots; written = written })
          (record p { written = p.written + 1; published = false })
          q
  write_slot-Knows s p q slots written k l room = ground arith

  -- The consumer is behind the producer, and at most a capacity behind.
  pub written_bounds :
      (s : State T) (p : Push) (q : Pull)
      → Knows cap s p q
      → (q.read ≤ p.written) × (p.known ≤ q.released) × (q.known ≤ p.written)
  written_bounds s p q k = omega (
    arith,
    k.reads_seen,
    k.heads.grows s.seen_head s.head.latest k.seen_head (le_refl _),
    k.head_now,
    k.released,
    k.read,
    k.writes_seen,
    k.tails.grows s.seen_tail s.tail.latest k.seen_tail (le_refl _),
    k.tail_now,
  )

  pub load_tail-Knows :
      (o : MemoryOrdering) (v : ℕ) (s : State T) (p : Push) (q : Pull)
      → Knows cap s p q
      → s.seen_tail ≤ v
      → v ≤ s.tail.latest
      → Knows cap
          (record s {
            seen_tail = v;
            known_writes =
                if acquires o then max s.known_writes (s.tail.clock v) else s.known_writes;
          })
          p
          (record q { known = if acquires o then s.tail.clock v else q.known })
  load_tail-Knows o v s p q k lo hi =
      ground (arith, k.tails.grows s.seen_tail v lo hi, k.tails.grows v s.tail.latest hi)

  pub store_head-Knows :
      (s : State T) (p : Push) (q : Pull)
      → Knows cap s p q
      → q.read ≡ length s.read
      → Knows cap
          (record s { head = store s.head (wrap q.read) (length s.read) })
          p
          (record q { released = q.read })
  store_head-Knows s p q k w =
      let c : Counts (store s.head (wrap q.read) (length s.read)) =
        rw (← w) (Counts-store s.head q.read k.heads (omega (arith, k.head_now, k.released))) in
      ground (arith, c)

  -- A consumer that reads a set flag knows every write that there will be.
  pub close_seen-Knows :
      (s : State T) (p : Push) (q : Pull)
      → Knows cap s p q
      → s.disconnected ≡ true
      → q.live ≡ true
      → Knows cap
          (record s {
            seen_tail = max s.seen_tail s.tail_at_close;
            known_writes = max s.known_writes (s.tail.clock s.tail_at_close);
          })
          p
          (record q { known = p.written; complete = true })
  close_seen-Knows s p q k d l =
      ground (arith, k.tails.grows s.seen_tail s.tail.latest k.seen_tail, written_bounds s p q k)

  pub close-Knows :
      (s : State T) (p : Push) (q : Pull)
      → Knows cap s p q
      → Knows cap (record s { disconnected = true }) p (record q { live = false })
  close-Knows s p q k = ground arith

  pub read_slot-Knows :
      (s : State T) (p : Push) (q : Pull) (slots : List (Slot T)) (read : List T)
      → Knows cap s p q
      → q.read < q.known
      → Knows cap (record s { slots = slots; read = read }) p (record q { read = q.read + 1 })
  read_slot-Knows s p q slots read k more = ground arith
