-- ===== src/Spsc/Inv.antt =====
-- The invariant of a ring of src/spsc.rs in the middle of its threads' operations.
pub mod Knowledge
pub mod Slots
pub mod Producer
pub mod Consumer
use ultima_rings.Base.{
  ℕ, ◌+◌, ◌-◌, ◌%◌, ◌≤◌, ◌<◌, ◌≡◌, Bool, true, false, Option, none, some, List, length, get_elem?,
  take, wrap,
}
use ultima_rings.Spsc.Rules.{Push, Pull}
use ultima_rings.Spsc.State.{State, Timeline}

-- The versions of one counter: each stands for the total that its store released.
pub record Counts (l : Timeline) : Type 0 where
  pub values : (i : ℕ) → i ≤ l.latest → l.value i ≡ wrap (l.clock i)
  pub grows : (i j : ℕ) → i ≤ j → j ≤ l.latest → l.clock i ≤ l.clock j

-- What each thread knows, against what the other has done.
pub record Knows {T : Type 0} (cap : ℕ) (s : State T) (p : Push) (q : Pull) : Type 0 where
  pub tails : Counts s.tail
  pub heads : Counts s.head
  pub seen_tail : s.seen_tail ≤ s.tail.latest
  pub seen_head : s.seen_head ≤ s.head.latest
  pub knows_reads : p.known ≡ s.known_reads
  pub reads_seen : p.known ≤ s.head.clock s.seen_head
  pub knows_writes : q.known ≡ s.known_writes
  pub writes_seen : q.known ≤ s.tail.clock s.seen_tail
  pub tail_now : s.tail.clock s.tail.latest ≤ p.written
  pub all_published : p.published ≡ true → s.tail.clock s.tail.latest ≡ p.written
  pub head_now : s.head.clock s.head.latest ≡ q.released
  pub released : q.released ≤ q.read
  pub read : q.read ≤ q.known
  pub room : p.written ≤ p.known + cap
  pub closing : p.live ≡ false → (p.published ≡ true) × (s.tail_at_close ≡ s.tail.latest)
  pub flagged : s.disconnected ≡ true → q.live ≡ true → p.live ≡ false
  pub closed : q.complete ≡ true → s.disconnected ≡ true
  pub complete :
      q.complete ≡ true → (p.live ≡ false) × (s.seen_tail ≡ s.tail.latest) × (q.known ≡ p.written)

-- What the slots hold: the values written and not yet read, and else nothing.
pub record Holds {T : Type 0} (cap : ℕ) (s : State T) (p : Push) (q : Pull) : Type 0 where
  pub size : length s.slots ≡ cap
  pub writes : p.written ≡ length s.written
  pub reads : q.read ≡ length s.read
  pub full :
      (i : ℕ) (v : T)
      → q.read ≤ i
      → i < p.written
      → get_elem? s.written i ≡ some v
      → get_elem? s.slots (i % cap) ≡ some (record { content = some v; stamp = i + 1 })
  pub free :
      (i : ℕ)
      → p.written ≤ i
      → i < q.read + cap
      → (stamp : ℕ) × (stamp ≤ i + 1 - cap)
        × (get_elem? s.slots (i % cap) ≡ some (record { content = none; stamp = stamp }))
  pub fifo : s.read ≡ take q.read s.written

pub record Inv {T : Type 0} (cap : ℕ) (s : State T) (p : Push) (q : Pull) : Type 0 where
  pub knows : Knows cap s p q
  pub holds : Holds cap s p q
