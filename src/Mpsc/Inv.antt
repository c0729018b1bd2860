-- ===== src/Mpsc/Inv.antt =====
-- The invariant of a ring of src/mpsc.rs in the middle of its threads' operations. Every sequence has
-- a phase, which the slots, the producers' pending work and the consumer's cursor agree with.
pub mod Claim
pub mod Own
pub mod Look
pub mod Consumer
pub mod Take
pub mod Order
pub mod Moved
pub mod Fill
pub mod Know
pub mod Producer
use ultima_rings.Base.{
  ℕ, zero, suc, ◌+◌, ◌-◌, ◌/◌, ◌%◌, ◌≤◌, ◌<◌, ◌≡◌, ◌≢◌, Bool, true, Option, none, some, List, [],
  ◌∷◌, length, get_elem?, usize_max, usize_mod, total,
}
use ultima_rings.Memory.{Timeline}
use ultima_rings.Mpsc.Rules.{Push, Pull}
use ultima_rings.Mpsc.State.{State, Slot, Pending, none_pending, claiming, filling, latest_round}

pub data Phase (T : Type 0) : Type 0 where
  unclaimed : Phase T
  claimed : ℕ → Phase T
  filled : ℕ → T → Phase T
  published : T → Phase T

-- Version `v + 1` of a slot's round is `v`, and released the first `v + 1` writes into the slot.
pub record Rounds (l : Timeline) : Type 0 where
  pub initial : l.value 0 ≡ usize_max
  pub values : (v : ℕ) → v < l.latest → (l.value (suc v) ≡ v) × (l.clock (suc v) ≡ suc v)

-- The counters, and what the producers know of them.
pub record Counters (cap claim : ℕ) (head : Timeline) (known : ℕ → ℕ) (read released : ℕ)
    : Type 0 where
  pub small : claim ≤ usize_max
  pub versions :
      (i : ℕ) → i ≤ head.latest → (head.value i ≡ head.clock i) × (head.clock i ≤ released)
  pub last : head.value head.latest ≡ released
  pub behind : released ≤ read
  pub order : read ≤ claim
  pub room : claim ≤ released + cap
  pub knows : (i : ℕ) → known i ≤ released

-- The part of the state that the invariant is about.
pub record Ring (T : Type 0) : Type 0 where
  pub slots : List (Slot T)
  pub claim : ℕ
  pub head : Timeline
  pub senders : ℕ
  pub chained : Bool
  pub known_reads : ℕ → ℕ
  pub pending : ℕ → Pending T
  pub holds : ℕ → ℕ
  pub sent : ℕ → List (ℕ × T)
  pub seen_round : ℕ → ℕ
  pub known_writes : ℕ → ℕ
  pub log : ℕ → Option T
  pub read : List T

abbrev pub ring_of : {T : Type 0} → State T → Ring T
ring_of s = record {
  slots = s.slots;
  claim = s.claim;
  head = s.head;
  senders = s.senders;
  chained = s.chained;
  known_reads = s.known_reads;
  pending = s.pending;
  holds = s.holds;
  sent = s.sent;
  seen_round = s.seen_round;
  known_writes = s.known_writes;
  log = s.log;
  read = s.read;
}

module _ {T : Type 0} where
  -- What the slot of the sequence `n` holds in a phase.
  abbrev pub Holds : ℕ → ℕ → Phase T → Slot T → Type 0
  Holds cap n unclaimed slot =
      (slot.content ≡ none)
      × (slot.stamp ≤ n + 1 - cap)
      × (slot.rounds.latest ≡ n / cap)
      × (slot.writes ≡ n / cap)
  Holds cap n (claimed i) slot =
      (slot.content ≡ none)
      × (slot.stamp ≤ n + 1 - cap)
      × (slot.rounds.latest ≡ n / cap)
      × (slot.writes ≡ n / cap)
  Holds cap n (filled i v) slot =
      (slot.content ≡ some v)
      × (slot.writer ≡ i)
      × (slot.rounds.latest ≡ n / cap)
      × (slot.writes ≡ suc (n / cap))
  Holds cap n (published v) slot =
      (slot.content ≡ some v) × (slot.rounds.latest ≡ suc (n / cap)) × (slot.writes ≡ suc (n / cap))

  pub record SlotAt (cap : ℕ) (slots : List (Slot T)) (seen : ℕ → ℕ) (n : ℕ) (phase : Phase T)
      : Type 0 where
    pub slot : Slot T
    pub here : get_elem? slots (n % cap) ≡ some slot
    pub rounds : Rounds slot.rounds
    pub seen_ge : n / cap ≤ seen (n % cap)
    pub seen_le : seen (n % cap) ≤ slot.rounds.latest
    pub holds : Holds cap n phase slot

  -- The slots of a capacity of sequences, from the next to be read on.
  abbrev pub Window : ℕ → List (Slot T) → (ℕ → ℕ) → ℕ → (ℕ → Phase T) → Type 0
  Window cap slots seen read phase =
      (n : ℕ) → read ≤ n → n < read + cap → SlotAt cap slots seen n (phase n)

  -- The phases against the counters and the producers' pending work.
  pub record Owners (cap claim read : ℕ) (known : ℕ → ℕ) (pending : ℕ → Pending T)
      (phase : ℕ → Phase T) : Type 0 where
    pub ahead : (n : ℕ) → claim ≤ n → phase n ≡ unclaimed
    pub taken : (n : ℕ) → n < claim → phase n ≢ unclaimed
    pub done : (n : ℕ) → n < read → (v : T) × (phase n ≡ published v)
    pub claims : (i n : ℕ) → pending i ≡ claiming n → (phase n ≡ claimed i) × (n < known i + cap)
    pub fills : (i n : ℕ) (v : T) → pending i ≡ filling n v → phase n ≡ filled i v
    pub claimed_own : (i n : ℕ) → phase n ≡ claimed i → pending i ≡ claiming n
    pub filled_own : (i n : ℕ) (v : T) → phase n ≡ filled i v → pending i ≡ filling n v

  -- The histories against the phases.
  pub record Logs (phase : ℕ → Phase T) (log : ℕ → Option T) (read : ℕ) (values : List T)
      : Type 0 where
    pub count : read ≡ length values
    pub logged : (n : ℕ) (v : T) → phase n ≡ published v → log n ≡ some v
    pub logging : (i n : ℕ) (v : T) → phase n ≡ filled i v → log n ≡ some v
    pub fifo : (n : ℕ) → n < read → get_elem? values n ≡ log n

  -- What a producer has sent is published.
  abbrev pub Published : (ℕ → Phase T) → List (ℕ × T) → Type 0
  Published phase [] = Unit {0}
  Published phase ((n, v) ∷ l) = (phase n ≡ published v) × Published phase l

  -- What a producer has sent is in the order of the sequences, from one bound up to another.
  abbrev pub Rising : ℕ → List (ℕ × T) → ℕ → Type 0
  Rising low [] high = low ≤ high
  Rising low ((n, v) ∷ l) high = (low ≤ n) × Rising (suc n) l high

  -- The next sequence that a producer may publish is not below this one.
  abbrev pub floor : ℕ → Pending T → ℕ
  floor claim none_pending = claim
  floor claim (claiming n) = n
  floor claim (filling n _) = n

  -- The count of senders is what the producers hold, and one that holds none has nothing pending.
  pub record Holders (handles senders : ℕ) (chained : Bool) (holds : ℕ → ℕ)
      (pending : ℕ → Pending T) : Type 0 where
    pub count : senders ≡ total handles holds
    pub few : (i : ℕ) → holds i ≤ 2
    pub beyond : (i : ℕ) → handles ≤ i → holds i ≡ 0
    pub idle : (i : ℕ) → holds i ≡ 0 → pending i ≡ none_pending
    pub chain : chained ≡ true

  -- What the consumer knows.
  pub record Certain (cap : ℕ) (s : Ring T) (q : Pull) (phase : ℕ → Phase T) : Type 0 where
    pub available :
        q.available ≡ true
        → (v : T) × (phase q.read ≡ published v)
          × (suc (q.read / cap) ≤ s.seen_round (q.read % cap))
          × (suc (q.read / cap) ≤ s.known_writes (q.read % cap))
    pub complete :
        q.complete ≡ true
        → (s.senders ≡ 0)
          × (q.all ≡ s.claim)
          × ((j : ℕ) → s.seen_round j ≡ latest_round (get_elem? s.slots j))

  pub record Good (cap handles : ℕ) (s : Ring T) (q : Pull) : Type 0 where
    pub phase : ℕ → Phase T
    pub size : length s.slots ≡ cap
    pub counters : Counters cap s.claim s.head s.known_reads q.read q.released
    pub owners : Owners cap s.claim q.read s.known_reads s.pending phase
    pub window : Window cap s.slots s.seen_round q.read phase
    pub logs : Logs phase s.log q.read s.read
    pub sent : (i : ℕ) → Published phase (s.sent i)
    pub rising : (i : ℕ) → Rising 0 (s.sent i) (floor s.claim (s.pending i))
    pub holders : Holders handles s.senders s.chained s.holds s.pending
    pub certain : Certain cap s q phase

  abbrev pub Inv : ℕ → ℕ → State T → Pull → Type 0
  Inv cap handles s q = Good cap handles (ring_of s) q

  abbrev pub push_of : State T → ℕ → Push T
  push_of s i = record { known = s.known_reads i; pending = s.pending i; live = s.holds i }
