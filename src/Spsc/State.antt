-- ===== src/Spsc/State.antt =====
-- The shared block of src/spsc.rs under the C++ memory model's release and acquire, and what one
-- access of either thread does to it. A location keeps every value that it has held; a load picks
-- one that is not older than what the thread has seen. Slots are plain memory: an access that the
-- other thread's last access of the slot does not happen before is a data race, and has no result.
use ultima_rings.Base.{
  ℕ, ◌+◌, max, Bool, true, false, ◌&&◌, Option, none, some, List, [], ◌∷◌, ◌++◌, ltb, leb,
  if◌then◌else◌, length, get_elem?, set, replicate,
}
use ultima_rings.Notify.Parker
use ultima_rings.Notify.Parker.{Parker}
pub use ultima_rings.Memory.{acquires, releases, Timeline, store}
use ultima_rings.Program.{End, consumer, producer}
use ultima_rings.Spsc.Defs.{
  Access, load_tail, load_head, load_disconnected, store_tail, store_head, store_disconnected,
  write_slot, read_slot, fence, wake, prepare_park, cancel, park, pause, apply, Reply,
}

-- A slot: `none` is uninitialized or moved out. `stamp` counts the slot accesses of the thread that
-- used the slot last, up to that one: the producer if the slot is full, otherwise the consumer.
pub record Slot (T : Type 0) : Type 0 where
  pub content : Option T
  pub stamp : ℕ

pub record State (T : Type 0) : Type 0 where
  pub slots : List (Slot T)
  pub tail : Timeline
  pub head : Timeline
  pub disconnected : Bool
  pub tail_at_close : ℕ  -- the version of `tail` when the sender stored `disconnected`
  pub consumer_parker : Parker
  pub producer_parker : Parker
  -- what the producer has seen of `head`, and how many slot reads happen before its next step
  pub seen_head : ℕ
  pub known_reads : ℕ
  -- what the consumer has seen of `tail`, and how many slot writes happen before its next step
  pub seen_tail : ℕ
  pub known_writes : ℕ
  -- the values written to slots and those read from slots, in order
  pub written : List T
  pub read : List T
  -- the values passed to the closure of `drain`, in order
  pub given : List T

abbrev pub thread_of : End → ℕ
thread_of consumer = 0
thread_of producer = 1

module _ {T : Type 0} where
  -- The parkers' own accesses, which both threads make. The consumer is thread 0, the producer 1.
  abbrev pub on_parker : End → (Parker → Parker) → State T → State T
  on_parker consumer f s = record s { consumer_parker = f s.consumer_parker }
  on_parker producer f s = record s { producer_parker = f s.producer_parker }

  -- A write into the slot at `i`: a value that is still there would leak.
  abbrev pub write_into : State T → ℕ → T → Option (Slot T) → Option (Unit {0} × State T)
  write_into s i v none = none
  write_into s i v (some slot) = elim slot.content [
    | some _ ↦ none
    | none ↦
        if leb slot.stamp s.known_reads
        then some (
          tt,
          record s {
            slots = set s.slots i (record { content = some v; stamp = length s.written + 1 });
            written = s.written ++ (v ∷ []);
          },
        )
        else none
  ]

  -- A read moves the value out of the slot at `i`.
  abbrev pub read_from : State T → ℕ → Option (Slot T) → Option (T × State T)
  read_from s i none = none
  read_from s i (some slot) = elim slot.content [
    | none ↦ none
    | some v ↦
        if leb slot.stamp s.known_writes
        then some (
          v,
          record s {
            slots = set s.slots i (record { content = none; stamp = length s.read + 1 });
            read = s.read ++ (v ∷ []);
          },
        )
        else none
  ]

  -- One access of the producer. `choice` is the version that a load reads; for the flag, 0 is a
  -- stale false. `none` is a race, a leak, an access out of bounds, a version that cannot be read,
  -- or an access that no method of `Sender` makes.
  unfoldable pub producer_access : ℕ → State T → (c : Access T) → Option (Reply c × State T)
  producer_access choice s (load_head o) =
      if leb s.seen_head choice && leb choice s.head.latest
      then some (
        s.head.value choice,
        record s {
          seen_head = choice;
          known_reads =
              if acquires o then max s.known_reads (s.head.clock choice) else s.known_reads;
        },
      )
      else none
  producer_access choice s (load_disconnected o) = some (s.disconnected && ltb 0 choice, s)
  producer_access choice s (store_tail o x) =
      some (tt, record s { tail = store s.tail x (if releases o then length s.written else 0) })
  producer_access choice s (store_disconnected o) = some (
    tt,
    record s {
      disconnected = true;
      tail_at_close = if releases o then s.tail.latest else s.tail_at_close;
    },
  )
  producer_access choice s (write_slot i v) = write_into s i v (get_elem? s.slots i)
  producer_access choice s (fence _) = some (tt, s)
  producer_access choice s (pause _) = some (tt, s)
  producer_access choice s (wake e) = some (tt, on_parker e (λ p. (Parker.wake p).0) s)
  producer_access choice s (prepare_park e) =
      some (tt, on_parker e (Parker.prepare_park (thread_of producer)) s)
  producer_access choice s (cancel e) = some (tt, on_parker e Parker.cancel s)
  producer_access choice s (park e) = some (tt, on_parker e Parker.unparked s)
  producer_access choice s _ = none

  -- One access of the consumer. A choice of 0 at the closure of `drain` is an unwinding.
  unfoldable pub consumer_access : ℕ → State T → (c : Access T) → Option (Reply c × State T)
  consumer_access choice s (load_tail o) =
      if leb s.seen_tail choice && leb choice s.tail.latest
      then some (
        s.tail.value choice,
        record s {
          seen_tail = choice;
          known_writes =
              if acquires o then max s.known_writes (s.tail.clock choice) else s.known_writes;
        },
      )
      else none
  consumer_access choice s (load_disconnected o) =
      if s.disconnected && ltb 0 choice
      then some (
        true,
        if acquires o
            then record s {
              seen_tail = max s.seen_tail s.tail_at_close;
              known_writes = max s.known_writes (s.tail.clock s.tail_at_close);
            }
            else s,
      )
      else some (false, s)
  consumer_access choice s (store_head o x) =
      some (tt, record s { head = store s.head x (if releases o then length s.read else 0) })
  consumer_access choice s (store_disconnected o) = some (tt, record s { disconnected = true })
  consumer_access choice s (read_slot i) = read_from s i (get_elem? s.slots i)
  consumer_access choice s (apply v) = some (ltb 0 choice, record s { given = s.given ++ (v ∷ []) })
  consumer_access choice s (fence _) = some (tt, s)
  consumer_access choice s (pause _) = some (tt, s)
  consumer_access choice s (wake e) = some (tt, on_parker e (λ p. (Parker.wake p).0) s)
  consumer_access choice s (prepare_park e) =
      some (tt, on_parker e (Parker.prepare_park (thread_of consumer)) s)
  consumer_access choice s (cancel e) = some (tt, on_parker e Parker.cancel s)
  consumer_access choice s (park e) = some (tt, on_parker e Parker.unparked s)
  consumer_access choice s _ = none

-- What `channel` puts into the shared block.
unfoldable pub fresh : {T : Type 0} → ℕ → State T
fresh cap = record {
  slots = replicate cap (record { content = none; stamp = 0 });
  tail = start;
  head = start;
  disconnected = false;
  tail_at_close = 0;
  consumer_parker = Parker.new;
  producer_parker = Parker.new;
  seen_head = 0;
  known_reads = 0;
  seen_tail = 0;
  known_writes = 0;
  written = [];
  read = [];
  given = [];
}
  where
    start : Timeline
    start = record { latest = 0; value = λ _. 0; clock = λ _. 0 }
