-- ===== src/Mpsc/State.antt =====
-- The shared block of src/mpsc.rs under the C++ memory model's release and acquire, and what one
-- access of a thread does to it. The values of slots are plain memory: an access that another thread's
-- last access does not happen before is a data race, and has no result.
use ultima_rings.Base.{
  ℕ, ◌+◌, ◌-◌, max, Bool, true, false, ◌&&◌, Option, none, some, List, [], ◌∷◌, ◌++◌, ltb, leb,
  ◌==◌, if◌then◌else◌, length, get_elem?, set, replicate, update, add_usize, sub_usize, usize_max,
}
use ultima_rings.Channel.{ok, err}
use ultima_rings.Memory.{acquires, releases, Timeline, store}
use ultima_rings.Notify.Parker
use ultima_rings.Notify.Parker.{Parker}
use ultima_rings.Notify.WaiterList
use ultima_rings.Notify.WaiterList.{WaiterList}
use ultima_rings.Mpsc.Defs.{
  Access, load_claim, load_head, load_senders, load_rx_dropped, load_round, store_head, store_round,
  store_rx_dropped, compare_exchange_weak, fetch_add_senders, fetch_sub_senders, write_slot,
  read_slot, fence, wake_consumer, prepare_park, cancel, park, wake_producers, prepare_wait, wait,
  pause, apply, Reply,
}

-- A slot: `none` is uninitialized or moved out. `stamp` is the number of slot reads up to the last
-- read of this slot, `writes` the number of writes into it, `writer` the thread of the last write.
-- Version `i` of the round was stored after the first `clock i` writes into the slot.
pub record Slot (T : Type 0) : Type 0 where
  pub content : Option T
  pub stamp : ℕ
  pub writes : ℕ
  pub writer : ℕ
  pub rounds : Timeline

-- What a producer is about: a sequence that it has claimed, or that it has filled and has yet to
-- publish.
pub data Pending (T : Type 0) : Type 0 where
  none_pending : Pending T
  claiming : ℕ → Pending T
  filling : ℕ → T → Pending T

pub record State (T : Type 0) : Type 0 where
  pub slots : List (Slot T)
  pub claim : ℕ
  pub head : Timeline
  pub senders : ℕ
  pub chained : Bool  -- whether every decrement of `senders` was an acquire and a release
  pub rx_dropped : Bool
  pub consumer_parker : Parker
  pub prod_waiters : WaiterList
  -- for each producer: the slot reads that happen before its next step, what it is about, how many
  -- of the senders it holds, and the sequences that it has published with their values
  pub known_reads : ℕ → ℕ
  pub pending : ℕ → Pending T
  pub holds : ℕ → ℕ
  pub sent : ℕ → List (ℕ × T)
  -- for each slot: the version of its round that the consumer has seen, and the writes into it that
  -- happen before the consumer's next step
  pub seen_round : ℕ → ℕ
  pub known_writes : ℕ → ℕ
  -- the value written for each sequence, the values read from slots, in order, and those passed to
  -- the closure of `drain`
  pub log : ℕ → Option T
  pub read : List T
  pub given : List T

module _ {T : Type 0} where
  -- A write into the slot at `i` by the thread `me`. A value that is still there would leak, and a
  -- write by a thread that has claimed no sequence has no result.
  abbrev pub write_into :
      ℕ → State T → ℕ → T → Option (Slot T) → Pending T → Option (Unit {0} × State T)
  write_into me s i v none p = none
  write_into me s i v (some slot) none_pending = none
  write_into me s i v (some slot) (filling _ _) = none
  write_into me s i v (some slot) (claiming seq) = elim slot.content [
    | some _ ↦ none
    | none ↦
        if leb slot.stamp (s.known_reads me)
        then some (
          tt,
          record s {
            slots =
                set s.slots i
                  (record slot { content = some v; writes = slot.writes + 1; writer = me });
            pending = update s.pending me (filling seq v);
            log = update s.log seq (some v);
          },
        )
        else none
  ]

  -- A store of the round of the slot at `i`; it publishes what the thread has filled.
  abbrev pub publish_round :
      ℕ → State T → Bool → ℕ → ℕ → Option (Slot T) → Pending T → Option (Unit {0} × State T)
  publish_round me s rel i r none p = none
  publish_round me s rel i r (some slot) none_pending = none
  publish_round me s rel i r (some slot) (claiming _) = none
  publish_round me s rel i r (some slot) (filling seq v) = some (
    tt,
    record s {
      slots = set s.slots i (record slot {
        rounds = store slot.rounds r (if rel && slot.writer == me then slot.writes else 0);
      });
      pending = update s.pending me none_pending;
      sent = update s.sent me (s.sent me ++ ((seq, v) ∷ []));
    },
  )

  -- A read moves the value out of the slot at `i`.
  abbrev pub read_from : State T → ℕ → Option (Slot T) → Option (T × State T)
  read_from s i none = none
  read_from s i (some slot) = elim slot.content [
    | none ↦ none
    | some v ↦
        if leb slot.writes (s.known_writes i)
        then some (
          v,
          record s {
            slots = set s.slots i (record slot { content = none; stamp = length s.read + 1 });
            read = s.read ++ (v ∷ []);
          },
        )
        else none
  ]

  -- A load of the round of the slot at `i`.
  abbrev pub round_from : ℕ → State T → Bool → ℕ → Option (Slot T) → Option (ℕ × State T)
  round_from choice s acq i none = none
  round_from choice s acq i (some slot) =
      if leb (s.seen_round i) choice && leb choice slot.rounds.latest
      then some (
        slot.rounds.value choice,
        record s {
          seen_round = update s.seen_round i choice;
          known_writes =
              if acq
              then update s.known_writes i (max (s.known_writes i) (slot.rounds.clock choice))
              else s.known_writes;
        },
      )
      else none

  abbrev pub latest_round : Option (Slot T) → ℕ
  latest_round none = 0
  latest_round (some slot) = slot.rounds.latest

  -- One access of the producer `me`. `choice` is what a load reads: a value that `claim` had, a
  -- version of `head`, 0 for a stale flag. A compare-exchange fails if it reads a value that `claim`
  -- had, which may be the expected one, and else succeeds if `claim` is as expected.
  unfoldable pub producer_access : ℕ → ℕ → State T → (c : Access T) → Option (Reply c × State T)
  producer_access me choice s (load_claim o) = if leb choice s.claim then some (choice, s) else none
  producer_access me choice s (load_head o) =
      if leb choice s.head.latest
      then some (
        s.head.value choice,
        record s {
          known_reads =
              if acquires o
              then update s.known_reads me (max (s.known_reads me) (s.head.clock choice))
              else s.known_reads;
        },
      )
      else none
  producer_access me choice s (load_rx_dropped o) = some (s.rx_dropped && ltb 0 choice, s)
  producer_access me choice s (compare_exchange_weak o o' expected new) =
      if leb choice s.claim
      then some (err choice, s)
      else if s.claim == expected
      then some (ok tt, record s { claim = new; pending = update s.pending me (claiming expected) })
      else none
  producer_access me choice s (write_slot i v) =
      write_into me s i v (get_elem? s.slots i) (s.pending me)
  producer_access me choice s (store_round o i r) =
      publish_round me s (releases o) i r (get_elem? s.slots i) (s.pending me)
  producer_access me choice s (fetch_add_senders o) =
      some (
        tt,
        record s { senders = add_usize s.senders 1; holds = update s.holds me (s.holds me + 1) },
      )
  producer_access me choice s (fetch_sub_senders o) = some (
    s.senders,
    record s {
      senders = sub_usize s.senders 1;
      chained = s.chained && (acquires o && releases o);
      holds = update s.holds me (s.holds me - 1);
    },
  )
  producer_access me choice s (fence _) = some (tt, s)
  producer_access me choice s (pause _) = some (tt, s)
  producer_access me choice s wait = some (tt, s)
  producer_access me choice s wake_consumer =
      some (tt, record s { consumer_parker = (Parker.wake s.consumer_parker).0 })
  producer_access me choice s prepare_wait =
      some (tt, record s { prod_waiters = WaiterList.prepare_wait me s.prod_waiters })
  producer_access me choice s _ = none

  -- One access of the consumer. A load of `senders` that reads 0 comes after every decrement, and so
  -- after all that the senders did if each decrement was an acquire and a release; it may read any
  -- other number. A choice of 0 at the closure of `drain` is an unwinding.
  unfoldable pub consumer_access : ℕ → State T → (c : Access T) → Option (Reply c × State T)
  consumer_access choice s (load_round o i) =
      round_from choice s (acquires o) i (get_elem? s.slots i)
  consumer_access choice s (load_senders o) =
      if ltb 0 choice
      then some (choice, s)
      else if s.senders == 0
      then some (
        0,
        if acquires o && s.chained
            then record s { seen_round = λ i. latest_round (get_elem? s.slots i) }
            else s,
      )
      else none
  consumer_access choice s (read_slot i) = read_from s i (get_elem? s.slots i)
  consumer_access choice s (store_head o x) =
      some (tt, record s { head = store s.head x (if releases o then length s.read else 0) })
  consumer_access choice s (store_rx_dropped o) = some (tt, record s { rx_dropped = true })
  consumer_access choice s (apply v) = some (ltb 0 choice, record s { given = s.given ++ (v ∷ []) })
  consumer_access choice s (fence _) = some (tt, s)
  consumer_access choice s (pause _) = some (tt, s)
  consumer_access choice s park =
      some (tt, record s { consumer_parker = Parker.unparked s.consumer_parker })
  consumer_access choice s prepare_park =
      some (tt, record s { consumer_parker = Parker.prepare_park 0 s.consumer_parker })
  consumer_access choice s cancel =
      some (tt, record s { consumer_parker = Parker.cancel s.consumer_parker })
  consumer_access choice s wake_producers =
      some (tt, record s { prod_waiters = (WaiterList.wake_all s.prod_waiters).0 })
  consumer_access choice s _ = none

-- What `channel` puts into the shared block; the first sender is the producer 0.
unfoldable pub fresh : {T : Type 0} → ℕ → State T
fresh {T} cap = record {
  slots = replicate cap (record {
    content = none;
    stamp = 0;
    writes = 0;
    writer = 0;
    rounds = record { latest = 0; value = λ _. usize_max; clock = λ _. 0 };
  });
  claim = 0;
  head = record { latest = 0; value = λ _. 0; clock = λ _. 0 };
  senders = 1;
  chained = true;
  rx_dropped = false;
  consumer_parker = Parker.new;
  prod_waiters = WaiterList.new;
  known_reads = λ _. 0;
  pending = λ _. none_pending;
  holds = λ i. if i == 0 then 1 else 0;
  sent = λ _. [];
  seen_round = λ _. 0;
  known_writes = λ _. 0;
  log = λ _. none;
  read = [];
  given = [];
}
