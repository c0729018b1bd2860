-- ===== src/Spsc/Tests.antt =====
-- Runs of src/spsc.rs on a ring of two slots, and the theorems on them at the states they end in.
use ultima_rings.Base.{
  ℕ, ◌≡◌, ◌≢◌, ◌≤◌, ◌<◌, ◌^◌, refl, List, [], ◌∷◌, ◌++◌, ◌+◌, length, arith, some, none,
}
use ultima_rings.Channel.{ok, err, TrySendError, TryRecvError}
use ultima_rings.Memory.{HasResult}
use ultima_rings.Wait.{WaitStrategy}
use ultima_rings.Spsc.Config.{IsConfig}
use ultima_rings.Spsc.Defs.{Config, write_slot, read_slot}
use ultima_rings.Spsc.Ops.{try_send, send, try_recv, recv, drain, hang_up}
use ultima_rings.Spsc.State.{Slot, producer_access, consumer_access}
use ultima_rings.Spsc.System.{
  channel, config, System, Step, Reach, init, SendCall, RecvCall, try_sending, sending,
  try_receiving, receiving, draining,
}
use ultima_rings.Spsc.Construct.{channel_outcome}
use ultima_rings.Spsc.Refine.{QueueStep, queue_refinement}
use ultima_rings.Spsc.Release.{drop_shared, drop_shared_outcome}
use ultima_rings.Program.Bounded.{Within}
use ultima_rings.Spsc.Bounded.{accesses_bounded}
use ultima_rings.Spsc.Schedule.{Turn, begin_send, begin_recv, sender, receiver, Run, run}
use ultima_rings.Spsc.Safety.{
  reads_in_order, slots_apart, try_send_outcome, try_recv_outcome, send_outcome, recv_outcome,
  drain_outcome,
}
use ultima_rings.Spsc.Progress.{sender_progress, receiver_progress}

abbrev ring : Config
ring = record { mask = 1; cap = 2; strategy = WaitStrategy.busy_spin }

ring_is : IsConfig ring
ring_is = record { exponent = 1; fits = omega arith; power = refl; ones = refl }

-- Two values are in the ring, and the sender is gone.
abbrev sent : List Turn
sent = begin_send (try_sending 7) ∷ sender 4 ∷ begin_send (sending 2 8) ∷ sender 4 ∷ []

abbrev closed : List Turn
closed = sent ++ (begin_send SendCall.dropping ∷ sender 5 ∷ [])

-- The first value has been received, the sender is about to write a third and the receiver to read
-- the second.
abbrev crossing : List Turn
crossing =
    sent
    ++ (begin_recv try_receiving
        ∷ receiver 4
        ∷ begin_send (try_sending 9)
        ∷ sender 2
        ∷ begin_recv try_receiving
        ∷ [])

reads_in_order_example : (rest : List ℕ) × (7 ∷ 8 ∷ [] ≡ 7 ∷ rest) × (length rest ≤ 2)
unfolding run try_send send try_recv producer_access consumer_access init
reads_in_order_example = reads_in_order ring_is (run ring crossing).reach

slots_apart_example : ◌≢◌ {A = ℕ} 0 1
unfolding run try_send send try_recv producer_access consumer_access init
slots_apart_example =
    slots_apart ring_is (run ring crossing).reach (try_sending 9) 2 0 9 _ try_receiving 1 1 _ refl
      refl

abbrev refused : Run ring
refused = run ring (sent ++ (begin_send (try_sending 9) ∷ sender 2 ∷ []))

try_send_outcome_example :
    (◌≡◌ {A = ℕ} 9 9)
    × (length refused.last.state.written ≡ 2)
    × (length refused.last.state.written ≡ refused.last.state.known_reads + 2)
unfolding run try_send send producer_access init
try_send_outcome_example =
    try_send_outcome ring_is refused.reach 9 2 (record { tail = 2; cached_head = 0 })
      (err (TrySendError.full 9)) refl

abbrev emptied : Run ring
emptied =
    run ring (
      closed ++ (begin_recv (draining 5) ∷ receiver 8 ∷ begin_recv try_receiving ∷ receiver 3 ∷ []))

try_recv_outcome_example :
    (length emptied.last.state.read ≡ 2) × (emptied.last.state.read ≡ emptied.last.state.written)
unfolding run try_send send try_recv drain hang_up producer_access consumer_access init
try_recv_outcome_example =
    try_recv_outcome ring_is emptied.reach 2 (record { head = 2; cached_tail = 2 })
      (err TryRecvError.disconnected) refl

abbrev waiting : Run ring
waiting = run ring (sent ++ (begin_send (sending 1 9) ∷ sender 3 ∷ []))

send_outcome_example : length waiting.last.state.written ≡ 2
unfolding run try_send send producer_access init
send_outcome_example =
    send_outcome ring_is waiting.reach 1 9 2 (record { tail = 2; cached_head = 0 }) none refl

abbrev received : Run ring
received = run ring (sent ++ (begin_recv (receiving 3) ∷ receiver 3 ∷ []))

recv_outcome_example :
    (before : List ℕ) × (length before ≡ 0) × (received.last.state.read ≡ before ++ (7 ∷ []))
unfolding run try_send send recv producer_access consumer_access init
recv_outcome_example =
    recv_outcome ring_is received.reach 3 0 (record { head = 1; cached_tail = 2 }) (some (ok 7))
      refl

abbrev drained : Run ring
drained = run ring (sent ++ (begin_recv (draining 5) ∷ receiver 7 ∷ []))

drain_outcome_example :
    (before handed moved : List ℕ) × (length before ≡ 0)
    × (drained.last.state.read ≡ before ++ moved)
    × (drained.last.state.given ≡ handed ++ moved)
    × (2 ≡ length drained.last.state.read)
    × ((2 ≡ length moved)
        × (2 ≤ 5)
        × (2 < 5 → length drained.last.state.read ≡ drained.last.state.known_writes))
unfolding run try_send send drain producer_access consumer_access init
drain_outcome_example =
    drain_outcome ring_is drained.reach 5 0 (record { head = 2; cached_tail = 2 }) (some 2) refl

sender_progress_example :
    HasResult (producer_access 1 (run ring crossing).last.state (write_slot 0 9))
unfolding run try_send send try_recv producer_access consumer_access init
sender_progress_example =
    sender_progress ring_is (run ring crossing).reach (try_sending 9) 2 (write_slot 0 9) _ refl

receiver_progress_example :
    HasResult (consumer_access 2 (run ring crossing).last.state (read_slot 1))
unfolding run try_send send try_recv producer_access consumer_access init
receiver_progress_example =
    receiver_progress ring_is (run ring crossing).reach try_receiving 1 (read_slot 1) _ refl

abbrev abandoned : Run ring
abandoned = run ring (
    closed
    ++ (begin_recv try_receiving ∷ receiver 4 ∷ begin_recv RecvCall.dropping ∷ receiver 5 ∷ []))

drop_shared_outcome_example :
    (rest : List ℕ) × (slots : List (Slot ℕ)) × (abandoned.last.state.written
      ≡ abandoned.last.state.read ++ rest)
    × (drop_shared ring abandoned.last.state ≡ some (rest, slots))
unfolding run try_send send try_recv hang_up producer_access consumer_access init
drop_shared_outcome_example = drop_shared_outcome ring_is abandoned.reach refl refl (omega arith)

channel_outcome_example :
    ((sh : Config) (y : System ℕ)
      → channel 4 WaitStrategy.park ≡ some (sh, y)
      → IsConfig sh × Reach sh y)
    × ((k : ℕ)
        → k < 64
        → 4 ≡ 2 ^ k
        → channel {T = ℕ} 4 WaitStrategy.park ≡ some (config 4 WaitStrategy.park, init 4))
channel_outcome_example = channel_outcome 4 WaitStrategy.park

-- The receiver takes the last value.
queue_refinement_example : QueueStep {T = ℕ} 2 (8 ∷ []) []
unfolding run try_send send try_recv producer_access consumer_access init
queue_refinement_example =
    queue_refinement ring_is (run ring crossing).reach
      (Step.access_recv try_receiving 1 (read_slot 1) _ 2 8 _ refl refl refl)

accesses_bounded_example :
    Within 6 (try_send {T = ℕ} ring (record { tail = 2; cached_head = 0 }) 9)
    × Within 7 (try_recv {T = ℕ} ring (record { head = 0; cached_tail = 0 }))
    × Within 9 (drain {T = ℕ} ring (record { head = 0; cached_tail = 0 }) 2)
    × Within 4 (hang_up {T = ℕ})
accesses_bounded_example =
    accesses_bounded ℕ ring (record { tail = 2; cached_head = 0 }) 9
      (record { head = 0; cached_tail = 0 }) 2
