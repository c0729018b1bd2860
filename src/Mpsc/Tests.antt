-- ===== src/Mpsc/Tests.antt =====
-- Runs of src/mpsc.rs on a ring of two slots with two senders, and the theorems on them at the states
-- they end in.
use ultima_rings.Base.{
  ℕ, ◌≡◌, ◌≢◌, ◌≤◌, ◌<◌, ◌^◌, refl, List, [], ◌∷◌, ◌++◌, ◌+◌, length, get_elem?, arith, some,
}
use ultima_rings.Channel.{ok, err, TrySendError, TryRecvError}
use ultima_rings.Memory.{HasResult}
use ultima_rings.Wait.{WaitStrategy}
use ultima_rings.Mpsc.Config.{IsConfig}
use ultima_rings.Mpsc.Defs.{Config, Sender, write_slot, read_slot}
use ultima_rings.Mpsc.SenderOps.{try_send, send, clone, drop_sender}
use ultima_rings.Mpsc.ReceiverOps.{try_recv, recv, drain, drop_receiver}
use ultima_rings.Mpsc.State.{Slot, none_pending, producer_access, consumer_access}
use ultima_rings.Mpsc.System.{
  channel, config, System, SendThread, RecvCall, Reach, init, SendCall, try_sending, sending,
  cloning, try_receiving, receiving, draining,
}
use ultima_rings.Mpsc.Construct.{channel-Reach}
use ultima_rings.Mpsc.Delivery.{try_recv_delivers, recv_delivers, drain_delivers}
use ultima_rings.Mpsc.Inv.{Rising}
use ultima_rings.Mpsc.Progress.{UsesClaim, senders_progress, reader_progress}
use ultima_rings.Mpsc.Release.{drop_shared, drop_shared_rest}
use ultima_rings.Mpsc.Safety.{
  sender_order, reads_by_claim, writers_apart, reader_apart, senders_gone, try_send_publishes,
  send_publishes,
}
use ultima_rings.Mpsc.Schedule.{Turn, begin_send, begin_recv, sender, receiver, Run, run}

abbrev ring : Config
ring = record { mask = 1; cap = 2; shift = 1; strategy = WaitStrategy.busy_spin }

ring_is : IsConfig ring
ring_is = record { fits = omega arith; power = refl; ones = refl }

-- The first sender is cloned; each of the two has sent a value.
abbrev sent : List Turn
sent =
    begin_send 0 cloning
    ∷ sender 0 2
    ∷ begin_send 0 (try_sending 1 7)
    ∷ sender 0 6
    ∷ begin_send 1 (sending 2 1 8)
    ∷ sender 1 6
    ∷ []

abbrev received : List Turn
received = sent ++ (begin_recv try_receiving ∷ receiver 4 ∷ [])

-- Both senders have claimed a sequence, and are about to write.
abbrev writing : Run ring
writing = run ring (
    received
    ++ (begin_recv (receiving 1)
        ∷ receiver 4
        ∷ begin_send 0 (try_sending 1 9)
        ∷ sender 0 4
        ∷ begin_send 1 (try_sending 1 10)
        ∷ sender 1 4
        ∷ []))

-- The first sender is about to write a third value, and the receiver to read the second.
abbrev crossing : Run ring
crossing = run ring (
    received
    ++ (begin_send 0 (try_sending 1 9) ∷ sender 0 4 ∷ begin_recv try_receiving ∷ receiver 1 ∷ []))

abbrev closed : List Turn
closed =
    received
    ++ (begin_send 0 SendCall.dropping
        ∷ sender 0 4
        ∷ begin_send 1 SendCall.dropping
        ∷ sender 1 4
        ∷ [])

reads_by_claim_example :
    ((n : ℕ)
      → n < length crossing.last.state.read
      → get_elem? crossing.last.state.read n ≡ crossing.last.state.log n)
    × (1 ≤ 3)
    × (3 ≤ 1 + 2)
unfolding run try_send send clone try_recv recv drain drop_sender drop_receiver producer_access
    consumer_access init native.Mathlib.Decide.dec_lt
reads_by_claim_example = reads_by_claim ring_is crossing.reach

writers_apart_example : ◌≢◌ {A = ℕ} 0 1
unfolding run try_send send clone try_recv recv drain drop_sender drop_receiver producer_access
    consumer_access init native.Mathlib.Decide.dec_lt
writers_apart_example =
    writers_apart ring_is writing.reach 0 (try_sending 1 9) 1 0 9 _ 1 (try_sending 1 10) 1 1 10 _
      refl refl (λ e. omega (arith, e))

reader_apart_example : ◌≢◌ {A = ℕ} 0 1
unfolding run try_send send clone try_recv recv drain drop_sender drop_receiver producer_access
    consumer_access init native.Mathlib.Decide.dec_lt
reader_apart_example =
    reader_apart ring_is crossing.reach 0 (try_sending 1 9) 1 0 9 _ try_receiving 1 1 _ refl refl

senders_gone_example :
    ((run ring closed).last.state.pending 0 ≡ none_pending)
    × ((self : Sender) → (run ring closed).last.senders 0 ≢ SendThread.idle self)
unfolding run try_send send clone try_recv recv drain drop_sender drop_receiver producer_access
    consumer_access init native.Mathlib.Decide.dec_lt
senders_gone_example = senders_gone ring_is (run ring closed).reach refl 0

abbrev refused : Run ring
refused = run ring (sent ++ (begin_send 0 (try_sending 1 9) ∷ sender 0 3 ∷ []))

try_send_publishes_example : (◌≡◌ {A = ℕ} 9 9) × (length (refused.last.state.sent 0) ≡ 1)
unfolding run try_send send clone try_recv recv drain drop_sender drop_receiver producer_access
    consumer_access init native.Mathlib.Decide.dec_lt
try_send_publishes_example =
    try_send_publishes ring_is refused.reach 0 1 9 1 (record { cached_head = 0 })
      (some (err (TrySendError.full 9))) refl

abbrev sending_one : Run ring
sending_one = run ring (begin_send 0 (sending 2 1 8) ∷ sender 0 5 ∷ [])

send_publishes_example :
    (before : List (ℕ × ℕ)) × (seq : ℕ) × (length before ≡ 0)
    × (sending_one.last.state.sent 0 ≡ before ++ ((seq, 8) ∷ []))
    × (sending_one.last.state.log seq ≡ some 8)
unfolding run try_send send clone try_recv recv drain drop_sender drop_receiver producer_access
    consumer_access init native.Mathlib.Decide.dec_lt
send_publishes_example =
    send_publishes ring_is sending_one.reach 0 2 1 8 0 (record { cached_head = 0 }) (some (ok tt))
      refl

abbrev emptied : Run ring
emptied =
    run ring (
      closed
      ++ (begin_recv try_receiving ∷ receiver 4 ∷ begin_recv try_receiving ∷ receiver 3 ∷ []))

try_recv_delivers_example :
    (length emptied.last.state.read ≡ 2)
    × ((emptied.last.state.senders ≡ 0)
        × (length emptied.last.state.read ≡ emptied.last.state.claim))
unfolding run try_send send clone try_recv recv drain drop_sender drop_receiver producer_access
    consumer_access init native.Mathlib.Decide.dec_lt
try_recv_delivers_example =
    try_recv_delivers ring_is emptied.reach 2 (record { head = 2 }) (err TryRecvError.disconnected)
      refl

abbrev received_one : Run ring
received_one = run ring (received ++ (begin_recv (receiving 1) ∷ receiver 3 ∷ []))

recv_delivers_example :
    (before : List ℕ) × (length before ≡ 1) × (received_one.last.state.read ≡ before ++ (8 ∷ []))
unfolding run try_send send clone try_recv recv drain drop_sender drop_receiver producer_access
    consumer_access init native.Mathlib.Decide.dec_lt
recv_delivers_example =
    recv_delivers ring_is received_one.reach 1 1 (record { head = 2 }) (some (ok 8)) refl

abbrev drained : Run ring
drained = run ring (sent ++ (begin_recv (draining 5) ∷ receiver 8 ∷ []))

drain_delivers_example :
    (before handed moved : List ℕ) × (length before ≡ 0)
    × (drained.last.state.read ≡ before ++ moved)
    × (drained.last.state.given ≡ handed ++ moved)
    × (2 ≡ length drained.last.state.read)
    × ((2 ≡ length moved) × (2 ≤ 5))
unfolding run try_send send clone try_recv recv drain drop_sender drop_receiver producer_access
    consumer_access init native.Mathlib.Decide.dec_lt
drain_delivers_example =
    drain_delivers ring_is drained.reach 5 0 (record { head = 2 }) (some 2) refl

abbrev all_gone : Run ring
all_gone = run ring (closed ++ (begin_recv RecvCall.dropping ∷ receiver 4 ∷ []))

drop_shared_rest_example :
    (dropped : List ℕ) × (slots : List (Slot ℕ)) × (drop_shared ring 3 all_gone.last.state
      ≡ some (dropped, slots))
    × (1 + length dropped ≡ 2)
    × ((i : ℕ) → i < length dropped → get_elem? dropped i ≡ all_gone.last.state.log (1 + i))
unfolding run try_send send clone try_recv recv drain drop_sender drop_receiver producer_access
    consumer_access init native.Mathlib.Decide.dec_lt
drop_shared_rest_example = drop_shared_rest ring_is all_gone.reach 3 refl refl (omega arith)

channel-Reach_example :
    ((sh : Config) (y : System ℕ)
      → channel 4 WaitStrategy.park ≡ some (sh, y)
      → IsConfig sh × Reach sh y)
    × ((k : ℕ)
        → k < 64
        → 4 ≡ 2 ^ k
        → channel {T = ℕ} 4 WaitStrategy.park ≡ some (config 4 WaitStrategy.park, init 4))
channel-Reach_example = channel-Reach 4 WaitStrategy.park

senders_progress_example :
    ((choice : ℕ) × HasResult (producer_access 0 choice crossing.last.state (write_slot 0 9)))
    × UsesClaim 2 (crossing.last.state.pending 0) (write_slot 0 9)
unfolding run try_send send clone try_recv recv drain drop_sender drop_receiver producer_access
    consumer_access init native.Mathlib.Decide.dec_lt
senders_progress_example =
    senders_progress ring_is crossing.reach 0 (try_sending 1 9) 1 (write_slot 0 9) _ refl

reader_progress_example :
    (choice : ℕ) × HasResult (consumer_access choice crossing.last.state (read_slot 1))
unfolding run try_send send clone try_recv recv drain drop_sender drop_receiver producer_access
    consumer_access init native.Mathlib.Decide.dec_lt
reader_progress_example =
    reader_progress ring_is crossing.reach try_receiving 1 (read_slot 1) _ refl

sender_order_example :
    Rising 0 (crossing.last.state.sent 0) crossing.last.state.claim
    × ((i n v : ℕ)
        → get_elem? (crossing.last.state.sent 0) i ≡ some (n, v)
        → n < length crossing.last.state.read
        → get_elem? crossing.last.state.read n ≡ some v)
unfolding run try_send send clone try_recv recv drain drop_sender drop_receiver producer_access
    consumer_access init native.Mathlib.Decide.dec_lt
sender_order_example = sender_order ring_is crossing.reach 0
