-- ===== src/Sharded/Delivery/Tests.antt =====
-- Runs of two producers and the consumer of src/sharded.rs.
use ultima_rings.Base.{ℕ, ◌<◌, ◌≡◌, refl, List, [], ◌∷◌, ◌++◌, arith, true}
use ultima_rings.Channel.{ok, err, RecvError}
use ultima_rings.Wait.{WaitStrategy}
use ultima_rings.Spsc.Config.{IsConfig}
use ultima_rings.Spsc.Defs.{Config}
use ultima_rings.Spsc.Ops
use ultima_rings.Spsc.State.{producer_access, consumer_access}
use ultima_rings.Spsc.System
use ultima_rings.Sharded
use ultima_rings.Sharded.{Receiver, returned, sweep, advance, recv, recv_loop, wait_for_item}
use ultima_rings.Sharded.Delivery.{sharded_try_recv_outcome, sharded_recv_outcome, shard_in_bounds}
use ultima_rings.Sharded.Schedule.{Turn, sends, drops, sender, calls, consumer, Run, run}
use ultima_rings.Sharded.Threads
use ultima_rings.Sharded.Threads.{RecvCall, Consumer, recv_code}

abbrev ring : Config
ring = record { mask = 1; cap = 2; strategy = WaitStrategy.busy_spin }

ring_is : IsConfig ring
ring_is = record { exponent = 1; fits = omega arith; power = refl; ones = refl }

-- The producer of the second of two shards has sent a value, and the consumer has found the first
-- shard empty; then it is about to return the value.
abbrev looking : List Turn
looking = sends 1 5 ∷ sender 1 4 ∷ calls RecvCall.try_receiving ∷ consumer 6 ∷ []

abbrev delivered : Run 2 ring
unfolding run Threads.init recv_code Sharded.try_recv sweep advance Sharded.try_send Ops.try_send
    Ops.try_recv producer_access consumer_access System.init
delivered = run 2 ring (looking ++ (consumer 3 ∷ []))

-- The consumer has received a value from each shard, both producers are gone, and a `recv` is about to fail.
abbrev closed : Run 2 ring
unfolding run Threads.init recv_code recv recv_loop wait_for_item Sharded.try_recv sweep advance
    Sharded.try_send Ops.try_send Ops.try_recv Ops.hang_up producer_access consumer_access
    System.init
closed = run 2 ring (
    sends 0 7
    ∷ sender 0 4
    ∷ calls RecvCall.try_receiving
    ∷ consumer 6
    ∷ sends 1 8
    ∷ sender 1 4
    ∷ calls RecvCall.try_receiving
    ∷ consumer 10
    ∷ drops 0
    ∷ sender 0 5
    ∷ drops 1
    ∷ sender 1 5
    ∷ calls (RecvCall.receiving 2)
    ∷ consumer 10
    ∷ [])

sharded_try_recv_outcome_example : (◌<◌ 1 2) × (before : List ℕ) × (5 ∷ [] ≡ before ++ (5 ∷ []))
unfolding run Threads.init recv_code Sharded.try_recv sweep advance Sharded.try_send Ops.try_send
    Ops.try_recv producer_access consumer_access System.init
sharded_try_recv_outcome_example =
    sharded_try_recv_outcome ring_is (omega arith) refl delivered.reach _ (ok 5) refl

sharded_recv_outcome_example :
    ((closed.last.shards 1).state.disconnected ≡ true)
    × ((closed.last.shards 1).state.read ≡ (closed.last.shards 1).state.written)
unfolding run Threads.init recv_code recv recv_loop wait_for_item Sharded.try_recv sweep advance
    Sharded.try_send Ops.try_send Ops.try_recv Ops.hang_up producer_access consumer_access
    System.init
sharded_recv_outcome_example =
    sharded_recv_outcome ring_is (omega arith) refl closed.reach 2 _
      (returned (err RecvError.recv_error)) refl 1 (omega arith)

shard_in_bounds_example : ◌<◌ 1 2
unfolding run Threads.init recv_code Sharded.try_recv sweep advance Sharded.try_send Ops.try_send
    Ops.try_recv producer_access consumer_access System.init
shard_in_bounds_example =
    shard_in_bounds ring_is (omega arith) refl (run 2 ring looking).reach RecvCall.try_receiving _ 1
      refl refl
