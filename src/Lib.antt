-- ===== src/Lib.antt =====
-- Bounded lock-free rings of Rust: the crate ultima_rings. A channel has a ring of slots, one
-- receiver, and one sender (spsc.rs), many senders (mpsc.rs) or one sender for each of many rings
-- (sharded.rs). Both sides block by a wait strategy (wait.rs), which may park a thread on a parker
-- (notify.rs).
--
-- Files:
--   Base            shared names; the arithmetic of `usize` (Base/Usize), `seq & mask` as a
--                   remainder (Base/Bits, Base/Capacity), lists (Base/Seq, Base/Lists)
--   Channel         src/lib.rs: the errors of both sides, their messages, `assert_cap`
--   Wait            src/wait.rs: `WaitStrategy`, the idle ladder; its closed form in Wait/Ladder
--   Notify          src/notify.rs: Notify/Parker and Notify/WaiterList, each method one step;
--                   Notify/Park: the methods of `Parker` access by access, with a waiter and any
--                   number of wakers on threads of their own (Memory, System), how far each has come
--                   (Rules), the invariant and what each access does to it (Inv and the modules
--                   below it), for every reachable state (Sound); runs for the tests in Schedule
--   Memory          src/atomic.rs: release and acquire, and an atomic that keeps all its values
--   Program         an operation as a tree of its accesses to shared state; trees of bounded depth
--                   in Program/Bounded
--   Spsc            src/spsc.rs: the handles and the accesses (Spsc/Defs), the methods (Spsc/Ops),
--                   the memory (Spsc/State), two threads (Spsc/System), the constructor
--                   (Spsc/Construct); the rules that the methods follow (Spsc/Rules, and what each
--                   method does by them in Sends, Receives, Drains, Blocks), the invariant of the
--                   memory that the rules keep (Spsc/Inv), both together for every reachable
--                   state (Spsc/Sound), and the theorems (Spsc/Safety, Spsc/Progress, Spsc/Refine for the
--                   ring as a bounded queue, Spsc/Bounded for the number of accesses); runs of two threads for the tests
--                   (Spsc/Schedule); the `Drop` of the shared block (Spsc/Release)
--   Mpsc            src/mpsc.rs, in the same way: Mpsc/Defs, the methods of the sender in SenderOps
--                   and of the receiver in ReceiverOps, the memory in State, the threads in System;
--                   Rules, and what each method does by them in Sends, Blocks, Receives, Drains,
--                   Waits; the invariant in Inv (its lemmas by access in the modules below it),
--                   for every reachable state in Sound and Reachable; the theorems in Safety,
--                   Delivery, Progress, Construct, and Release for the `Drop` of the shared block;
--                   runs of the threads for the tests in Schedule
--   Sharded         src/sharded.rs: the constructor, the senders' methods, and the consumer's methods
--                   over calls of the shards' receivers; the sweep of `try_recv` in Sharded/Sweep,
--                   `drain` in Sharded/Batch, the constructor's checks in Sharded/Construct. All
--                   producers and the consumer on threads of their own over rings of src/spsc.rs in
--                   Sharded/Threads; what the consumer knows of the shards as a rule on its programs
--                   in Visits, what a shard keeps while the consumer is elsewhere in Stay, both
--                   together for every reachable state in Sound, the theorems in Delivery, runs for
--                   the tests in Schedule
--
-- How the model corresponds to src/spsc.rs. `Shared` is split into the fields that never change
-- (`Config`) and the others (`State`). A method is a tree of its accesses to `Shared`, to the parkers
-- and to the caller's closure, in program order and with the memory orderings of the source. The
-- fields of a handle are passed and returned; `drain` returns the receiver even if it unwinds.
-- `Arc` and the cache padding have no part in it. `try_send` is `publish` after its tests, `try_recv`
-- is `take_slot` after its tests; the match on the strategy in `send` and `recv` is `wait_for_space`
-- and `wait_for_item`. Both `Drop` implementations of the handles are the same code, `hang_up`.
--
-- Memory. `head` and `tail` have one writer each and keep all their values; a load returns any value
-- that is not older than what the thread has seen, an acquiring load of a releasing store makes the
-- accesses before the store happen before those after the load. A load of the disconnect flag may be
-- stale. Slots are plain memory: an access that races with the other thread's last access of the
-- slot, is out of bounds, reads an uninitialized slot or overwrites a value that was not read has no
-- result, so that progress excludes these. Fences give nothing in the model, and a parked thread may
-- wake up at any time. That is enough for the theorems, which hold for all strategies.
--
-- How the model corresponds to src/mpsc.rs. `try_send` is `check_full` in `claim_loop`, then `publish`;
-- the claim loop runs for a number of attempts. A compare-exchange may fail with any value that
-- `claim` has had, the expected one too. A round is the bit pattern of its `i64`, so that -1 is the
-- largest `usize`; each slot's round keeps all its values. `claim` needs no wrap, since the full test
-- saturates: no sequence from `usize::MAX` on is ever claimed. A load of `claim` may give any
-- value that it has had; one of `senders` any positive number, and 0 only when all are gone, after all
-- that the senders did, as their decrements form one release sequence. Slots are plain memory: a
-- write needs a claim, an empty slot and the last read before it, a read a value and the last write
-- before it. The state has histories that no code reads: for each sender the sequences published,
-- for each sequence the value written, the values read and those given to the closure of `drain`.
-- Senders are numbered as they are made, at most 2^62 of them, far above what memory can hold (`Arc`
-- aborts at 2^63 clones); `drain` returns the receiver even if it unwinds. `Drop` of `Shared` runs
-- on the last values, for a number of rounds, of which one more than the capacity is enough.
--
-- How the model corresponds to src/sharded.rs. The consumer's methods are programs whose accesses are
-- calls of a shard's `try_recv` or `drain`; the shard's own fields stay with the shard. Sharded/Sweep
-- and Sharded/Batch take the answers of such calls as they come. In Sharded/Threads a call begins
-- when the shard's receiver begins the method of src/spsc.rs, and is answered when that returns; in between
-- the producers and the shard go on access by access. A sender's method is that of the ring's sender.
-- After the consumer is dropped, the shards' receivers are dropped in any order. A cursor is below the
-- number of shards and the visit budget is at most 32, so no sum of these overflows.
--
-- How the model corresponds to src/notify.rs. The rings' models call the methods of Notify/Parker and
-- Notify/WaiterList as single accesses. In Notify/Park the same methods of `Parker` are trees of their
-- own accesses; `wait_once` is the arm of `Park` in the receiver's `recv` of src/spsc.rs and `signal`
-- the store, fence and wake of the sender and of its `Drop`, for the two locations that the receiver
-- waits for. Of these only the number of changes is kept, and which of them end the wait is a parameter.
-- The flag and both locations keep all their versions in the order of execution; each thread has the
-- oldest version that it may still read of each, which a sequentially consistent fence exchanges with
-- a common bound. The mutex orders nothing in the model. `thread::park` takes the token, blocks, or
-- returns for no reason.
--
-- Bounds. `usize` has 64 bits and wraps as in a release build; the counters of src/spsc.rs stand for
-- totals modulo 2^64 and its theorems hold beyond a wrap, but for that on the drop of the shared
-- block, which has its bound among its conditions. A blocking call runs for a number of attempts, and gives
-- `none` if it waits still; a caller that goes on waiting makes another such call, and the
-- theorems hold for any number. The ladder of a new such call starts again, which only the pauses show.
-- The payload is any type; dropping a value has no effect in the model.
--
-- Not modelled: the wake-up of the rings' own programs, in which the parkers are single accesses, and of
-- the threads on a `WaiterList`; the loom variants; timing, tests, benchmarks and examples.
pub mod Base
pub mod Channel
pub mod Memory
pub mod Mpsc
pub mod Notify
pub mod Program
pub mod Sharded
pub mod Spsc
pub mod Wait
