-- ===== src/Sharded.antt =====
-- src/sharded.rs: many producers, each with an SPSC ring of its own, and one consumer that sweeps
-- the rings. A call of a shard's receiver is one access of the programs here: what the other threads
-- do between two such calls shows in the answers only.
pub mod Sweep
pub mod Batch
pub mod Construct
pub mod Threads
pub mod Visits
pub mod Stay
pub mod Sound
pub mod Delivery
mod Schedule
mod Tests
use ultima_rings.Base.{
  ℕ, zero, suc, ◌+◌, ◌-◌, ◌/◌, ◌%◌, Bool, ◌&&◌, not, Option, none, some, List, replicate, ltb, leb,
  ◌==◌, if◌then◌else◌,
}
use ultima_rings.Channel.{
  Result, ok, err, TryRecvError, RecvError, TrySendError, SendError, is_power_of_two,
}
use ultima_rings.Program.{Program, act, ret, ◌>>=◌, ◌>>◌}
use ultima_rings.Wait.{WaitStrategy, is_park, Idle, Pause, spin_loop, for_strategy, idle}
use ultima_rings.Spsc.Defs
use ultima_rings.Spsc.Defs.{Config}
use ultima_rings.Spsc.Ops
use ultima_rings.Spsc.System.{System}
use ultima_rings.Spsc.System

abbrev pub visit_budget : ℕ
visit_budget = 32

-- `shards` is the number of shards.
pub record Receiver : Type 0 where
  pub shards : ℕ
  pub cursor : ℕ
  pub budget : ℕ
  pub strategy : WaitStrategy

-- The producer's handle of a shard, which only passes the handle of the shard's ring on.
pub record Sender : Type 0 where
  pub inner : Defs.Sender

module _ {T : Type 0} (sh : Config) where
  unfoldable pub try_send :
      Sender → T → Defs.Code T (Defs.Sender × Result (Unit {0}) (TrySendError T))
  try_send self v = Ops.try_send sh self.inner v

  unfoldable pub send :
      ℕ → Sender → T → Defs.Code T (Defs.Sender × Option (Result (Unit {0}) (SendError T)))
  send attempts self v = Ops.send sh attempts self.inner v

-- A call of a method of the shard at an index, or a pause.
pub data Call : Type 0 where
  try_recv_shard : ℕ → Call
  drain_shard : ℕ → ℕ → Call
  pause : Pause → Call

-- `none` is an unwinding out of the shard's `drain`.
abbrev pub Answer : Type 0 → Call → Type 0
Answer T (Call.try_recv_shard _) = Result T TryRecvError
Answer T (Call.drain_shard _ _) = Option ℕ
Answer T (Call.pause _) = Unit {0}

abbrev pub Code : Type 0 → Type 0 → Type 0
Code T A = Program {C = Call} (Answer T) A

abbrev pub get : {T : Type 0} → (c : Call) → Code T (Answer T c)
get c = act c ret

-- The rings of the shards, and the consumer; `none` is a panic.
unfoldable pub channel :
    {T : Type 0} → ℕ → ℕ → WaitStrategy → Option (List (Config × System T) × Receiver)
channel {T} n_shards total_cap strategy =
    let per_shard = total_cap / n_shards in
    if ltb 0 n_shards
      && total_cap % n_shards == 0
      && (ltb 0 per_shard && is_power_of_two per_shard)
      && not (is_park strategy)
    then elim (System.channel {T = T} per_shard strategy) [
      | none ↦ none
      | some ring ↦ some (
        replicate n_shards ring,
        record { shards = n_shards; cursor = 0; budget = 0; strategy = strategy },
      )
    ]
    else none

unfoldable pub advance : Receiver → Receiver
advance self = record self {
  cursor = if self.cursor + 1 == self.shards then 0 else self.cursor + 1;
  budget = 0;
}

-- How `recv` stands after some attempts.
pub data Received (T : Type 0) : Type 0 where
  returned : Result T RecvError → Received T
  waiting panicked : Received T

module _ {T : Type 0} where
  -- The loop of `try_recv`, with the number of shards still to visit and the number of shards of this
  -- sweep that are disconnected.
  unfoldable pub sweep : ℕ → Receiver → ℕ → Code T (Receiver × Result T TryRecvError)
  unfolding advance
  sweep zero self disconnected = ret (
    self,
    if disconnected == self.shards then err TryRecvError.disconnected else err TryRecvError.empty,
  )
  sweep (suc left) self disconnected = do
    result ← get (Call.try_recv_shard self.cursor)
    elim result [
      | ok v ↦ ret (record self { budget = self.budget + 1 }, ok v)
      | err TryRecvError.disconnected ↦ sweep left (advance self) (disconnected + 1)
      | err TryRecvError.empty ↦ sweep left (advance self) disconnected
    ]

  unfoldable pub try_recv : Receiver → Code T (Receiver × Result T TryRecvError)
  unfolding advance sweep
  try_recv self =
      let self = if leb visit_budget self.budget then advance self else self in
      sweep self.shards self 0

  -- The loop of `drain`; `none` is an unwinding of the closure.
  unfoldable pub drain_loop : ℕ → ℕ → Receiver → ℕ → Code T (Receiver × Option ℕ)
  unfolding advance
  drain_loop zero max self count = ret (self, some count)
  drain_loop (suc left) max self count = if leb max count then ret (self, some count) else (do
    took ← get (Call.drain_shard self.cursor (max - count))
    elim took [
      | none ↦ ret (self, none)
      | some took ↦
          if took == max - count
          then ret (self, some (count + took))
          else drain_loop left max (advance self) (count + took)
    ])

  unfoldable pub drain : Receiver → ℕ → Code T (Receiver × Option ℕ)
  unfolding drain_loop
  drain self max = drain_loop self.shards max self 0

  abbrev climb : Idle → Code T (Option Idle)
  climb ladder = let (rung, ladder) = idle ladder in do get (Call.pause rung); ret (some ladder)

  -- One wait of `recv`; `none` is the panic of `unreachable!`.
  unfoldable pub wait_for_item : WaitStrategy → Idle → Code T (Option Idle)
  wait_for_item WaitStrategy.busy_spin ladder = do get (Call.pause spin_loop); ret (some ladder)
  wait_for_item WaitStrategy.backoff ladder = climb ladder
  wait_for_item WaitStrategy.backoff_yield ladder = climb ladder
  wait_for_item WaitStrategy.park ladder = ret none

  -- The loop of `recv`, for at most so many attempts.
  unfoldable pub recv_loop : ℕ → Idle → Receiver → Code T (Receiver × Received T)
  unfolding try_recv wait_for_item
  recv_loop zero ladder self = ret (self, Received.waiting)
  recv_loop (suc n) ladder self = do
    (self, result) ← try_recv self
    elim result [
      | ok v ↦ ret (self, Received.returned (ok v))
      | err TryRecvError.disconnected ↦ ret (self, Received.returned (err RecvError.recv_error))
      | err TryRecvError.empty ↦ (do
        ladder ← wait_for_item self.strategy ladder
        elim ladder [
          | none ↦ ret (self, Received.panicked)
          | some ladder ↦ recv_loop n ladder self
        ])
    ]

  unfoldable pub recv : ℕ → Receiver → Code T (Receiver × Received T)
  unfolding recv_loop
  recv attempts self = recv_loop attempts (for_strategy self.strategy) self
