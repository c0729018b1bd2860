-- ===== src/Mpsc/Defs.antt =====
-- src/mpsc.rs: the two kinds of handles, the constants that the shared block fixes at construction,
-- and the accesses to what the threads share.
use ultima_rings.Base.{ℕ, ◌/◌, ◌^◌, Bool, leb, saturating_add}
use ultima_rings.Channel.{Result}
use ultima_rings.Program.{Program, act, ret, ◌>>◌, MemoryOrdering}
use ultima_rings.Wait.{WaitStrategy, Pause, Idle, idle}

-- The fields of `Shared` that never change.
pub record Config : Type 0 where
  pub mask : ℕ
  pub cap : ℕ
  pub shift : ℕ
  pub strategy : WaitStrategy

pub record Sender : Type 0 where
  pub cached_head : ℕ

pub record Receiver : Type 0 where
  pub head : ℕ

-- One access to the fields of `Shared` that do change, to the parker of the consumer or the waiter
-- list of the producers, or to the caller's closure. A round is the bit pattern of the `i64`.
pub data Access (T : Type 0) : Type 0 where
  load_claim load_head load_senders load_rx_dropped : MemoryOrdering → Access T
  load_round : MemoryOrdering → ℕ → Access T
  store_head : MemoryOrdering → ℕ → Access T
  store_round : MemoryOrdering → ℕ → ℕ → Access T  -- the slot's index, the round
  store_rx_dropped : MemoryOrdering → Access T  -- of `true`
  compare_exchange_weak : MemoryOrdering → MemoryOrdering → ℕ → ℕ → Access T  -- on `claim`
  fetch_add_senders fetch_sub_senders : MemoryOrdering → Access T  -- by 1
  write_slot : ℕ → T → Access T  -- `(*p).write(v)`
  read_slot : ℕ → Access T  -- `(*p).assume_init_read()`
  fence : MemoryOrdering → Access T
  wake_consumer prepare_park cancel park : Access T  -- `consumer_parker`
  wake_producers prepare_wait wait : Access T  -- `prod_waiters`
  pause : Pause → Access T
  apply : T → Access T  -- the closure of `drain`: true if it returned, false if it unwound

abbrev pub Reply : {T : Type 0} → Access T → Type 0
Reply (Access.load_claim _) = ℕ
Reply (Access.load_head _) = ℕ
Reply (Access.load_senders _) = ℕ
Reply (Access.load_rx_dropped _) = Bool
Reply (Access.load_round _ _) = ℕ
Reply (Access.compare_exchange_weak _ _ _ _) = Result (Unit {0}) ℕ
Reply (Access.fetch_sub_senders _) = ℕ
Reply {T} (Access.read_slot _) = T
Reply (Access.apply _) = Bool
Reply _ = Unit {0}

abbrev pub Code : Type 0 → Type 0 → Type 0
Code T A = Program {C = Access T} Reply A

-- An access whose result the program goes on with.
abbrev pub get : {T : Type 0} → (c : Access T) → Code T (Reply c)
get c = act c ret

-- `seq >> shift`
abbrev pub round_of : Config → ℕ → ℕ
round_of sh seq = seq / 2 ^ sh.shift

-- `seq >= head.saturating_add(cap)`
abbrev pub is_full : Config → ℕ → ℕ → Bool
is_full sh seq head = leb (saturating_add head sh.cap) seq

-- One rung of the ladder.
abbrev pub climb : {T : Type 0} → Idle → Code T Idle
climb ladder = let (rung, ladder) = idle ladder in do get (Access.pause rung); ret ladder
