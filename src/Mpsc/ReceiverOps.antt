-- ===== src/Mpsc/ReceiverOps.antt =====
-- The methods of `Receiver` of src/mpsc.rs, as programs over the accesses of Mpsc/Defs. The fields of
-- the handle are passed and returned. `recv` runs for a number of attempts, and `none` is a call that
-- still waits after them.
use ultima_rings.Base.{
  ℕ, zero, suc, ◌+◌, Bool, true, false, Option, none, some, ltb, ◌==◌, if◌then◌else◌, bit_and,
  add_usize,
}
use ultima_rings.Channel.{Result, ok, err, TryRecvError, RecvError}
use ultima_rings.Program.{ret, ◌>>=◌, ◌>>◌, release, acquire, seq_cst}
use ultima_rings.Wait.{WaitStrategy, is_park, spin_loop, Idle, for_strategy}
use ultima_rings.Mpsc.Defs.{
  Config, Receiver, load_senders, load_round, store_head, store_rx_dropped, read_slot, fence,
  prepare_park, cancel, park, wake_producers, pause, apply, Code, get, round_of, climb,
}

abbrev pub park_spins : ℕ
park_spins = 16

module _ {T : Type 0} (sh : Config) where
  unfoldable pub slot_published : ℕ → Code T Bool
  slot_published seq = do
    round ← get (load_round acquire (bit_and seq sh.mask))
    ret (round == round_of sh seq)

  -- `Receiver::wake_producers`
  abbrev pub notify_producers : Code T (Unit {0})
  notify_producers =
      if is_park sh.strategy then (do get (fence seq_cst); get wake_producers) else ret tt

  -- `try_recv` from the slot read on.
  unfoldable pub take_slot : Receiver → Code T (Receiver × Result T TryRecvError)
  take_slot self = do
    v ← get (read_slot (bit_and self.head sh.mask))
    let self = record self { head = add_usize self.head 1 }
    get (store_head release self.head)
    notify_producers
    ret (self, ok v)

  unfoldable pub try_recv : Receiver → Code T (Receiver × Result T TryRecvError)
  unfolding slot_published take_slot
  try_recv self = do
    published ← slot_published self.head
    if published then take_slot self else (do
      senders ← get (load_senders acquire)
      if senders == 0
          then (do
            published ← slot_published self.head
            if published then take_slot self else ret (self, err TryRecvError.disconnected))
          else ret (self, err TryRecvError.empty))

  -- The re-checks before a park: whether an item came.
  unfoldable pub recheck : ℕ → Receiver → Code T Bool
  unfolding slot_published
  recheck zero self = ret false
  recheck (suc n) self = do
    published ← slot_published self.head
    if published then ret true else (do get (pause spin_loop); recheck n self)

  -- One wait of `recv` on an empty ring.
  unfoldable pub wait_for_item_by : WaitStrategy → Receiver → Idle → Code T Idle
  unfolding recheck slot_published
  wait_for_item_by WaitStrategy.busy_spin self ladder = do get (pause spin_loop); ret ladder
  wait_for_item_by WaitStrategy.backoff self ladder = climb ladder
  wait_for_item_by WaitStrategy.backoff_yield self ladder = climb ladder
  wait_for_item_by WaitStrategy.park self ladder = do
    spun ← recheck park_spins self
    if spun then ret ladder else (do
      get prepare_park
      get (fence seq_cst)
      published ← slot_published self.head
      if published then (do get cancel; ret ladder) else (do
        senders ← get (load_senders acquire)
        (if senders == 0 then get cancel else get park)
        ret ladder))

  unfoldable pub wait_for_item : Receiver → Idle → Code T Idle
  unfolding wait_for_item_by
  wait_for_item = wait_for_item_by sh.strategy

  unfoldable pub recv_loop : ℕ → Idle → Receiver → Code T (Receiver × Option (Result T RecvError))
  unfolding try_recv wait_for_item
  recv_loop zero ladder self = ret (self, none)
  recv_loop (suc n) ladder self = do
    (self, result) ← try_recv self
    elim result [
      | ok v ↦ ret (self, some (ok v))
      | err TryRecvError.disconnected ↦ ret (self, some (err RecvError.recv_error))
      | err TryRecvError.empty ↦ (do ladder ← wait_for_item self ladder; recv_loop n ladder self)
    ]

  unfoldable pub recv : ℕ → Receiver → Code T (Receiver × Option (Result T RecvError))
  unfolding recv_loop
  recv attempts self = recv_loop attempts (for_strategy sh.strategy) self

  -- The loop of `drain`, with the number of items that it may still take. The last component is
  -- false if the closure unwound.
  unfoldable pub drain_loop : ℕ → Receiver → ℕ → Code T (Receiver × ℕ × Bool)
  unfolding slot_published
  drain_loop zero self count = ret (self, count, true)
  drain_loop (suc n) self count = do
    published ← slot_published self.head
    if published
        then (do
          v ← get (read_slot (bit_and self.head sh.mask))
          let self = record self { head = add_usize self.head 1 }
          let count = count + 1
          returned ← get (apply v)
          if returned then drain_loop n self count else ret (self, count, false))
        else ret (self, count, true)

  -- `PublishGuard::drop`, which runs on a normal exit and while unwinding.
  abbrev pub publish_guard : ℕ → Receiver → Code T (Unit {0})
  publish_guard start self =
      if self.head == start then ret tt else get (store_head release self.head)

  -- `none` is an unwinding out of `drain`.
  unfoldable pub drain : Receiver → ℕ → Code T (Receiver × Option ℕ)
  unfolding drain_loop
  drain self max = do
    (after, count, returned) ← drain_loop max self 0
    publish_guard self.head after
    if returned
        then (do (if ltb 0 count then notify_producers else ret tt); ret (after, some count))
        else ret (after, none)

-- `Drop` of the receiver.
unfoldable pub drop_receiver : {T : Type 0} → Code T (Unit {0})
drop_receiver = do get (store_rx_dropped release); get (fence seq_cst); get wake_producers
