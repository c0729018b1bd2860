-- ===== src/Spsc/Ops.antt =====
-- src/spsc.rs: the operations of the two handles, access by access.
use ultima_rings.Base.{
  ℕ, zero, suc, ◌+◌, Bool, true, false, ◌&&◌, not, Option, none, some, ltb, ◌==◌, if◌then◌else◌,
  bit_and, add_usize, sub_usize,
}
use ultima_rings.Channel.{Result, ok, err, TrySendError, SendError, TryRecvError, RecvError}
use ultima_rings.Program.{ret, ◌>>=◌, ◌>>◌, acquire, release, seq_cst, End, consumer, producer}
use ultima_rings.Wait.{WaitStrategy, is_park, spin_loop, Idle, for_strategy, idle}
use ultima_rings.Spsc.Defs.{
  Config, Sender, Receiver, load_tail, load_head, load_disconnected, store_tail, store_head,
  store_disconnected, write_slot, read_slot, fence, wake, prepare_park, cancel, park, pause, apply,
  Code, get,
}

module _ {T : Type 0} (sh : Config) where
  -- After a publish or a release: wake the other end, in the `Park` strategy only.
  abbrev pub notify : End → Code T (Unit {0})
  notify end = if is_park sh.strategy then (do get (fence seq_cst); get (wake end)) else ret tt

  -- `try_send` from the slot write on.
  unfoldable pub publish : Sender → T → Code T (Sender × Result (Unit {0}) (TrySendError T))
  publish self v = do
    get (write_slot (bit_and self.tail sh.mask) v)
    let self = record self { tail = add_usize self.tail 1 }
    get (store_tail release self.tail)
    notify consumer
    ret (self, ok tt)

  unfoldable pub try_send : Sender → T → Code T (Sender × Result (Unit {0}) (TrySendError T))
  unfolding publish
  try_send self v = do
    disconnected ← get (load_disconnected acquire)
    if disconnected
        then ret (self, err (TrySendError.disconnected v))
        else if sub_usize self.tail self.cached_head == sh.cap
        then (do
          head ← get (load_head acquire)
          let self = record self { cached_head = head }
          if sub_usize self.tail self.cached_head == sh.cap
              then ret (self, err (TrySendError.full v))
              else publish self v)
        else publish self v

  -- One rung of the ladder.
  abbrev pub climb : Idle → Code T Idle
  climb ladder = let (rung, ladder) = idle ladder in do get (pause rung); ret ladder

  -- One wait of `send` on a full ring.
  unfoldable pub wait_for_space_by : WaitStrategy → Sender → Idle → Code T Idle
  wait_for_space_by WaitStrategy.busy_spin self ladder = do get (pause spin_loop); ret ladder
  wait_for_space_by WaitStrategy.backoff self ladder = climb ladder
  wait_for_space_by WaitStrategy.backoff_yield self ladder = climb ladder
  wait_for_space_by WaitStrategy.park self ladder = do
    get (prepare_park producer)
    get (fence seq_cst)
    head ← get (load_head acquire)
    if ltb (sub_usize self.tail head) sh.cap then (do get (cancel producer); ret ladder) else (do
      disconnected ← get (load_disconnected acquire)
      (if disconnected then get (cancel producer) else get (park producer))
      ret ladder)

  unfoldable pub wait_for_space : Sender → Idle → Code T Idle
  unfolding wait_for_space_by
  wait_for_space = wait_for_space_by sh.strategy

  -- The loop of `send`, for at most so many attempts; `none` is a sender that still waits.
  unfoldable pub send_loop :
      ℕ → Idle → Sender → T → Code T (Sender × Option (Result (Unit {0}) (SendError T)))
  unfolding try_send wait_for_space
  send_loop zero ladder self v = ret (self, none)
  send_loop (suc n) ladder self v = do
    (self, result) ← try_send self v
    elim result [
      | ok _ ↦ ret (self, some (ok tt))
      | err (TrySendError.disconnected back) ↦ ret (self, some (err (SendError.send_error back)))
      | err (TrySendError.full back) ↦ (do
        ladder ← wait_for_space self ladder
        send_loop n ladder self back)
    ]

  unfoldable pub send : ℕ → Sender → T → Code T (Sender × Option (Result (Unit {0}) (SendError T)))
  unfolding send_loop
  send attempts self v = send_loop attempts (for_strategy sh.strategy) self v

  -- `try_recv` from the slot read on.
  unfoldable pub take_slot : Receiver → Code T (Receiver × Result T TryRecvError)
  take_slot self = do
    v ← get (read_slot (bit_and self.head sh.mask))
    let self = record self { head = add_usize self.head 1 }
    get (store_head release self.head)
    notify producer
    ret (self, ok v)

  unfoldable pub try_recv : Receiver → Code T (Receiver × Result T TryRecvError)
  unfolding take_slot
  try_recv self =
      if self.head == self.cached_tail
      then (do
        tail ← get (load_tail acquire)
        let self = record self { cached_tail = tail }
        if self.head == self.cached_tail
            then (do
              disconnected ← get (load_disconnected acquire)
              if disconnected
                  then (do
                    t ← get (load_tail acquire)
                    if t == self.head
                        then ret (self, err TryRecvError.disconnected)
                        else take_slot (record self { cached_tail = t }))
                  else ret (self, err TryRecvError.empty))
            else take_slot self)
      else take_slot self

  -- The test at the head of the loop of `drain`: whether an item is there.
  unfoldable pub available : Receiver → Code T (Receiver × Bool)
  available self =
      if self.head == self.cached_tail
      then (do
        tail ← get (load_tail acquire)
        let self = record self { cached_tail = tail }
        ret (self, not (self.head == self.cached_tail)))
      else ret (self, true)

  -- The loop of `drain`, with the number of items that it may still take. The last component is
  -- false if the closure unwound.
  unfoldable pub drain_loop : ℕ → Receiver → ℕ → Code T (Receiver × ℕ × Bool)
  unfolding available
  drain_loop zero self count = ret (self, count, true)
  drain_loop (suc n) self count = do
    (self, more) ← available self
    if more
        then (do
          v ← get (read_slot (bit_and self.head sh.mask))
          let self = record self { head = add_usize self.head 1 }
          let count = count + 1
          returned ← get (apply v)
          if returned then drain_loop n self count else ret (self, count, false))
        else ret (self, count, true)

  -- `PublishGuard::drop`, which runs on a normal exit and while unwinding.
  abbrev pub publish_guard : ℕ → Receiver → Code T (Unit {0})
  publish_guard start self =
      if self.head == start then ret tt else get (store_head release self.head)

  -- `none` is an unwinding out of `drain`.
  unfoldable pub drain : Receiver → ℕ → Code T (Receiver × Option ℕ)
  unfolding drain_loop
  drain self max = do
    (after, count, returned) ← drain_loop max self 0
    publish_guard self.head after
    if returned
        then (do
          (if ltb 0 count && is_park sh.strategy
              then (do get (fence seq_cst); get (wake producer))
              else ret tt)
          ret (after, some count))
        else ret (after, none)

  -- One wait of `recv` on an empty ring.
  unfoldable pub wait_for_item_by : WaitStrategy → Receiver → Idle → Code T Idle
  wait_for_item_by WaitStrategy.busy_spin self ladder = do get (pause spin_loop); ret ladder
  wait_for_item_by WaitStrategy.backoff self ladder = climb ladder
  wait_for_item_by WaitStrategy.backoff_yield self ladder = climb ladder
  wait_for_item_by WaitStrategy.park self ladder = do
    get (prepare_park consumer)
    get (fence seq_cst)
    tail ← get (load_tail acquire)
    if tail == self.head
        then (do
          disconnected ← get (load_disconnected acquire)
          (if disconnected then get (cancel consumer) else get (park consumer))
          ret ladder)
        else (do get (cancel consumer); ret ladder)

  unfoldable pub wait_for_item : Receiver → Idle → Code T Idle
  unfolding wait_for_item_by
  wait_for_item = wait_for_item_by sh.strategy

  -- The loop of `recv`, for at most so many attempts; `none` is a receiver that still waits.
  unfoldable pub recv_loop : ℕ → Idle → Receiver → Code T (Receiver × Option (Result T RecvError))
  unfolding try_recv wait_for_item
  recv_loop zero ladder self = ret (self, none)
  recv_loop (suc n) ladder self = do
    (self, result) ← try_recv self
    elim result [
      | ok v ↦ ret (self, some (ok v))
      | err TryRecvError.disconnected ↦ ret (self, some (err RecvError.recv_error))
      | err TryRecvError.empty ↦ (do ladder ← wait_for_item self ladder; recv_loop n ladder self)
    ]

  unfoldable pub recv : ℕ → Receiver → Code T (Receiver × Option (Result T RecvError))
  unfolding recv_loop
  recv attempts self = recv_loop attempts (for_strategy sh.strategy) self

-- `Drop` of either handle.
unfoldable pub hang_up : {T : Type 0} → Code T (Unit {0})
hang_up = do
  get (store_disconnected release)
  get (fence seq_cst)
  get (wake consumer)
  get (wake producer)
