-- ===== src/Mpsc/SenderOps.antt =====
-- The methods of `Sender` of src/mpsc.rs, as programs over the accesses of Mpsc/Defs. The fields of
-- a handle are passed and returned. The loops run for a number of attempts, and `none` is a call
-- that is still in its loop after them.
use ultima_rings.Base.{
  ℕ, zero, suc, ◌*◌, min, Bool, false, Option, none, some, ltb, ◌==◌, if◌then◌else◌, bit_and,
  add_usize, saturating_add,
}
use ultima_rings.Channel.{Result, ok, err, TrySendError, SendError}
use ultima_rings.Program.{ret, ◌>>=◌, ◌>>◌, relaxed, release, acquire, acq_rel, seq_cst}
use ultima_rings.Wait.{WaitStrategy, is_park, spin_loop, Idle, for_strategy}
use ultima_rings.Mpsc.Defs.{
  Config, Sender, load_claim, load_head, load_rx_dropped, store_round, compare_exchange_weak,
  fetch_add_senders, fetch_sub_senders, write_slot, fence, wake_consumer, prepare_wait, wait, pause,
  Code, get, round_of, is_full, climb,
}

abbrev pub claim_backoff_max : ℕ
claim_backoff_max = 64

-- `spin_loop()` so many times.
abbrev pub spin : {T : Type 0} → ℕ → Code T (Unit {0})
spin zero = ret tt
spin (suc n) = do get (pause spin_loop); spin n

module _ {T : Type 0} (sh : Config) where
  -- The full test before a claim: the new handle, and whether the ring is full.
  unfoldable pub check_full : Sender → ℕ → Code T (Sender × Bool)
  check_full self seq =
      if is_full sh seq self.cached_head
      then (do
        head ← get (load_head acquire)
        ret (record self { cached_head = head }, is_full sh seq head))
      else ret (self, false)

  -- The claim loop, for at most so many attempts: the sequence claimed, or `none` if the ring is full.
  unfoldable pub claim_loop : ℕ → Sender → ℕ → ℕ → Code T (Sender × Option (Option ℕ))
  unfolding check_full
  claim_loop zero self seq backoff = ret (self, none)
  claim_loop (suc n) self seq backoff = do
    (self, full) ← check_full self seq
    if full then ret (self, some none) else (do
      result ← get (compare_exchange_weak relaxed relaxed seq (add_usize seq 1))
      elim result [
        | ok _ ↦ ret (self, some (some seq))
        | err cur ↦ (do spin backoff; claim_loop n self cur (min (backoff * 2) claim_backoff_max))
      ])

  -- `try_send` from the slot write on.
  unfoldable pub publish : ℕ → T → Code T (Unit {0})
  publish seq v = do
    get (write_slot (bit_and seq sh.mask) v)
    get (store_round release (bit_and seq sh.mask) (round_of sh seq))
    if is_park sh.strategy then (do get (fence seq_cst); get wake_consumer) else ret tt

  unfoldable pub try_send :
      ℕ → Sender → T → Code T (Sender × Option (Result (Unit {0}) (TrySendError T)))
  unfolding claim_loop publish
  try_send attempts self v = do
    dropped ← get (load_rx_dropped acquire)
    if dropped then ret (self, some (err (TrySendError.disconnected v))) else (do
      seq ← get (load_claim relaxed)
      (self, claimed) ← claim_loop attempts self seq 1
      elim claimed [
        | none ↦ ret (self, none)
        | some none ↦ ret (self, some (err (TrySendError.full v)))
        | some (some seq) ↦ (do publish seq v; ret (self, some (ok tt)))
      ])

  -- One wait of `send` on a full ring.
  unfoldable pub wait_for_space_by : WaitStrategy → Idle → Code T Idle
  wait_for_space_by WaitStrategy.busy_spin ladder = do get (pause spin_loop); ret ladder
  wait_for_space_by WaitStrategy.backoff ladder = climb ladder
  wait_for_space_by WaitStrategy.backoff_yield ladder = climb ladder
  wait_for_space_by WaitStrategy.park ladder = do
    get prepare_wait
    get (fence seq_cst)
    claim ← get (load_claim relaxed)
    head ← get (load_head acquire)
    if ltb claim (saturating_add head sh.cap) then ret ladder else (do
      dropped ← get (load_rx_dropped acquire)
      if dropped then ret ladder else (do get wait; ret ladder))

  unfoldable pub wait_for_space : Idle → Code T Idle
  unfolding wait_for_space_by
  wait_for_space = wait_for_space_by sh.strategy

  -- The loop of `send`: so many attempts, each of at most so many claims.
  unfoldable pub send_loop :
      ℕ → ℕ → Idle → Sender → T → Code T (Sender × Option (Result (Unit {0}) (SendError T)))
  unfolding try_send wait_for_space
  send_loop zero claims ladder self v = ret (self, none)
  send_loop (suc n) claims ladder self v = do
    (self, result) ← try_send claims self v
    elim result [
      | none ↦ ret (self, none)
      | some (ok _) ↦ ret (self, some (ok tt))
      | some (err (TrySendError.disconnected back)) ↦
          ret (self, some (err (SendError.send_error back)))
      | some (err (TrySendError.full back)) ↦ (do
        ladder ← wait_for_space ladder
        send_loop n claims ladder self back)
    ]

  unfoldable pub send :
      ℕ → ℕ → Sender → T → Code T (Sender × Option (Result (Unit {0}) (SendError T)))
  unfolding send_loop
  send attempts claims self v = send_loop attempts claims (for_strategy sh.strategy) self v

module _ {T : Type 0} where
  -- `Clone` of a sender: the handle itself and the new one.
  unfoldable pub clone : Sender → Code T (Sender × Sender)
  clone self = do get (fetch_add_senders relaxed); ret (self, record { cached_head = 0 })

  -- `Drop` of a sender.
  unfoldable pub drop_sender : Code T (Unit {0})
  drop_sender = do
    before ← get (fetch_sub_senders acq_rel)
    if before == 1 then (do get (fence seq_cst); get wake_consumer) else ret tt
