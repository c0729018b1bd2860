-- ===== src/Mpsc/Waits.antt =====
-- The blocking `recv` and `Drop` of the receiver of src/mpsc.rs keep to the consumer's rules.
use ultima_rings.Base.{
  ℕ, zero, suc, ◌≡◌, refl, true, false, Bool, Option, none, some, List, [], ◌∷◌, arith, ◌==◌,
  if◌then◌else◌,
}
use ultima_rings.Channel.{Result, ok, err, TryRecvError, RecvError}
use ultima_rings.Program.{ret, ◌>>=◌, ◌>>◌, acquire, seq_cst}
use ultima_rings.Wait.{WaitStrategy, Idle, for_strategy, spin_loop}
use ultima_rings.Mpsc.Config.{IsConfig}
use ultima_rings.Mpsc.Defs.{
  Config, Receiver, Code, get, load_senders, cancel, park, prepare_park, fence, pause,
}
use ultima_rings.Mpsc.ReceiverOps.{
  slot_published, try_recv, recheck, park_spins, wait_for_item_by, wait_for_item, recv_loop, recv,
  drop_receiver,
}
use ultima_rings.Mpsc.Receives
use ultima_rings.Mpsc.Receives.{
  Reads, IsReceiver, slot_published-Consumes, read_on, try_recv-Consumes,
}
use ultima_rings.Mpsc.Rules.{Pull, Consumes}
use ultima_rings.Mpsc.Rules.Bind.{Consumes-bind}

-- What `recv` returns: the one value that it has read; or nothing, and then for an error the senders
-- are gone and every sequence has been read.
abbrev pub Received : {T : Type 0} → Option (Result T RecvError) → Pull → List T → Type 0
Received (some (ok v)) p out = out ≡ v ∷ []
Received (some (err _)) p out = (out ≡ []) × (p.complete ≡ true) × (p.read ≡ p.all)
Received none p out = out ≡ []

module _ (T : Type 0) {sh : Config} (is : IsConfig sh) where
  abbrev Waited : {A : Type 0} → Receiver → A → Pull → List T → List T → Type 0
  Waited self _ p out given = IsReceiver self p × (out ≡ []) × (given ≡ [])

  look :
      (a : Bool) (self : Receiver) (p : Pull)
      → IsReceiver self p
      → IsReceiver self (record p { available = a })
  look a self p s = record { reads = s.reads; released = s.released }

  abbrev recheck_next : ℕ → Receiver → Bool → Code T Bool
  recheck_next n self published =
      if published then ret true else (get (pause spin_loop) >> recheck sh n self)

  recheck-Consumes :
      (n : ℕ) (self : Receiver) (p : Pull)
      → IsReceiver self p
      → Consumes sh.cap (Waited self) (recheck sh n self) p [] []
  unfolding recheck
  recheck-Consumes zero self p s = (s, refl, refl)
  recheck-Consumes (suc n) self p s =
      slot_published-Consumes T is (Waited self) (recheck_next n self) self p [] [] s.reads
        (λ b a t c.
          next (recheck-Consumes n self (record p { available = a }) (look a self p s))
            (look a self p s) b)
    where
      next :
          {p : Pull}
          → Consumes sh.cap (Waited self) (recheck sh n self) p [] []
          → IsReceiver self p
          → (b : Bool) → Consumes sh.cap (Waited self) (recheck_next n self b) p [] []
      next rest s true = (s, refl, refl)
      next rest s false = rest

  -- The wait of the `Park` strategy after its last look at the slot.
  abbrev park_next : Idle → Bool → Code T Idle
  park_next ladder published =
      if published
      then (get cancel >> ret ladder)
      else (get (load_senders acquire) >>= λ senders.
          (if senders == 0 then get cancel else get park) >> ret ladder)

  park_next-Consumes :
      (self : Receiver) (ladder : Idle) (p : Pull)
      → IsReceiver self p
      → (b : Bool) → Consumes sh.cap (Waited self) (park_next ladder b) p [] []
  park_next-Consumes self ladder p s true = (s, refl, refl)
  park_next-Consumes self ladder p s false = (
    refl,
    (λ n. let e : (suc n == 0) ≡ false = ground arith in rw e (s, refl, refl)),
    λ all. (record { reads = s.reads; released = s.released }, refl, refl),
  )

  -- The wait of the `Park` strategy after its re-checks.
  abbrev spun_next : Receiver → Idle → Bool → Code T Idle
  spun_next self ladder spun =
      if spun
      then ret ladder
      else (get prepare_park
          >> get (fence seq_cst)
          >> (slot_published sh self.head >>= park_next ladder))

  spun_next-Consumes :
      (self : Receiver) (ladder : Idle) (p : Pull)
      → IsReceiver self p
      → (b : Bool) → Consumes sh.cap (Waited self) (spun_next self ladder b) p [] []
  spun_next-Consumes self ladder p s true = (s, refl, refl)
  spun_next-Consumes self ladder p s false =
      slot_published-Consumes T is (Waited self) (park_next ladder) self p [] [] s.reads
        (λ b a t c. park_next-Consumes self ladder _ (look a self p s) b)

  wait_for_item_by-Consumes :
      (strategy : WaitStrategy) (self : Receiver) (ladder : Idle) (p : Pull)
      → IsReceiver self p
      → Consumes sh.cap (Waited self) (wait_for_item_by sh strategy self ladder) p [] []
  unfolding wait_for_item_by
  wait_for_item_by-Consumes WaitStrategy.busy_spin self ladder p s = (s, refl, refl)
  wait_for_item_by-Consumes WaitStrategy.backoff self ladder p s = (s, refl, refl)
  wait_for_item_by-Consumes WaitStrategy.backoff_yield self ladder p s = (s, refl, refl)
  wait_for_item_by-Consumes WaitStrategy.park self ladder p s =
      Consumes-bind sh.cap (Waited self) (Waited self) (recheck sh park_spins self)
        (spun_next self ladder) p [] [] (recheck-Consumes park_spins self p s)
        (λ b p out given (s, o, g). rw (o, g) (spun_next-Consumes self ladder p s b))

  wait_for_item-Consumes :
      (self : Receiver) (ladder : Idle) (p : Pull)
      → IsReceiver self p
      → Consumes sh.cap (Waited self) (wait_for_item sh self ladder) p [] []
  unfolding wait_for_item
  wait_for_item-Consumes = wait_for_item_by-Consumes sh.strategy

  abbrev pub RecvDone : Receiver × Option (Result T RecvError) → Pull → List T → List T → Type 0
  RecvDone (self, r) p out given = IsReceiver self p × Received r p out × (given ≡ [])

  abbrev after_attempt :
      ℕ → Idle → Receiver × Result T TryRecvError → Code T (Receiver × Option (Result T RecvError))
  after_attempt n ladder (self, result) = elim result [
    | ok v ↦ ret (self, some (ok v))
    | err TryRecvError.disconnected ↦ ret (self, some (err RecvError.recv_error))
    | err TryRecvError.empty ↦ wait_for_item sh self ladder >>= λ ladder. recv_loop sh n ladder self
  ]

  after_attempt-Consumes :
      (n : ℕ) (ladder : Idle)
      → ((ladder : Idle) (self : Receiver) (p : Pull)
          → IsReceiver self p
          → Consumes sh.cap RecvDone (recv_loop sh n ladder self) p [] [])
      → (a : Receiver × Result T TryRecvError) (p : Pull) (out given : List T)
      → Receives.After T is a p out given
      → Consumes sh.cap RecvDone (after_attempt n ladder a) p out given
  after_attempt-Consumes n ladder rest (self, ok v) p out given h = h
  after_attempt-Consumes n ladder rest (self, err TryRecvError.disconnected) p out given h = h
  after_attempt-Consumes n ladder rest (self, err TryRecvError.empty) p out given (s, o, g) =
      rw (o, g)
        (Consumes-bind sh.cap (Waited self) RecvDone (wait_for_item sh self ladder)
          (λ ladder. recv_loop sh n ladder self) p [] [] (wait_for_item-Consumes self ladder p s)
          (λ ladder p out given (s, o, g). rw (o, g) (rest ladder self p s)))

  recv_loop-Consumes :
      (n : ℕ) (ladder : Idle) (self : Receiver) (p : Pull)
      → IsReceiver self p
      → Consumes sh.cap RecvDone (recv_loop sh n ladder self) p [] []
  unfolding recv_loop
  recv_loop-Consumes zero ladder self p s = (s, refl, refl)
  recv_loop-Consumes (suc n) ladder self p s =
      Consumes-bind sh.cap (Receives.After T is) RecvDone (try_recv sh self)
        (after_attempt n ladder) p [] [] (try_recv-Consumes T is self p s)
        (after_attempt-Consumes n ladder (recv_loop-Consumes n))

  pub recv-Consumes :
      (n : ℕ) (self : Receiver) (p : Pull)
      → IsReceiver self p
      → Consumes sh.cap RecvDone (recv sh n self) p [] []
  unfolding recv
  recv-Consumes n self p s = recv_loop-Consumes n (for_strategy sh.strategy) self p s

-- A receiver that is gone has released every read.
abbrev pub Closed : {T : Type 0} → Unit {0} → Pull → List T → List T → Type 0
Closed _ p out given = (p.released ≡ p.read) × (out ≡ []) × (given ≡ [])

pub drop_receiver-Consumes :
    (T : Type 0) (cap : ℕ) (p : Pull)
    → p.released ≡ p.read
    → Consumes cap (Closed {T = T}) drop_receiver p [] []
unfolding drop_receiver
drop_receiver-Consumes T cap p s = (s, refl, refl)
