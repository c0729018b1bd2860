-- ===== src/Spsc/Blocks.antt =====
-- The blocking methods of src/spsc.rs, and the drop of a handle.
use ultima_rings.Base.{
  ℕ, zero, suc, ◌+◌, ◌≤◌, ◌≡◌, refl, Bool, true, false, List, [], ◌∷◌, Option, none, some, arith,
  wrap, sub_usize, Bool-cases, inl, inr, ltb, ◌==◌, if◌then◌else◌,
}
use ultima_rings.Channel.{Result, ok, err, TrySendError, SendError, TryRecvError, RecvError}
use ultima_rings.Program.{ret, ◌>>=◌, ◌>>◌, producer}
use ultima_rings.Wait.{WaitStrategy, Idle, for_strategy}
use ultima_rings.Spsc.Config.{IsConfig}
use ultima_rings.Spsc.Defs.{Config, Sender, Receiver, cancel, park, Code, get}
use ultima_rings.Spsc.Ops.{
  wait_for_space_by, wait_for_space, send_loop, send, wait_for_item_by, wait_for_item, recv_loop,
  recv, try_send, try_recv, hang_up,
}
use ultima_rings.Spsc.Receives
use ultima_rings.Spsc.Receives.{Reads, IsReceiver, learn, try_recv-Consumes}
use ultima_rings.Spsc.Rules.{Push, Produces, Pull, Consumes}
use ultima_rings.Spsc.Rules.Bind.{Produces-bind, Consumes-bind}
use ultima_rings.Spsc.Sends
use ultima_rings.Spsc.Sends.{IsSender, try_send-Produces}

IsSender-learn :
    {cap : ℕ} {self : Sender} {p : Push} (h : ℕ)
    → IsSender cap self p
    → p.known ≤ h
    → h ≤ p.written
    → IsSender cap self (record p { known = h })
IsSender-learn h s lo hi = record {
  tail = s.tail;
  cached = s.cached;
  cached_head = s.cached_head;
  behind = omega (arith, s.behind);
  order = hi;
  room = s.room;
  published = s.published;
  live = s.live;
}

-- What `send v` returns: success with `v` written, or the value handed back with nothing written;
-- a sender that still waits has written nothing.
abbrev pub Sent : {T : Type 0} → T → Option (Result (Unit {0}) (SendError T)) → List T → Type 0
Sent v (some (ok _)) out = out ≡ v ∷ []
Sent v (some (err (SendError.send_error back))) out = (back ≡ v) × (out ≡ [])
Sent v none out = out ≡ []

-- What `recv` returns: the one value that it has read; or nothing, and then for an error every value
-- that the sender will ever have written has been read.
abbrev pub Received : {T : Type 0} → Option (Result T RecvError) → Pull → List T → Type 0
Received (some (ok v)) p out = out ≡ v ∷ []
Received (some (err _)) p out = (out ≡ []) × (p.complete ≡ true) × (p.read ≡ p.known)
Received none p out = out ≡ []

module _ (T : Type 0) {sh : Config} (is : IsConfig sh) where
  abbrev Idled : Sender → Idle → Push → List T → Type 0
  Idled self _ p out = IsSender sh.cap self p × (out ≡ [])

  wait_for_space_by-Produces :
      (strategy : WaitStrategy) (self : Sender) (ladder : Idle) (p : Push)
      → IsSender sh.cap self p
      → Produces sh.cap (Idled self) (wait_for_space_by {T = T} sh strategy self ladder) p []
  unfolding wait_for_space_by
  wait_for_space_by-Produces WaitStrategy.busy_spin self ladder p s = (s, refl)
  wait_for_space_by-Produces WaitStrategy.backoff self ladder p s = (s, refl)
  wait_for_space_by-Produces WaitStrategy.backoff_yield self ladder p s = (s, refl)
  wait_for_space_by-Produces WaitStrategy.park self ladder p s = λ h lo hi.
      let s' = IsSender-learn h s lo hi in
      elim (Bool-cases (ltb (sub_usize self.tail (wrap h)) sh.cap)) [
        | inl e ↦ rw e (s', refl)
        | inr e ↦ rw e (gone s')
      ]
    where
      gone :
          {p : Push}
          → IsSender sh.cap self p
          → (b : Bool)
          → Produces sh.cap
              (Idled self)
              ((if b then get {T = T} (cancel producer) else get (park producer)) >> ret ladder)
              p
              []
      gone s true = (s, refl)
      gone s false = (s, refl)

  abbrev pub SendDone :
      T → Sender × Option (Result (Unit {0}) (SendError T)) → Push → List T → Type 0
  SendDone v (self, r) p out = IsSender sh.cap self p × Sent v r out

  wait_for_space-Produces :
      (self : Sender) (ladder : Idle) (p : Push)
      → IsSender sh.cap self p
      → Produces sh.cap (Idled self) (wait_for_space {T = T} sh self ladder) p []
  unfolding wait_for_space
  wait_for_space-Produces = wait_for_space_by-Produces sh.strategy

  abbrev after_attempt :
      ℕ
      → Idle
      → Sender × Result (Unit {0}) (TrySendError T)
      → Code T (Sender × Option (Result (Unit {0}) (SendError T)))
  after_attempt n ladder (self, result) = elim result [
    | ok _ ↦ ret (self, some (ok tt))
    | err (TrySendError.disconnected back) ↦ ret (self, some (err (SendError.send_error back)))
    | err (TrySendError.full back) ↦
        wait_for_space sh self ladder >>= λ ladder. send_loop sh n ladder self back
  ]

  -- How the loop of `send` goes on after an attempt, given its later attempts.
  send_next :
      (n : ℕ) (v : T)
      → ((ladder : Idle) (self : Sender) (p : Push)
          → IsSender sh.cap self p
          → Produces sh.cap (SendDone v) (send_loop sh n ladder self v) p [])
      → (ladder : Idle) (self : Sender) (r : Result (Unit {0}) (TrySendError T)) (p : Push)
        (out : List T)
      → Sends.After T is v (self, r) p out
      → Produces sh.cap (SendDone v) (after_attempt n ladder (self, r)) p out
  send_next n v rest ladder self (ok _) p out (s, e) = (s, e)
  send_next n v rest ladder self (err (TrySendError.disconnected back)) p out (s, e) = (s, e)
  send_next n v rest ladder self (err (TrySendError.full back)) p out (s, e) =
      rw (e.0, e.1)
        (Produces-bind sh.cap (Idled self) (SendDone v) (wait_for_space sh self ladder) _ p []
          (wait_for_space-Produces self ladder p s)
          (λ ladder' p' out' d. rw d.1 (rest ladder' self p' d.0)))

  send_loop-Produces :
      (n : ℕ) (v : T) (ladder : Idle) (self : Sender) (p : Push)
      → IsSender sh.cap self p
      → Produces sh.cap (SendDone v) (send_loop sh n ladder self v) p []
  unfolding send_loop
  send_loop-Produces zero v ladder self p s = (s, refl)
  send_loop-Produces (suc n) v ladder self p s =
      Produces-bind sh.cap (Sends.After T is v) (SendDone v) (try_send sh self v) _ p []
        (try_send-Produces T is v self p s)
        (λ a. send_next n v (send_loop-Produces n v) ladder a.0 a.1)

  pub send-Produces :
      (n : ℕ) (v : T) (self : Sender) (p : Push)
      → IsSender sh.cap self p
      → Produces sh.cap (SendDone v) (send sh n self v) p []
  unfolding send
  send-Produces n v self p s = send_loop-Produces n v (for_strategy sh.strategy) self p s

module _ (T : Type 0) {sh : Config} (is : IsConfig sh) where
  abbrev Waited : Receiver → Idle → Pull → List T → List T → Type 0
  Waited self _ p out given = IsReceiver sh.cap self p × (out ≡ []) × (given ≡ [])

  wait_for_item_by-Consumes :
      (strategy : WaitStrategy) (self : Receiver) (ladder : Idle) (p : Pull)
      → IsReceiver sh.cap self p
      → Consumes sh.cap (Waited self) (wait_for_item_by {T = T} sh strategy self ladder) p [] []
  unfolding wait_for_item_by
  wait_for_item_by-Consumes WaitStrategy.busy_spin self ladder p s = (s, refl, refl)
  wait_for_item_by-Consumes WaitStrategy.backoff self ladder p s = (s, refl, refl)
  wait_for_item_by-Consumes WaitStrategy.backoff_yield self ladder p s = (s, refl, refl)
  wait_for_item_by-Consumes WaitStrategy.park self ladder p s = λ t lo hi c.
      let s' = knows t p.complete s lo hi in
      elim (Bool-cases (wrap t == self.head)) [
        | inl e ↦ rw e (
          refl,
          s.reads.live,
          (s', refl, refl),
          λ t' lo' hi' c'. (knows t' true s (omega arith) hi', refl, refl),
        )
        | inr e ↦ rw e (s', refl, refl)
      ]
    where
      knows :
          (t : ℕ) (c : Bool)
          → IsReceiver sh.cap self p
          → p.known ≤ t
          → t ≤ p.released + sh.cap
          → IsReceiver sh.cap self (record p { known = t; complete = c })
      knows t c s lo hi = record {
        reads = learn is self p s.reads t c lo hi;
        released = s.released;
      }

  abbrev pub RecvDone : Receiver × Option (Result T RecvError) → Pull → List T → List T → Type 0
  RecvDone (self, r) p out given = IsReceiver sh.cap self p × Received r p out × (given ≡ [])

  abbrev after_look :
      ℕ → Idle → Receiver × Result T TryRecvError → Code T (Receiver × Option (Result T RecvError))
  after_look n ladder (self, result) = elim result [
    | ok v ↦ ret (self, some (ok v))
    | err TryRecvError.disconnected ↦ ret (self, some (err RecvError.recv_error))
    | err TryRecvError.empty ↦ wait_for_item sh self ladder >>= λ ladder. recv_loop sh n ladder self
  ]

  -- How the loop of `recv` goes on after an attempt, given its later attempts.
  recv_next :
      (n : ℕ)
      → ((ladder : Idle) (self : Receiver) (p : Pull)
          → IsReceiver sh.cap self p
          → Consumes sh.cap RecvDone (recv_loop sh n ladder self) p [] [])
      → (ladder : Idle) (self : Receiver) (r : Result T TryRecvError) (p : Pull)
        (out given : List T)
      → Receives.After T is (self, r) p out given
      → Consumes sh.cap RecvDone (after_look n ladder (self, r)) p out given
  unfolding wait_for_item
  recv_next n rest ladder self (ok v) p out given (s, e, g) = (s, e, g)
  recv_next n rest ladder self (err TryRecvError.disconnected) p out given (s, e, g) = (s, e, g)
  recv_next n rest ladder self (err TryRecvError.empty) p out given (s, e, g) =
      rw (e, g)
        (Consumes-bind sh.cap (Waited self) RecvDone (wait_for_item sh self ladder) _ p [] []
          (wait_for_item_by-Consumes sh.strategy self ladder p s)
          (λ ladder' p' out' given' d. rw (d.1, d.2) (rest ladder' self p' d.0)))

  recv_loop-Consumes :
      (n : ℕ) (ladder : Idle) (self : Receiver) (p : Pull)
      → IsReceiver sh.cap self p
      → Consumes sh.cap RecvDone (recv_loop sh n ladder self) p [] []
  unfolding recv_loop
  recv_loop-Consumes zero ladder self p s = (s, refl, refl)
  recv_loop-Consumes (suc n) ladder self p s =
      Consumes-bind sh.cap (Receives.After T is) RecvDone (try_recv sh self) _ p [] []
        (try_recv-Consumes T is self p s) (λ a. recv_next n (recv_loop-Consumes n) ladder a.0 a.1)

  pub recv-Consumes :
      (n : ℕ) (self : Receiver) (p : Pull)
      → IsReceiver sh.cap self p
      → Consumes sh.cap RecvDone (recv sh n self) p [] []
  unfolding recv
  recv-Consumes n self p s = recv_loop-Consumes n (for_strategy sh.strategy) self p s

-- A closed handle has done nothing but close.
abbrev pub HungUp : {T : Type 0} → Unit {0} → Push → List T → Type 0
HungUp _ p out = (p.live ≡ false) × (p.published ≡ true) × (out ≡ [])

abbrev pub Closed : {T : Type 0} → ℕ → Unit {0} → Pull → List T → List T → Type 0
Closed cap _ p out given = (p.live ≡ false) × (p.released ≡ p.read) × (out ≡ []) × (given ≡ [])

pub hang_up-Produces :
    (T : Type 0) (cap : ℕ) (p : Push)
    → p.published ≡ true
    → Produces cap HungUp (hang_up {T = T}) p []
unfolding hang_up
hang_up-Produces T cap p s = (refl, s, (refl, s, refl))

pub hang_up-Consumes :
    (T : Type 0) (cap : ℕ) (p : Pull)
    → p.released ≡ p.read
    → Consumes cap (Closed cap) (hang_up {T = T}) p [] []
unfolding hang_up
hang_up-Consumes T cap p s = (refl, s, refl, refl)
