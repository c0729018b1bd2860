-- ===== src/Mpsc/Blocks.antt =====
-- The blocking `send`, `clone` and `Drop` of a sender of src/mpsc.rs keep to the producer's rules.
use ultima_rings.Base.{
  ℕ, zero, suc, ◌≡◌, refl, true, false, Bool, Option, none, some, List, [], saturating_add, ltb,
  Bool-cases, inl, inr, ◌==◌, ◌≤◌, if◌then◌else◌,
}
use ultima_rings.Channel.{Result, ok, err, TrySendError, SendError}
use ultima_rings.Program.{ret, ◌>>=◌, ◌>>◌}
use ultima_rings.Wait.{WaitStrategy, Idle, for_strategy}
use ultima_rings.Mpsc.Config.{IsConfig}
use ultima_rings.Mpsc.Defs.{Config, Sender, Code, get, wait}
use ultima_rings.Mpsc.Rules.{Push, Produces}
use ultima_rings.Mpsc.Rules.Bind.{Produces-bind}
use ultima_rings.Mpsc.SenderOps.{
  try_send, wait_for_space_by, wait_for_space, send_loop, send, clone, drop_sender,
}
use ultima_rings.Mpsc.Sends
use ultima_rings.Mpsc.Sends.{IsSender, Sent, learn_only, try_send-Produces}
use ultima_rings.Mpsc.State.{none_pending}

module _ (T : Type 0) {sh : Config} (is : IsConfig sh) where
  abbrev Waited : Sender → Idle → Push T → List (ℕ × T) → Type 0
  Waited self _ p out = IsSender self p × (out ≡ [])

  wait_for_space_by-Produces :
      (strategy : WaitStrategy) (self : Sender) (ladder : Idle) (p : Push T)
      → IsSender self p
      → Produces sh.cap (Waited self) (wait_for_space_by sh strategy ladder) p []
  unfolding wait_for_space_by
  wait_for_space_by-Produces WaitStrategy.busy_spin self ladder p s = (s, refl)
  wait_for_space_by-Produces WaitStrategy.backoff self ladder p s = (s, refl)
  wait_for_space_by-Produces WaitStrategy.backoff_yield self ladder p s = (s, refl)
  wait_for_space_by-Produces WaitStrategy.park self ladder p s = λ c le h.
      let s' = learn_only T is h self s in
      elim (Bool-cases (ltb c (saturating_add h sh.cap))) [
        | inl e ↦ rw e (s', refl)
        | inr e ↦ rw e (closing s')
      ]
    where
      closing :
          {p : Push T}
          → IsSender self p
          → (b : Bool)
          → Produces sh.cap (Waited self) (if b then ret ladder else (get wait >> ret ladder)) p []
      closing s true = (s, refl)
      closing s false = (s, refl)

  wait_for_space-Produces :
      (self : Sender) (ladder : Idle) (p : Push T)
      → IsSender self p
      → Produces sh.cap (Waited self) (wait_for_space sh ladder) p []
  unfolding wait_for_space
  wait_for_space-Produces = wait_for_space_by-Produces sh.strategy

  abbrev pub SendDone :
      T → Sender × Option (Result (Unit {0}) (SendError T)) → Push T → List (ℕ × T) → Type 0
  SendDone v (self, r) p out = IsSender self p × Sent v r out

  abbrev after_attempt :
      ℕ
      → ℕ
      → Idle
      → Sender × Option (Result (Unit {0}) (TrySendError T))
      → Code T (Sender × Option (Result (Unit {0}) (SendError T)))
  after_attempt n claims ladder (self, result) = elim result [
    | none ↦ ret (self, none)
    | some (ok _) ↦ ret (self, some (ok tt))
    | some (err (TrySendError.disconnected back)) ↦
        ret (self, some (err (SendError.send_error back)))
    | some (err (TrySendError.full back)) ↦
        wait_for_space sh ladder >>= λ ladder. send_loop sh n claims ladder self back
  ]

  -- How the loop of `send` goes on after an attempt, given its later attempts.
  after_attempt-Produces :
      (n claims : ℕ) (v : T) (ladder : Idle)
      → ((ladder : Idle) (self : Sender) (p : Push T)
          → IsSender self p
          → Produces sh.cap (SendDone v) (send_loop sh n claims ladder self v) p [])
      → (a : Sender × Option (Result (Unit {0}) (TrySendError T))) (p : Push T) (out : List (ℕ × T))
      → Sends.After T is v a p out
      → Produces sh.cap (SendDone v) (after_attempt n claims ladder a) p out
  after_attempt-Produces n claims v ladder rest (self, none) p out h = h
  after_attempt-Produces n claims v ladder rest (self, some (ok _)) p out h = h
  after_attempt-Produces n claims v ladder rest (self, some (err (TrySendError.disconnected back)))
        p out h =
      h
  after_attempt-Produces n claims v ladder rest (self, some (err (TrySendError.full back))) p out
        (s, (same, e)) =
      rw (same, e)
        (Produces-bind sh.cap (Waited self) (SendDone v) (wait_for_space sh ladder)
          (λ ladder. send_loop sh n claims ladder self v) p []
          (wait_for_space-Produces self ladder p s)
          (λ ladder p out (s, e). rw e (rest ladder self p s)))

  send_loop-Produces :
      (n claims : ℕ) (v : T) (ladder : Idle) (self : Sender) (p : Push T)
      → IsSender self p
      → Produces sh.cap (SendDone v) (send_loop sh n claims ladder self v) p []
  unfolding send_loop
  send_loop-Produces zero claims v ladder self p s = (s, refl)
  send_loop-Produces (suc n) claims v ladder self p s =
      Produces-bind sh.cap (Sends.After T is v) (SendDone v) (try_send sh claims self v)
        (after_attempt n claims ladder) p [] (try_send-Produces T is claims v self p s)
        (after_attempt-Produces n claims v ladder (send_loop-Produces n claims v))

  pub send-Produces :
      (n claims : ℕ) (v : T) (self : Sender) (p : Push T)
      → IsSender self p
      → Produces sh.cap (SendDone v) (send sh n claims self v) p []
  unfolding send
  send-Produces n claims v self p s =
      send_loop-Produces n claims v (for_strategy sh.strategy) self p s

-- A sender that has just been cloned accounts for itself and for the new sender.
abbrev pub Cloned : {T : Type 0} → Sender × Sender → Push T → List (ℕ × T) → Type 0
Cloned (self, new) p out =
    (self.cached_head ≤ p.known)
    × (new.cached_head ≡ 0)
    × (p.pending ≡ none_pending)
    × (p.live ≡ 2)
    × (out ≡ [])

abbrev pub HungUp : {T : Type 0} → Unit {0} → Push T → List (ℕ × T) → Type 0
HungUp _ p out = (p.pending ≡ none_pending) × (p.live ≡ 0) × (out ≡ [])

module _ (T : Type 0) (cap : ℕ) (self : Sender) (p : Push T) (s : IsSender self p) where
  pub clone-Produces : Produces cap Cloned (clone self) p []
  unfolding clone
  clone-Produces = (s.live, (s.cached, refl, s.idle, refl, refl))

  pub drop_sender-Produces : Produces cap HungUp drop_sender p []
  unfolding drop_sender
  drop_sender-Produces = (
    s.live,
    s.idle,
    refl,
    refl,
    λ b. elim (Bool-cases (b == 1)) [
      | inl e ↦ rw e (s.idle, refl, refl)
      | inr e ↦ rw e (s.idle, refl, refl)
    ],
  )
