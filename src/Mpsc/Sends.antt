-- ===== src/Mpsc/Sends.antt =====
-- The sender's methods of src/mpsc.rs keep to the producer's rules, and what they return.
use ultima_rings.Base.{
  ℕ, zero, suc, ◌+◌, ◌*◌, ◌≤◌, ◌<◌, ◌≡◌, refl, sym, subst, min, max, true, false, Bool, Option,
  none, some, List, [], ◌∷◌, arith, usize_max, add_usize, Bool-cases, inl, inr, if◌then◌else◌,
}
use ultima_rings.Channel.{Result, ok, err, TrySendError, SendError}
use ultima_rings.Program.{ret, ◌>>=◌, ◌>>◌, relaxed}
use ultima_rings.Wait.{is_park}
use ultima_rings.Mpsc.Config.{IsConfig, slot_index, round-div}
use ultima_rings.Mpsc.Defs.{Config, Sender, Code, get, is_full, compare_exchange_weak}
use ultima_rings.Mpsc.Rules.{Push, Produces}
use ultima_rings.Mpsc.Rules.Bind.{Produces-bind}
use ultima_rings.Mpsc.SenderOps.{claim_backoff_max, spin, check_full, claim_loop, publish, try_send}
use ultima_rings.Mpsc.State.{none_pending, claiming}

-- A sender between calls: its cached head is a count of reads that it knows of, and it holds itself
-- only and has claimed nothing.
pub record IsSender {T : Type 0} (self : Sender) (p : Push T) : Type 0 where
  pub cached : self.cached_head ≤ p.known
  pub idle : p.pending ≡ none_pending
  pub live : p.live ≡ 1

-- What `try_send v` returns: `ok` with `v` published for one sequence and nothing else, or the value
-- handed back with nothing published. A sender that is still in the claim loop has published nothing.
abbrev pub TrySent :
    {T : Type 0} → T → Option (Result (Unit {0}) (TrySendError T)) → List (ℕ × T) → Type 0
TrySent v none out = out ≡ []
TrySent v (some (ok _)) out = (seq : ℕ) × (out ≡ (seq, v) ∷ [])
TrySent v (some (err (TrySendError.full back))) out = (back ≡ v) × (out ≡ [])
TrySent v (some (err (TrySendError.disconnected back))) out = (back ≡ v) × (out ≡ [])

abbrev pub Sent :
    {T : Type 0} → T → Option (Result (Unit {0}) (SendError T)) → List (ℕ × T) → Type 0
Sent v none out = out ≡ []
Sent v (some (ok _)) out = (seq : ℕ) × (out ≡ (seq, v) ∷ [])
Sent v (some (err (SendError.send_error back))) out = (back ≡ v) × (out ≡ [])

module _ (T : Type 0) {sh : Config} (is : IsConfig sh) where
  abbrev Checked : ℕ → Sender × Bool → Push T → List (ℕ × T) → Type 0
  Checked seq (self, full) p out =
      IsSender self p × (out ≡ []) × (full ≡ false → (seq < usize_max) × (seq < p.known + sh.cap))

  learn :
      {p : Push T} (h : ℕ)
      → (self : Sender) → IsSender self p
      → IsSender (record self { cached_head = h }) (record p { known = max p.known h })
  learn h self s = record { cached = omega arith; idle = s.idle; live = s.live }

  pub learn_only :
      {p : Push T} (h : ℕ)
      → (self : Sender) → IsSender self p
      → IsSender self (record p { known = max p.known h })
  learn_only h self s = record { cached = omega (arith, s.cached); idle = s.idle; live = s.live }

  check_full-Produces :
      (self : Sender) (seq : ℕ) (p : Push T)
      → IsSender self p
      → Produces sh.cap (Checked seq) (check_full sh self seq) p []
  unfolding check_full
  check_full-Produces self seq p s = elim (Bool-cases (is_full sh seq self.cached_head)) [
    | inl e ↦ rw e (λ h. (learn h self s, refl, λ f. ground arith))
    | inr e ↦ rw e (s, refl, λ _. ground (arith, s.cached))
  ]

  spin-Produces :
      {A : Type 0} (Q : A → Push T → List (ℕ × T) → Type 0) (n : ℕ) (m : Code T A) (p : Push T)
      (out : List (ℕ × T))
      → Produces sh.cap Q m p out
      → Produces sh.cap Q (spin n >> m) p out
  spin-Produces Q zero m p out h = h
  spin-Produces Q (suc n) m p out h = spin-Produces Q n m p out h

  abbrev Claimed : Sender × Option (Option ℕ) → Push T → List (ℕ × T) → Type 0
  Claimed (self, none) p out = IsSender self p × (out ≡ [])
  Claimed (self, some none) p out = IsSender self p × (out ≡ [])
  Claimed (self, some (some seq)) p out =
      (self.cached_head ≤ p.known)
      × (p.pending ≡ claiming seq)
      × (p.live ≡ 1)
      × (seq < usize_max)
      × (out ≡ [])

  -- The claim loop after its full test.
  abbrev after_check : ℕ → ℕ → ℕ → Sender × Bool → Code T (Sender × Option (Option ℕ))
  after_check n seq backoff (self, full) =
      if full
      then ret (self, some none)
      else (get (compare_exchange_weak relaxed relaxed seq (add_usize seq 1)) >>= λ result.
          elim result [
            | ok _ ↦ ret (self, some (some seq))
            | err cur ↦
                spin backoff >> claim_loop sh n self cur (min (backoff * 2) claim_backoff_max)
          ])

  attempt-Produces :
      (n seq backoff : ℕ)
      → ((self : Sender) (seq backoff : ℕ) (p : Push T)
          → IsSender self p
          → Produces sh.cap Claimed (claim_loop sh n self seq backoff) p [])
      → (a : Sender × Bool) (p : Push T) (out : List (ℕ × T)) → Checked seq a p out
      → Produces sh.cap Claimed (after_check n seq backoff a) p out
  attempt-Produces n seq backoff rest (self, true) p out (s, e, h) = (s, e)
  attempt-Produces n seq backoff rest (self, false) p out (s, e, h) =
      let (small, room) = h refl in
      (
        s.idle,
        omega (arith, s.live),
        omega arith,
        small,
        room,
        (s.cached, refl, s.live, small, e),
        λ c le.
            subst
              (Produces sh.cap Claimed
                (spin backoff >> claim_loop sh n self c (min (backoff * 2) claim_backoff_max)) p)
              (sym e)
              (spin-Produces Claimed backoff _ p []
                (rest self c (min (backoff * 2) claim_backoff_max) p s)),
      )

  claim_loop-Produces :
      (n : ℕ) (self : Sender) (seq backoff : ℕ) (p : Push T)
      → IsSender self p
      → Produces sh.cap Claimed (claim_loop sh n self seq backoff) p []
  unfolding claim_loop
  claim_loop-Produces zero self seq backoff p s = (s, refl)
  claim_loop-Produces (suc n) self seq backoff p s =
      Produces-bind sh.cap (Checked seq) Claimed (check_full sh self seq)
        (after_check n seq backoff) p [] (check_full-Produces self seq p s)
        (attempt-Produces n seq backoff (claim_loop-Produces n))

  abbrev pub After :
      T → Sender × Option (Result (Unit {0}) (TrySendError T)) → Push T → List (ℕ × T) → Type 0
  After v (self, r) p out = IsSender self p × TrySent v r out

  -- `try_send` after the claim loop.
  abbrev after_claim :
      T → Sender × Option (Option ℕ) → Code T (Sender × Option (Result (Unit {0}) (TrySendError T)))
  after_claim v (self, claimed) = elim claimed [
    | none ↦ ret (self, none)
    | some none ↦ ret (self, some (err (TrySendError.full v)))
    | some (some seq) ↦ publish sh seq v >> ret (self, some (ok tt))
  ]

  after_claim-Produces :
      (v : T) (a : Sender × Option (Option ℕ)) (p : Push T) (out : List (ℕ × T))
      → Claimed a p out
      → Produces sh.cap (After v) (after_claim v a) p out
  unfolding publish
  after_claim-Produces v (self, none) p out (s, e) = (s, e)
  after_claim-Produces v (self, some none) p out (s, e) = (s, (refl, e))
  after_claim-Produces v (self, some (some seq)) p out (cached, pending, live, small, e) =
      let index = slot_index is seq (omega arith) in
      let done : IsSender self (record p { pending = none_pending }) = record {
        cached = cached;
        idle = refl;
        live = live;
      } in
      rw e (
        seq,
        pending,
        index,
        (
          seq,
          v,
          refl,
          index,
          round-div is seq,
          refl,
          elim (Bool-cases (is_park sh.strategy)) [
            | inl b ↦ rw b (done, (seq, refl))
            | inr b ↦ rw b (done, (seq, refl))
          ],
        ),
      )

  pub try_send-Produces :
      (n : ℕ) (v : T) (self : Sender) (p : Push T)
      → IsSender self p
      → Produces sh.cap (After v) (try_send sh n self v) p []
  unfolding try_send
  try_send-Produces n v self p s true = (s, (refl, refl))
  try_send-Produces n v self p s false = λ c le.
      Produces-bind sh.cap Claimed (After v) (claim_loop sh n self c 1) (after_claim v) p []
        (claim_loop-Produces n self c 1 p s) (after_claim-Produces v)
