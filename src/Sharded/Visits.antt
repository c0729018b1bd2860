-- ===== src/Sharded/Visits.antt =====
-- What the consumer's programs of src/sharded.rs know of the shards, as a rule on programs: which
-- shards they have found done since, and the last value that they were handed.
pub mod Calls
use ultima_rings.Base.{
  ℕ, zero, suc, ◌+◌, ◌-◌, ◌<◌, ◌≡◌, ◌⊎◌, inl, inr, refl, sym, ◌∙◌, subst, Bool, true, false, ◌&&◌,
  ◌||◌, Option, none, some, if◌then◌else◌, ltb, leb, ◌==◌, update, update_self, arith, Bool-cases,
}
use ultima_rings.Channel.{Result, ok, err, TryRecvError, RecvError}
use ultima_rings.Program.{act, ret, ◌>>=◌}
use ultima_rings.Wait.{is_park, WaitStrategy, Idle, for_strategy}
use ultima_rings.Sharded.{
  Receiver, Call, Code, Received, advance, sweep, try_recv, drain_loop, drain, wait_for_item,
  recv_loop, recv, visit_budget,
}

pub record Known (T : Type 0) : Type 0 where
  pub done : ℕ → Bool
  pub last : Option (ℕ × T)

abbrev pub nothing : {T : Type 0} → Known T
nothing = record { done = λ _. false; last = none }

abbrev pub IsWithin : (ℕ → Bool) → (ℕ → Bool) → Type 0
IsWithin f g = (l : ℕ) → f l ≡ true → g l ≡ true

module _ {T A : Type 0} where
  -- Before it visits a shard a program forgets that this one is done.
  abbrev pub Visits : ℕ → (A → Known T → Type 0) → Code T A → Known T → Type 0
  Visits n Q (ret a) kn = Q a kn
  Visits n Q (act (Call.try_recv_shard i) k) kn =
      (done : ℕ → Bool) × IsWithin done kn.done
      × (i < n)
      × (done i ≡ false)
      × ((v : T) → Visits n Q (k (ok v)) (record { done = done; last = some (i, v) }))
      × Visits n Q (k (err TryRecvError.disconnected))
          (record { done = update done i true; last = none })
      × Visits n Q (k (err TryRecvError.empty)) (record { done = done; last = none })
  Visits n Q (act (Call.drain_shard i want) k) kn =
      (i < n) × ((o : Option ℕ) → Visits n Q (k o) nothing)
  Visits n Q (act (Call.pause p) k) kn = Visits n Q (k tt) kn

pub Visits-bind :
    {T A B : Type 0} (n : ℕ) (Q : A → Known T → Type 0) (R : B → Known T → Type 0) (m : Code T A)
    (f : A → Code T B) (kn : Known T)
    → Visits n Q m kn
    → ((a : A) (kn : Known T) → Q a kn → Visits n R (f a) kn)
    → Visits n R (m >>= f) kn
Visits-bind n Q R (ret a) f kn rule h = h a kn rule
Visits-bind n Q R (act (Call.try_recv_shard i) k) f kn
      (done, within, inside, out, found, gone, empty) h =
    (
      done,
      within,
      inside,
      out,
      λ v. Visits-bind n Q R (k (ok v)) f _ (found v) h,
      Visits-bind n Q R (k (err TryRecvError.disconnected)) f _ gone h,
      Visits-bind n Q R (k (err TryRecvError.empty)) f _ empty h,
    )
Visits-bind n Q R (act (Call.drain_shard i want) k) f kn (inside, rule) h =
    (inside, λ o. Visits-bind n Q R (k o) f _ (rule o) h)
Visits-bind n Q R (act (Call.pause p) k) f kn rule h = Visits-bind n Q R (k tt) f kn rule h

abbrev pub IsAt : ℕ → Receiver → Type 0
IsAt n self = (self.shards ≡ n) × (self.cursor < n) × (is_park self.strategy ≡ false)

-- What `try_recv` and `recv` return: the value of the shard at the cursor, or a disconnection if every
-- shard is done.
abbrev pub Tried : {T : Type 0} → ℕ → Receiver × Result T TryRecvError → Known T → Type 0
Tried n (self, ok v) kn = IsAt n self × (kn.last ≡ some (self.cursor, v))
Tried n (self, err TryRecvError.disconnected) kn =
    IsAt n self × ((l : ℕ) → l < n → kn.done l ≡ true)
Tried n (self, err TryRecvError.empty) kn = IsAt n self

abbrev pub Waited : {T : Type 0} → ℕ → Receiver × Received T → Known T → Type 0
Waited n (self, Received.returned (ok v)) kn = IsAt n self × (kn.last ≡ some (self.cursor, v))
Waited n (self, Received.returned (err _)) kn = IsAt n self × ((l : ℕ) → l < n → kn.done l ≡ true)
Waited n (self, Received.waiting) kn = IsAt n self
Waited n (self, Received.panicked) kn = ⊥

abbrev pub Drained : {T : Type 0} → ℕ → Receiver × Option ℕ → Known T → Type 0
Drained n (self, o) kn = IsAt n self

pub advance-IsAt : (n : ℕ) (self : Receiver) → IsAt n self → IsAt n (advance self)
unfolding advance
advance-IsAt n self (size, inside, awake) = (size, ground (arith, size, inside), awake)

module _ (n from : ℕ) where
  -- The shard of visit `j` of a sweep that starts at the shard `from`, and whether a shard has been
  -- visited before.
  abbrev place : ℕ → ℕ
  place j = if leb n (from + j) then from + j - n else from + j

  abbrev seen : ℕ → ℕ → Bool
  seen j l = leb from l && ltb l (from + j) || ltb (l + n) (from + j)

  Tally : {T : Type 0} → ℕ → ℕ → Known T → Type 0
  Tally j d kn = ((d ≡ j) × ((l : ℕ) → l < n → seen j l ≡ true → kn.done l ≡ true)) ⊎ (d < j)

  sweep-Visits :
      {T : Type 0} (left d j : ℕ) (self : Receiver) (kn : Known T)
      → from < n
      → j + left ≡ n
      → self.shards ≡ n
      → self.cursor ≡ place j
      → is_park self.strategy ≡ false
      → Tally j d kn
      → Visits n (Tried n) (sweep left self d) kn
  unfolding sweep Tally advance
  sweep-Visits zero d j self kn inside whole size at awake (inl (e, all)) =
      let full : (d == self.shards) ≡ true = ground (arith, whole) in
      rw full ((size, ground (arith, at), awake), λ l h. all l h (ground (arith, h)))
  sweep-Visits zero d j self kn inside whole size at awake (inr lt) =
      let short : (d == self.shards) ≡ false = ground (arith, whole) in
      rw short (size, ground (arith, at), awake)
  sweep-Visits (suc left) d j self kn inside whole size at awake tally =
      let next : (advance self).cursor ≡ place (suc j) = ground (arith, at, size, whole) in
      elim tally [
        | inl (e, all) ↦ (
          (λ l. seen j l && ltb l n),
          (λ l h. all l (ground (arith, h)) (ground (arith, h))),
          ground (arith, at, whole),
          rw at (ground (arith, whole)),
          (λ v. ((size, ground (arith, at, whole), awake), refl)),
          sweep-Visits left (d + 1) (suc j) (advance self) _ inside (omega arith) size next awake
              (inl (omega arith, λ l h s. ground (arith, at, h, s))),
          sweep-Visits left d (suc j) (advance self) _ inside (omega arith) size next awake
              (inr (omega arith)),
        )
        | inr lt ↦ (
          (λ l. false),
          (λ l h. ground (arith, h)),
          ground (arith, at, whole),
          refl,
          (λ v. ((size, ground (arith, at, whole), awake), refl)),
          sweep-Visits left (d + 1) (suc j) (advance self) _ inside (omega arith) size next awake
              (inr (omega arith)),
          sweep-Visits left d (suc j) (advance self) _ inside (omega arith) size next awake
              (inr (omega arith)),
        )
      ]

from_here-Visits :
    {T : Type 0} (n : ℕ) (self : Receiver) (kn : Known T)
    → IsAt n self
    → Visits n (Tried n) (sweep self.shards self 0) kn
unfolding Tally
from_here-Visits n self kn (size, inside, awake) =
    subst (λ m. Visits n (Tried n) (sweep m self 0) kn) (sym size)
      (sweep-Visits n self.cursor n 0 0 self kn inside (omega arith) size (ground (arith, inside))
        awake (inl (refl, λ l h s. ground (arith, s, inside))))

pub try_recv-Visits :
    {T : Type 0} (n : ℕ) (self : Receiver) (kn : Known T)
    → IsAt n self
    → Visits n (Tried n) (try_recv self) kn
unfolding try_recv
try_recv-Visits n self kn at = elim (Bool-cases (leb visit_budget self.budget)) [
  | inl e ↦ rw e (from_here-Visits n (advance self) kn (advance-IsAt n self at))
  | inr e ↦ rw e (from_here-Visits n self kn at)
]
