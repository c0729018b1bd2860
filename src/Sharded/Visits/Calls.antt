-- ===== src/Sharded/Visits/Calls.antt =====
-- `recv` and `drain` of the consumer of src/sharded.rs keep to the rule.
use ultima_rings.Base.{
  ℕ, zero, suc, ◌+◌, ◌-◌, ◌≡◌, inl, inr, false, Option, none, some, if◌then◌else◌, leb, ◌==◌, arith,
  Bool-cases,
}
use ultima_rings.Channel.{Result, ok, err, TryRecvError, RecvError}
use ultima_rings.Program.{ret, ◌>>=◌}
use ultima_rings.Wait.{is_park, WaitStrategy, Idle, for_strategy}
use ultima_rings.Sharded.{
  Receiver, Code, Received, advance, try_recv, drain_loop, drain, wait_for_item, recv_loop, recv,
}
use ultima_rings.Sharded.Visits.{
  Known, nothing, Visits, Visits-bind, IsAt, Tried, Waited, Drained, advance-IsAt, try_recv-Visits,
}

abbrev Some : Option Idle → Type 0
Some none = ⊥
Some (some _) = Unit

wait-Visits :
    {T : Type 0} (n : ℕ) (Q : Option Idle → Known T → Type 0) (strategy : WaitStrategy)
    (ladder : Idle) (kn : Known T)
    → is_park strategy ≡ false
    → ((o : Idle) → Q (some o) kn)
    → Visits n Q (wait_for_item strategy ladder) kn
unfolding wait_for_item
wait-Visits n Q WaitStrategy.busy_spin ladder kn awake h = h _
wait-Visits n Q WaitStrategy.backoff ladder kn awake h = h _
wait-Visits n Q WaitStrategy.backoff_yield ladder kn awake h = h _
wait-Visits n Q WaitStrategy.park ladder kn awake h = absurd (ground (arith, awake))

-- How an attempt of `recv` goes on, if its further attempts keep to the rule.
recv_rest-Visits :
    {T : Type 0} (n attempts : ℕ) (ladder : Idle) (self : Receiver) (r : Result T TryRecvError)
    (kn : Known T)
    → ((ladder : Idle) (self : Receiver) (kn : Known T)
        → IsAt n self
        → Visits n (Waited n) (recv_loop attempts ladder self) kn)
    → Tried n (self, r) kn
    → Visits n
        (Waited n)
        (elim r [
          | ok v ↦ ret (self, Received.returned (ok v))
          | err TryRecvError.disconnected ↦ ret (self, Received.returned (err RecvError.recv_error))
          | err TryRecvError.empty ↦ (do
            ladder ← wait_for_item self.strategy ladder
            elim ladder [
              | none ↦ ret (self, Received.panicked)
              | some ladder ↦ recv_loop attempts ladder self
            ])
        ])
        kn
recv_rest-Visits n attempts ladder self (ok v) kn loop h = h
recv_rest-Visits n attempts ladder self (err TryRecvError.disconnected) kn loop h = h
recv_rest-Visits {T = T} n attempts ladder self (err TryRecvError.empty) kn loop h =
    Visits-bind n (λ o _. Some o) (Waited n) (wait_for_item self.strategy ladder) _ kn
      (wait-Visits n _ self.strategy ladder kn h.2 (λ _. tt)) waited
  where
    waited :
        (o : Option Idle) (kn : Known T)
        → Some o
        → Visits n
            (Waited n)
            (elim o as (λ _. Code T (Receiver × Received T)) [
              | none ↦ ret (self, Received.panicked)
              | some ladder ↦ recv_loop attempts ladder self
            ])
            kn
    waited none kn there = absurd there
    waited (some ladder) kn _ = loop ladder self kn h

recv_loop-Visits :
    {T : Type 0} (n attempts : ℕ) (ladder : Idle) (self : Receiver) (kn : Known T)
    → IsAt n self
    → Visits n (Waited n) (recv_loop attempts ladder self) kn
unfolding recv_loop
recv_loop-Visits n zero ladder self kn at = at
recv_loop-Visits n (suc attempts) ladder self kn at =
    Visits-bind n (Tried n) (Waited n) (try_recv self) _ kn (try_recv-Visits n self kn at)
      (λ (self, r) kn h.
        recv_rest-Visits n attempts ladder self r kn (recv_loop-Visits n attempts) h)

pub recv-Visits :
    {T : Type 0} (n attempts : ℕ) (self : Receiver) (kn : Known T)
    → IsAt n self
    → Visits n (Waited n) (recv attempts self) kn
unfolding recv
recv-Visits n attempts self kn at =
    recv_loop-Visits n attempts (for_strategy self.strategy) self kn at

drain_loop-Visits :
    {T : Type 0} (n left max : ℕ) (self : Receiver) (count : ℕ) (kn : Known T)
    → IsAt n self
    → Visits n (Drained n) (drain_loop left max self count) kn
unfolding drain_loop
drain_loop-Visits n zero max self count kn at = at
drain_loop-Visits {T = T} n (suc left) max self count kn at = elim (Bool-cases (leb max count)) [
  | inl e ↦ rw e at
  | inr e ↦ rw e (
    at.1,
    (drained (λ took.
        drain_loop-Visits n left max (advance self) (count + took) nothing
          (advance-IsAt n self at))),
  )
]
  where
    drained :
        ((took : ℕ)
          → Visits {T = T} n
              (Drained n)
              (drain_loop left max (advance self) (count + took))
              nothing)
        → (o : Option ℕ)
        → Visits {T = T} n
            (Drained n)
            (elim o as (λ _. Code T (Receiver × Option ℕ)) [
              | none ↦ ret (self, none)
              | some took ↦
                  if took == max - count
                  then ret (self, some (count + took))
                  else drain_loop left max (advance self) (count + took)
            ])
            nothing
    drained loop none = at
    drained loop (some took) = elim (Bool-cases (took == max - count)) [
      | inl f ↦ rw f at
      | inr f ↦ rw f (loop took)
    ]

pub drain-Visits :
    {T : Type 0} (n max : ℕ) (self : Receiver) (kn : Known T)
    → IsAt n self
    → Visits n (Drained n) (drain self max) kn
unfolding drain
drain-Visits n max self kn at = drain_loop-Visits n self.shards max self 0 kn at
