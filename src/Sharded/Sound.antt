-- ===== src/Sharded/Sound.antt =====
-- What holds of every state that the threads of src/sharded.rs reach: the shards are rings of
-- src/spsc.rs in states that these reach, and the consumer's program keeps to the rule for what it
-- knows of them.
use ultima_rings.Base.{
  ℕ, ◌<◌, ◌≡◌, ◌≢◌, refl, sym, subst, ap, ◌∙◌, true, false, none, some, ◌==◌, update, update_ne,
  arith, Bool-cases, inl, inr,
}
use ultima_rings.Channel.{Result, ok, err, TryRecvError}
use ultima_rings.Program.{act, ret}
use ultima_rings.Spsc.Config.{IsConfig}
use ultima_rings.Spsc.Defs.{Config}
use ultima_rings.Spsc.Safety.{try_recv_outcome}
use ultima_rings.Spsc.Sound.{Reach-Sound, receiver_at}
use ultima_rings.Spsc.System
use ultima_rings.Spsc.System.{System, SendThread, RecvThread}
use ultima_rings.Wait.{is_park}
use ultima_rings.Sharded.{Call, Code, Received, try_send, send}
use ultima_rings.Sharded.Stay.{IsDone, IsLast, Inside-IsDone, Inside-IsLast}
use ultima_rings.Sharded.Threads.{
  begun, RecvCall, RecvResult, recv_code, Consumer, after, Threads, left, Step, init, Reach, start,
  later,
}
use ultima_rings.Sharded.Visits.{
  Known, nothing, Visits, IsAt, Tried, Waited, Drained, try_recv-Visits,
}
use ultima_rings.Sharded.Visits.Calls.{recv-Visits, drain-Visits}

abbrev pub Post : {T : Type 0} → ℕ → (call : RecvCall) → RecvResult T call → Known T → Type 0
Post n RecvCall.try_receiving = Tried n
Post n (RecvCall.receiving _) = Waited n
Post n (RecvCall.draining _) = Drained n

recv_code-Visits :
    (T : Type 0) (n : ℕ) (self : _) (call : RecvCall)
    → IsAt n self
    → Visits {T = T} n (Post n call) (recv_code self call) nothing
unfolding recv_code
recv_code-Visits T n self RecvCall.try_receiving at = try_recv-Visits n self nothing at
recv_code-Visits T n self (RecvCall.receiving attempts) at = recv-Visits n attempts self nothing at
recv_code-Visits T n self (RecvCall.draining max) at = drain-Visits n max self nothing at

after-IsAt :
    {T : Type 0} (n : ℕ) (call : RecvCall) (a : RecvResult T call) (kn : Known T)
    → Post n call a kn
    → IsAt n (after T call a)
after-IsAt n RecvCall.try_receiving (self, ok v) kn h = h.0
after-IsAt n RecvCall.try_receiving (self, err TryRecvError.disconnected) kn h = h.0
after-IsAt n RecvCall.try_receiving (self, err TryRecvError.empty) kn h = h
after-IsAt n (RecvCall.receiving _) (self, Received.returned (ok v)) kn h = h.0
after-IsAt n (RecvCall.receiving _) (self, Received.returned (err _)) kn h = h.0
after-IsAt n (RecvCall.receiving _) (self, Received.waiting) kn h = h
after-IsAt n (RecvCall.receiving _) (self, Received.panicked) kn h = absurd h
after-IsAt n (RecvCall.draining _) (self, o) kn h = h

pub record Knows {T : Type 0} (shards : ℕ → System T) (kn : Known T) : Type 0 where
  pub done : (l : ℕ) → kn.done l ≡ true → IsDone (shards l)
  pub last : (i : ℕ) (v : T) → kn.last ≡ some (i, v) → IsLast (shards i) v

Knows-nothing : {T : Type 0} (shards : ℕ → System T) → Knows shards nothing
Knows-nothing shards = record { done = λ l h. ground (arith, h); last = λ i v h. ground (arith, h) }

-- One shard has moved.
Knows-update :
    {T : Type 0} (shards : ℕ → System T) (i : ℕ) (s : System T) (kn' : Known T)
    → ((l : ℕ) → l ≢ i → kn'.done l ≡ true → IsDone (shards l))
    → (kn'.done i ≡ true → IsDone s)
    → ((l : ℕ) (v : T) → l ≢ i → kn'.last ≡ some (l, v) → IsLast (shards l) v)
    → ((v : T) → kn'.last ≡ some (i, v) → IsLast s v)
    → Knows (update shards i s) kn'
Knows-update shards i s kn' others here others' here' = record {
  done = λ l h. elim (Bool-cases (l == i)) [
    | inl e ↦
        (let same : l ≡ i = ground (arith, e) in
          rw e (here (subst (λ l. kn'.done l ≡ true) same h)))
    | inr e ↦ rw e (others l (λ same. ground (arith, same, e)) h)
  ];
  last = λ l v h. elim (Bool-cases (l == i)) [
    | inl e ↦
        (let same : l ≡ i = ground (arith, e) in
          rw e (here' v (subst (λ l. kn'.last ≡ some (l, v)) same h)))
    | inr e ↦ rw e (others' l v (λ same. ground (arith, same, e)) h)
  ];
}

abbrev pub ConsumerOk : {T : Type 0} → ℕ → (ℕ → System T) → Consumer T → Type 0
ConsumerOk n shards (Consumer.idle self) = IsAt n self
ConsumerOk {T} n shards (Consumer.busy call code) =
    (kn : Known T) × Knows shards kn × Visits n (Post n call) code kn
ConsumerOk n shards Consumer.gone = Unit

pub record Sound {T : Type 0} (n : ℕ) (sh : Config) (y : Threads T) : Type 0 where
  pub rings : (i : ℕ) → System.Reach sh (y.shards i)
  pub consumer_ok : ConsumerOk n y.shards y.consumer

rings-update :
    {T : Type 0} {sh : Config} (shards : ℕ → System T) (i : ℕ) {s : System T}
    → ((i : ℕ) → System.Reach sh (shards i))
    → System.Step sh (shards i) s
    → (j : ℕ) → System.Reach sh (update shards i s j)
rings-update shards i h step j = elim (Bool-cases (j == i)) [
  | inl e ↦ rw e (System.Reach.later (h i) step)
  | inr e ↦ rw e (h j)
]

-- A shard moves while the consumer is elsewhere, or idle.
stays :
    {T : Type 0} (n : ℕ) (shards : ℕ → System T) (c : Consumer T) (i : ℕ) (s : System T)
    → (IsDone (shards i) → IsDone s)
    → ((v : T) → IsLast (shards i) v → IsLast s v)
    → ConsumerOk n shards c
    → ConsumerOk n (update shards i s) c
stays n shards (Consumer.idle self) i s done last at = at
stays n shards (Consumer.busy call code) i s done last (kn, knows, rule) = (
  kn,
  Knows-update shards i s kn (λ l _ h. knows.done l h) (λ h. done (knows.done i h))
      (λ l v _ h. knows.last l v h) (λ v h. last v (knows.last i v h)),
  rule,
)
stays n shards Consumer.gone i s done last _ = tt

pub consumer_at :
    {T : Type 0} {sh : Config} {n : ℕ} {y : Threads T} {c : Consumer T} (d : Sound n sh y)
    → y.consumer ≡ c
    → ConsumerOk n y.shards c
consumer_at {n = n} {y = y} d e = subst (ConsumerOk n y.shards) e d.consumer_ok

module _ {T : Type 0} {sh : Config} (is : IsConfig sh) where
  -- What the return from a shard's `try_recv` shows of it.
  returned-IsDone :
      (s : System T) (began : ℕ) (self : _)
      → System.Reach sh s
      → s.receiver
        ≡ RecvThread.busy System.RecvCall.try_receiving began
            (ret (self, err TryRecvError.disconnected))
      → IsDone (left s self)
  returned-IsDone s began self reach e =
      let d = Reach-Sound is reach in
      let (nothing, complete, all) = (receiver_at is d e).rule.1 in
      record {
        closed = d.inv.knows.closed complete;
        all = (try_recv_outcome is reach began self (err TryRecvError.disconnected) e).1;
        there = (self, refl);
      }

  returned-IsLast :
      (s : System T) (began : ℕ) (self : _) (v : T)
      → System.Reach sh s
      → s.receiver ≡ RecvThread.busy System.RecvCall.try_receiving began (ret (self, ok v))
      → IsLast (left s self) v
  returned-IsLast s began self v reach e =
      let (before, _, last) = try_recv_outcome is reach began self (ok v) e in
      record { before = before; last = last; there = (self, refl) }

  -- What the consumer knows once it has returned from the shard `i`.
  answered :
      (n : ℕ) (shards : ℕ → System T) (i began : ℕ) (self : _) (r : Result T TryRecvError)
      (call : RecvCall) (k : Result T TryRecvError → Code T (RecvResult T call)) (kn : Known T)
      → System.Reach sh (shards i)
      → (shards i).receiver ≡ RecvThread.busy System.RecvCall.try_receiving began (ret (self, r))
      → Knows shards kn
      → Visits n (Post n call) (act (Call.try_recv_shard i) k) kn
      → ConsumerOk n (update shards i (left (shards i) self)) (Consumer.busy call (k r))
  answered n shards i began self (ok v) call k kn reach e knows
        (done, within, inside, out, found, _, _) =
      (
        _,
        Knows-update shards i _ _ (λ l _ h. knows.done l (within l h))
            (λ h. absurd (ground (arith, h, out))) (λ l w ne h. absurd (ne (ground (arith, h))))
            (λ w h.
              let same : v ≡ w = ap (λ o. elim o [ none ↦ v | some p ↦ p.1 ]) h in
              subst (IsLast (left (shards i) self)) same
                (returned-IsLast (shards i) began self v reach e)),
        found v,
      )
  answered n shards i began self (err TryRecvError.disconnected) call k kn reach e knows
        (done, within, inside, out, _, gone, _) =
      (
        _,
        Knows-update shards i _ _
            (λ l ne h. knows.done l (within l (sym (update_ne done i l true ne) ∙ h)))
            (λ h. returned-IsDone _ began self reach e) (λ l w ne h. ground (arith, h))
            (λ w h. ground (arith, h)),
        gone,
      )
  answered n shards i began self (err TryRecvError.empty) call k kn reach e knows
        (done, within, inside, out, _, _, empty) =
      (
        _,
        Knows-update shards i _ _ (λ l _ h. knows.done l (within l h))
            (λ h. absurd (ground (arith, h, out))) (λ l w ne h. ground (arith, h))
            (λ w h. ground (arith, h)),
        empty,
      )

  -- What the consumer still knows when it begins to visit a shard.
  visiting :
      (n : ℕ) (shards : ℕ → System T) (i : ℕ) (s : System T) (call : RecvCall)
      (k : Result T TryRecvError → Code T (RecvResult T call)) (kn : Known T)
      → Knows shards kn
      → Visits n (Post n call) (act (Call.try_recv_shard i) k) kn
      → ConsumerOk n (update shards i s) (Consumer.busy call (act (Call.try_recv_shard i) k))
  visiting n shards i s call k kn knows (done, within, inside, out, found, gone, empty) = (
    record { done = done; last = none },
    Knows-update shards i s _ (λ l _ h. knows.done l (within l h))
        (λ h. absurd (ground (arith, h, out))) (λ l w ne h. ground (arith, h))
        (λ w h. ground (arith, h)),
    (done, (λ l h. h), inside, out, found, gone, empty),
  )

  -- A producer begins a call.
  begins :
      (n : ℕ) (y : Threads T) (i : ℕ) (self : _) (call : System.SendCall T)
      → Sound n sh y
      → (y.shards i).sender ≡ SendThread.idle self
      → Sound n sh (record y {
        shards = update y.shards i (begun (y.shards i) call (System.send_code sh self call));
      })
  begins n y i self call d e = record {
    rings = rings-update y.shards i d.rings (System.call_send self call e refl);
    consumer_ok =
        stays n y.shards y.consumer i _
          (λ h. record { closed = h.closed; all = h.all; there = h.there })
          (λ v h. record { before = h.before; last = h.last; there = h.there }) d.consumer_ok;
  }

  Sound-Step : {n : ℕ} {y z : Threads T} → Sound n sh y → Step sh y z → Sound n sh z
  unfolding try_send send
  Sound-Step {n} {y} d (Step.call_try_send i self v e ez) =
      rw ez (begins n y i self.inner (System.SendCall.try_sending v) d e)
  Sound-Step {n} {y} d (Step.call_send i attempts self v e ez) =
      rw ez (begins n y i self.inner (System.SendCall.sending attempts v) d e)
  Sound-Step {n} {y} d (Step.drop_sender i self e ez) =
      rw ez (begins n y i self.inner System.SendCall.dropping d e)
  Sound-Step {n} {y} d (Step.shard i s step inside ez) = rw ez (record {
    rings = rings-update y.shards i d.rings step;
    consumer_ok =
        stays n y.shards y.consumer i s (Inside-IsDone is (y.shards i) s (d.rings i) step inside)
          (λ v. Inside-IsLast is (y.shards i) s v (d.rings i) step inside) d.consumer_ok;
  })
  Sound-Step {n} {y} d (Step.call self call e ez) = rw ez (record {
    rings = d.rings;
    consumer_ok =
        (nothing, Knows-nothing y.shards, recv_code-Visits T n self call (consumer_at d e));
  })
  Sound-Step {n} {y} d (Step.enter_try_recv call i k self e there ez) =
      let (kn, knows, rule) = consumer_at d e in
      rw ez (record {
        rings =
            rings-update y.shards i d.rings
              (System.call_recv self System.RecvCall.try_receiving there refl);
        consumer_ok = subst (ConsumerOk n _) (sym e) (visiting n y.shards i _ call k kn knows rule);
      })
  Sound-Step {n} {y} d (Step.leave_try_recv call i k began self r e there ez) =
      let (kn, knows, rule) = consumer_at d e in
      rw ez (record {
        rings =
            rings-update y.shards i d.rings
              (System.return_recv System.RecvCall.try_receiving began (self, r) there refl);
        consumer_ok = answered n y.shards i began self r call k kn (d.rings i) there knows rule;
      })
  Sound-Step {n} {y} d (Step.enter_drain call i want k self e there ez) =
      let (kn, knows, rule) = consumer_at d e in
      rw ez (record {
        rings =
            rings-update y.shards i d.rings
              (System.call_recv self (System.RecvCall.draining want) there refl);
        consumer_ok = subst (ConsumerOk n _) (sym e) (nothing, Knows-nothing _, rule);
      })
  Sound-Step {n} {y} d (Step.leave_drain call i want k began self r e there ez) =
      let (kn, knows, rule) = consumer_at d e in
      rw ez (record {
        rings =
            rings-update y.shards i d.rings
              (System.return_recv (System.RecvCall.draining want) began (self, r) there refl);
        consumer_ok = (nothing, Knows-nothing _, rule.1 r);
      })
  Sound-Step {n} {y} d (Step.pause call p k e ez) =
      rw ez (record { rings = d.rings; consumer_ok = consumer_at d e })
  Sound-Step {n} {y} d (Step.return call a e ez) =
      let (kn, knows, rule) = consumer_at d e in
      rw ez (record { rings = d.rings; consumer_ok = after-IsAt n call a kn rule })
  Sound-Step {n} {y} d (Step.drop self e ez) = rw ez (record { rings = d.rings; consumer_ok = tt })
  Sound-Step {n} {y} d (Step.drop_shard i self e there ez) = rw ez (record {
    rings =
        rings-update y.shards i d.rings (System.call_recv self System.RecvCall.dropping there refl);
    consumer_ok = subst (ConsumerOk n _) (sym e) tt;
  })

  Sound-init : {n : ℕ} → 0 < n → is_park sh.strategy ≡ false → Sound {T = T} n sh (init n sh)
  unfolding init
  Sound-init {n} some_shards awake = record {
    rings = λ _. System.Reach.start refl;
    consumer_ok = (refl, some_shards, awake);
  }

  pub threads-Sound :
      {n : ℕ} {y : Threads T} → 0 < n → is_park sh.strategy ≡ false → Reach n sh y → Sound n sh y
  threads-Sound h awake (start e) = rw e (Sound-init h awake)
  threads-Sound h awake (later reach step) = Sound-Step (threads-Sound h awake reach) step
