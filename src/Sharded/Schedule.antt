-- ===== src/Sharded/Schedule.antt =====
-- Reachable states of src/sharded.rs by evaluation: the threads take turns in a given order, and each
-- load reads the latest version.
use ultima_rings.Base.{ℕ, zero, suc, ◌≡◌, refl, Option, none, some, List, [], ◌∷◌}
use ultima_rings.Channel.{Result, TryRecvError}
use ultima_rings.Program.{ret, act}
use ultima_rings.Spsc.Defs
use ultima_rings.Spsc.Defs.{Config}
use ultima_rings.Spsc.State.{State, producer_access, consumer_access}
use ultima_rings.Spsc.System
use ultima_rings.Spsc.System.{System, SendCall, SendThread, RecvThread, SendResult}
use ultima_rings.Sharded.{Call, Code}
use ultima_rings.Sharded.Threads.{RecvCall, RecvResult, Consumer, Threads, Step, Reach, init}

-- A shard's producer sends a value, is dropped, or takes some steps; the consumer begins a call, or
-- takes some steps.
pub data Turn : Type 0 where
  sends : ℕ → ℕ → Turn
  drops : ℕ → Turn
  sender : ℕ → ℕ → Turn
  calls : RecvCall → Turn
  consumer : ℕ → Turn

abbrev Next : Config → Threads ℕ → Type 0
Next sh y = Option ((z : Threads ℕ) × Step sh y z)

module _ {sh : Config} where
  access_send :
      (y : Threads ℕ) (i : ℕ) (call : SendCall ℕ) (began : ℕ) (c : Defs.Access ℕ)
      (k : Defs.Reply c → Defs.Code ℕ (SendResult call))
      → (y.shards i).sender ≡ SendThread.busy call began (act c k)
      → (o : Option (Defs.Reply c × State ℕ))
      → producer_access (y.shards i).state.head.latest (y.shards i).state c ≡ o
      → Next sh y
  access_send y i call began c k e none f = none
  access_send y i call began c k e (some (r, s)) f =
      some (_, Step.shard i _ (System.access_send call began c k _ r s e f refl) tt refl)

  next_send : (y : Threads ℕ) (i : ℕ) (t : SendThread ℕ) → (y.shards i).sender ≡ t → Next sh y
  unfolding access_send
  next_send y i (SendThread.idle _) e = none
  next_send y i SendThread.gone e = none
  next_send y i (SendThread.busy call began (ret a)) e =
      some (_, Step.shard i _ (System.return_send call began a e refl) tt refl)
  next_send y i (SendThread.busy call began (act c k)) e = access_send y i call began c k e _ refl

  begin_send : (y : Threads ℕ) (i v : ℕ) (t : SendThread ℕ) → (y.shards i).sender ≡ t → Next sh y
  begin_send y i v (SendThread.idle self) e =
      some (_, Step.call_try_send i (record { inner = self }) v e refl)
  begin_send y i v _ e = none

  begin_drop : (y : Threads ℕ) (i : ℕ) (t : SendThread ℕ) → (y.shards i).sender ≡ t → Next sh y
  begin_drop y i (SendThread.idle self) e =
      some (_, Step.drop_sender i (record { inner = self }) e refl)
  begin_drop y i _ e = none

  access_recv :
      (y : Threads ℕ) (i : ℕ) (call : System.RecvCall ℕ) (began : ℕ) (c : Defs.Access ℕ)
      (k : Defs.Reply c → Defs.Code ℕ (System.RecvResult call))
      → (y.shards i).receiver ≡ RecvThread.busy call began (act c k)
      → (o : Option (Defs.Reply c × State ℕ))
      → consumer_access (y.shards i).state.tail.latest (y.shards i).state c ≡ o
      → Next sh y
  access_recv y i call began c k e none f = none
  access_recv y i call began c k e (some (r, s)) f =
      some (_, Step.shard i _ (System.access_recv call began c k _ r s e f refl) tt refl)

  visit :
      (y : Threads ℕ) (call : RecvCall) (i : ℕ)
      (k : Result ℕ TryRecvError → Code ℕ (RecvResult ℕ call))
      → y.consumer ≡ Consumer.busy call (act (Call.try_recv_shard i) k)
      → (t : RecvThread ℕ) → (y.shards i).receiver ≡ t
      → Next sh y
  unfolding access_recv
  visit y call i k e (RecvThread.idle self) f = some (_, Step.enter_try_recv call i k self e f refl)
  visit y call i k e (RecvThread.busy System.RecvCall.try_receiving began (ret (self, r))) f =
      some (_, Step.leave_try_recv call i k began self r e f refl)
  visit y call i k e (RecvThread.busy inner began (act c rest)) f =
      access_recv y i inner began c rest f _ refl
  visit y call i k e _ f = none

  next_recv : (y : Threads ℕ) (c : Consumer ℕ) → y.consumer ≡ c → Next sh y
  unfolding visit
  next_recv y (Consumer.idle self) e = none
  next_recv y Consumer.gone e = none
  next_recv y (Consumer.busy call (ret a)) e = some (_, Step.return call a e refl)
  next_recv y (Consumer.busy call (act (Call.try_recv_shard i) k)) e = visit y call i k e _ refl
  next_recv y (Consumer.busy call (act (Call.drain_shard i want) k)) e = none
  next_recv y (Consumer.busy call (act (Call.pause p) k)) e = some (_, Step.pause call p k e refl)

  begin_recv : (y : Threads ℕ) (c : Consumer ℕ) → y.consumer ≡ c → RecvCall → Next sh y
  begin_recv y (Consumer.idle self) e call = some (_, Step.call self call e refl)
  begin_recv y _ e call = none

pub record Run (n : ℕ) (sh : Config) : Type 0 where
  pub last : Threads ℕ
  pub reach : Reach n sh last

module _ {n : ℕ} {sh : Config} where
  go : (r : Run n sh) → Next sh r.last → Run n sh
  go r none = r
  go r (some (z, step)) = record { last = z; reach = Reach.later r.reach step }

  turn : Run n sh → Turn → Run n sh
  unfolding go next_send next_recv begin_send begin_drop begin_recv
  turn r (Turn.sends i v) = go r (begin_send r.last i v (r.last.shards i).sender refl)
  turn r (Turn.drops i) = go r (begin_drop r.last i (r.last.shards i).sender refl)
  turn r (Turn.sender i zero) = r
  turn r (Turn.sender i (suc m)) =
      turn (go r (next_send r.last i (r.last.shards i).sender refl)) (Turn.sender i m)
  turn r (Turn.calls call) = go r (begin_recv r.last r.last.consumer refl call)
  turn r (Turn.consumer zero) = r
  turn r (Turn.consumer (suc m)) =
      turn (go r (next_recv r.last r.last.consumer refl)) (Turn.consumer m)

  turns : Run n sh → List Turn → Run n sh
  unfolding turn
  turns r [] = r
  turns r (t ∷ ts) = turns (turn r t) ts

unfoldable pub run : (n : ℕ) (sh : Config) → List Turn → Run n sh
unfolding turns
run n sh ts = turns (record { last = init n sh; reach = Reach.start refl }) ts
