-- ===== src/Spsc/Schedule.antt =====
-- Reachable states of src/spsc.rs by evaluation: the two threads take turns in a given order, and
-- each load reads the latest version.
use ultima_rings.Base.{ℕ, zero, suc, ◌≡◌, refl, Option, none, some, List, [], ◌∷◌}
use ultima_rings.Program.{ret, act}
use ultima_rings.Spsc.Defs.{Config, Access, Reply, Code}
use ultima_rings.Spsc.State.{State, producer_access, consumer_access}
use ultima_rings.Spsc.System.{
  System, SendCall, RecvCall, SendResult, RecvResult, SendThread, RecvThread, Step, Reach, init,
}

-- One turn begins a call, or takes the next `n` steps of the call that has begun.
pub data Turn : Type 0 where
  begin_send : SendCall ℕ → Turn
  begin_recv : RecvCall ℕ → Turn
  sender receiver : ℕ → Turn

abbrev Next : Config → System ℕ → Type 0
Next sh y = Option ((z : System ℕ) × Step sh y z)

module _ {sh : Config} where
  send_access :
      (y : System ℕ) (call : SendCall ℕ) (start : ℕ) (c : Access ℕ)
      (k : Reply c → Code ℕ (SendResult call))
      → y.sender ≡ SendThread.busy call start (act c k)
      → (o : Option (Reply c × State ℕ)) → producer_access y.state.head.latest y.state c ≡ o
      → Next sh y
  send_access y call start c k e none f = none
  send_access y call start c k e (some (r, s)) f =
      some (_, Step.access_send call start c k y.state.head.latest r s e f refl)

  next_send : (y : System ℕ) (t : SendThread ℕ) → y.sender ≡ t → Next sh y
  unfolding send_access
  next_send y (SendThread.idle _) e = none
  next_send y SendThread.gone e = none
  next_send y (SendThread.busy call start (ret a)) e =
      some (_, Step.return_send call start a e refl)
  next_send y (SendThread.busy call start (act c k)) e = send_access y call start c k e _ refl

  recv_access :
      (y : System ℕ) (call : RecvCall ℕ) (start : ℕ) (c : Access ℕ)
      (k : Reply c → Code ℕ (RecvResult call))
      → y.receiver ≡ RecvThread.busy call start (act c k)
      → (o : Option (Reply c × State ℕ)) → consumer_access y.state.tail.latest y.state c ≡ o
      → Next sh y
  recv_access y call start c k e none f = none
  recv_access y call start c k e (some (r, s)) f =
      some (_, Step.access_recv call start c k y.state.tail.latest r s e f refl)

  next_recv : (y : System ℕ) (t : RecvThread ℕ) → y.receiver ≡ t → Next sh y
  unfolding recv_access
  next_recv y (RecvThread.idle _) e = none
  next_recv y RecvThread.gone e = none
  next_recv y (RecvThread.busy call start (ret a)) e =
      some (_, Step.return_recv call start a e refl)
  next_recv y (RecvThread.busy call start (act c k)) e = recv_access y call start c k e _ refl

  call_send : (y : System ℕ) (t : SendThread ℕ) → y.sender ≡ t → SendCall ℕ → Next sh y
  call_send y (SendThread.idle self) e call = some (_, Step.call_send self call e refl)
  call_send y _ e call = none

  call_recv : (y : System ℕ) (t : RecvThread ℕ) → y.receiver ≡ t → RecvCall ℕ → Next sh y
  call_recv y (RecvThread.idle self) e call = some (_, Step.call_recv self call e refl)
  call_recv y _ e call = none

pub record Run (sh : Config) : Type 0 where
  pub last : System ℕ
  pub reach : Reach sh last

module _ {sh : Config} where
  go : (r : Run sh) → Next sh r.last → Run sh
  go r none = r
  go r (some (z, step)) = record { last = z; reach = Reach.later r.reach step }

  sends : ℕ → Run sh → Run sh
  unfolding go next_send
  sends zero r = r
  sends (suc n) r = sends n (go r (next_send r.last r.last.sender refl))

  recvs : ℕ → Run sh → Run sh
  unfolding go next_recv
  recvs zero r = r
  recvs (suc n) r = recvs n (go r (next_recv r.last r.last.receiver refl))

  turn : Run sh → Turn → Run sh
  unfolding go sends recvs call_send call_recv
  turn r (Turn.begin_send c) = go r (call_send r.last r.last.sender refl c)
  turn r (Turn.begin_recv c) = go r (call_recv r.last r.last.receiver refl c)
  turn r (Turn.sender n) = sends n r
  turn r (Turn.receiver n) = recvs n r

  turns : Run sh → List Turn → Run sh
  unfolding turn
  turns r [] = r
  turns r (t ∷ ts) = turns (turn r t) ts

unfoldable pub run : (sh : Config) → List Turn → Run sh
unfolding turns
run sh ts = turns (record { last = init sh.cap; reach = Reach.start refl }) ts
