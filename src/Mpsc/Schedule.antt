-- ===== src/Mpsc/Schedule.antt =====
-- Reachable states of src/mpsc.rs by evaluation: the threads take turns in a given order, each load
-- reads the latest version, and a compare-exchange does not fail spuriously.
use native.Mathlib.Decide.{dec_lt}
use ultima_rings.Base.{
  ℕ, ◌^◌, zero, suc, ◌+◌, ◌≡◌, get_elem?, refl, Option, none, some, List, [], ◌∷◌,
}
use ultima_rings.Program.{ret, act}
use ultima_rings.Mpsc.Defs.{
  Config, Access, load_claim, load_head, compare_exchange_weak, load_round, load_senders, Reply,
  Code,
}
use ultima_rings.Mpsc.State.{State, producer_access, consumer_access, latest_round}
use ultima_rings.Mpsc.System.{
  System, SendCall, RecvCall, SendResult, RecvResult, SendThread, RecvThread, Step, Reach, init,
}

-- One turn begins a call, or takes the next `n` steps of the call that has begun.
pub data Turn : Type 0 where
  begin_send : ℕ → SendCall ℕ → Turn
  begin_recv : RecvCall ℕ → Turn
  sender : ℕ → ℕ → Turn
  receiver : ℕ → Turn

abbrev send_choice : State ℕ → Access ℕ → ℕ
send_choice s (load_claim _) = s.claim
send_choice s (load_head _) = s.head.latest
send_choice s (compare_exchange_weak _ _ _ _) = s.claim + 1
send_choice s _ = 1

abbrev recv_choice : State ℕ → Access ℕ → ℕ
recv_choice s (load_round _ i) = latest_round (get_elem? s.slots i)
recv_choice s (load_senders _) = s.senders
recv_choice s _ = 1

abbrev Next : Config → System ℕ → Type 0
Next sh y = Option ((z : System ℕ) × Step sh y z)

module _ {sh : Config} where
  send_access :
      (y : System ℕ) (me : ℕ) (call : SendCall ℕ) (start : ℕ) (c : Access ℕ)
      (k : Reply c → Code ℕ (SendResult call))
      → y.senders me ≡ SendThread.busy call start (act c k)
      → (o : Option (Reply c × State ℕ)) → producer_access me (send_choice y.state c) y.state c ≡ o
      → Next sh y
  send_access y me call start c k e none f = none
  send_access y me call start c k e (some (r, s)) f =
      some (_, Step.access_send me call start c k (send_choice y.state c) r s e f refl)

  next_send : (y : System ℕ) (me : ℕ) (t : SendThread ℕ) → y.senders me ≡ t → Next sh y
  unfolding send_access
  next_send y me (SendThread.idle _) e = none
  next_send y me SendThread.gone e = none
  next_send y me (SendThread.busy (SendCall.try_sending n v) start (ret a)) e =
      some (_, Step.return_send me (SendCall.try_sending n v) start a e tt refl)
  next_send y me (SendThread.busy (SendCall.sending n m v) start (ret a)) e =
      some (_, Step.return_send me (SendCall.sending n m v) start a e tt refl)
  next_send y me (SendThread.busy SendCall.dropping start (ret a)) e =
      some (_, Step.return_send me SendCall.dropping start a e tt refl)
  next_send y me (SendThread.busy SendCall.cloning start (ret a)) e =
      elim (dec_lt y.handles (2 ^ 62)) [
        | yes lt ↦ some (_, Step.return_send me SendCall.cloning start a e lt refl)
        | no _ ↦ none
      ]
  next_send y me (SendThread.busy call start (act c k)) e = send_access y me call start c k e _ refl

  recv_access :
      (y : System ℕ) (call : RecvCall ℕ) (start : ℕ) (c : Access ℕ)
      (k : Reply c → Code ℕ (RecvResult call))
      → y.receiver ≡ RecvThread.busy call start (act c k)
      → (o : Option (Reply c × State ℕ)) → consumer_access (recv_choice y.state c) y.state c ≡ o
      → Next sh y
  recv_access y call start c k e none f = none
  recv_access y call start c k e (some (r, s)) f =
      some (_, Step.access_recv call start c k (recv_choice y.state c) r s e f refl)

  next_recv : (y : System ℕ) (t : RecvThread ℕ) → y.receiver ≡ t → Next sh y
  unfolding recv_access
  next_recv y (RecvThread.idle _) e = none
  next_recv y RecvThread.gone e = none
  next_recv y (RecvThread.busy call start (ret a)) e =
      some (_, Step.return_recv call start a e refl)
  next_recv y (RecvThread.busy call start (act c k)) e = recv_access y call start c k e _ refl

  call_send : (y : System ℕ) (me : ℕ) (t : SendThread ℕ) → y.senders me ≡ t → SendCall ℕ → Next sh y
  call_send y me (SendThread.idle self) e call = some (_, Step.call_send me self call e refl)
  call_send y me _ e call = none

  call_recv : (y : System ℕ) (t : RecvThread ℕ) → y.receiver ≡ t → RecvCall ℕ → Next sh y
  call_recv y (RecvThread.idle self) e call = some (_, Step.call_recv self call e refl)
  call_recv y _ e call = none

pub record Run (sh : Config) : Type 0 where
  pub last : System ℕ
  pub reach : Reach sh last

module _ {sh : Config} where
  go : (r : Run sh) → Next sh r.last → Run sh
  go r none = r
  go r (some (z, step)) = record { last = z; reach = Reach.later r.reach step }

  sends : ℕ → ℕ → Run sh → Run sh
  unfolding go next_send
  sends me zero r = r
  sends me (suc n) r = sends me n (go r (next_send r.last me (r.last.senders me) refl))

  recvs : ℕ → Run sh → Run sh
  unfolding go next_recv
  recvs zero r = r
  recvs (suc n) r = recvs n (go r (next_recv r.last r.last.receiver refl))

  turn : Run sh → Turn → Run sh
  unfolding go sends recvs call_send call_recv
  turn r (Turn.begin_send me c) = go r (call_send r.last me (r.last.senders me) refl c)
  turn r (Turn.begin_recv c) = go r (call_recv r.last r.last.receiver refl c)
  turn r (Turn.sender me n) = sends me n r
  turn r (Turn.receiver n) = recvs n r

  turns : Run sh → List Turn → Run sh
  unfolding turn
  turns r [] = r
  turns r (t ∷ ts) = turns (turn r t) ts

unfoldable pub run : (sh : Config) → List Turn → Run sh
unfolding turns
run sh ts = turns (record { last = init sh.cap; reach = Reach.start refl }) ts
