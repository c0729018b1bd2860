-- ===== src/Sharded/Threads.antt =====
-- Many producers and one consumer of src/sharded.rs on threads of their own: each shard is a ring of
-- src/spsc.rs with its own sender, and the consumer's program runs the methods of the shards'
-- receivers, access by access.
use ultima_rings.Base.{ℕ, ◌≡◌, Option, update, length}
use ultima_rings.Channel.{Result, TryRecvError}
use ultima_rings.Program.{act, ret}
use ultima_rings.Spsc.Defs
use ultima_rings.Spsc.Defs.{Config}
use ultima_rings.Spsc.System
use ultima_rings.Spsc.System.{System, SendCall, SendThread, RecvThread}
use ultima_rings.Sharded.Construct.{new_receiver}
use ultima_rings.Sharded.{
  Sender, Receiver, Call, Code, Received, try_send, send, try_recv, recv, drain,
}

pub data RecvCall : Type 0 where
  try_receiving : RecvCall
  receiving draining : ℕ → RecvCall

abbrev pub RecvResult : Type 0 → RecvCall → Type 0
RecvResult T RecvCall.try_receiving = Receiver × Result T TryRecvError
RecvResult T (RecvCall.receiving _) = Receiver × Received T
RecvResult T (RecvCall.draining _) = Receiver × Option ℕ

unfoldable pub recv_code : {T : Type 0} → Receiver → (call : RecvCall) → Code T (RecvResult T call)
recv_code self RecvCall.try_receiving = try_recv self
recv_code self (RecvCall.receiving n) = recv n self
recv_code self (RecvCall.draining max) = drain self max

pub data Consumer (T : Type 0) : Type 0 where
  idle : Receiver → Consumer T
  busy : (call : RecvCall) → Code T (RecvResult T call) → Consumer T
  gone : Consumer T

abbrev pub after : (T : Type 0) (call : RecvCall) → RecvResult T call → Receiver
after T RecvCall.try_receiving (self, _) = self
after T (RecvCall.receiving _) (self, _) = self
after T (RecvCall.draining _) (self, _) = self

pub record Threads (T : Type 0) : Type 0 where
  pub shards : ℕ → System T
  pub consumer : Consumer T

-- The ring once its receiver has returned from a call, and once its sender has begun one.
abbrev pub left : {T : Type 0} → System T → Defs.Receiver → System T
left s self = record s { receiver = RecvThread.idle self }

abbrev pub begun :
    {T : Type 0} → System T → (call : SendCall T) → Defs.Code T (System.SendResult call) → System T
begun s call code = record s { sender = SendThread.busy call (length s.state.written) code }

module _ {T : Type 0} (sh : Config) where
  -- A step of a ring within a call: an access of either thread, the return of the
  -- sender, or the end of the receiver's drop.
  abbrev pub Inside : {y z : System T} → System.Step sh y z → Type 0
  Inside (System.call_send _ _ _ _) = ⊥
  Inside (System.access_send _ _ _ _ _ _ _ _ _ _) = Unit
  Inside (System.return_send _ _ _ _ _) = Unit
  Inside (System.call_recv _ _ _ _) = ⊥
  Inside (System.access_recv _ _ _ _ _ _ _ _ _ _) = Unit
  Inside (System.return_recv System.RecvCall.dropping _ _ _ _) = Unit
  Inside (System.return_recv System.RecvCall.try_receiving _ _ _ _) = ⊥
  Inside (System.return_recv (System.RecvCall.receiving _) _ _ _ _) = ⊥
  Inside (System.return_recv (System.RecvCall.draining _) _ _ _ _) = ⊥

  -- The ring once its receiver has begun a call.
  abbrev pub entered : System T → Defs.Receiver → System.RecvCall T → System T
  entered s self call = record s {
    receiver = RecvThread.busy call (length s.state.read) (System.recv_code sh self call);
  }

  -- One step of a producer, of the consumer, or within a shard. After the consumer is dropped, it drops
  -- the shards' receivers.
  pub data Step (y z : Threads T) : Type 0 where
    call_try_send :
        (i : ℕ) (self : Sender) (v : T)
        → (y.shards i).sender ≡ SendThread.idle self.inner
        → z ≡ record y {
          shards =
              update y.shards i (begun (y.shards i) (SendCall.try_sending v) (try_send sh self v));
        }
        → Step y z
    call_send :
        (i attempts : ℕ) (self : Sender) (v : T)
        → (y.shards i).sender ≡ SendThread.idle self.inner
        → z ≡ record y {
          shards =
              update y.shards i
                (begun (y.shards i) (SendCall.sending attempts v) (send sh attempts self v));
        }
        → Step y z
    drop_sender :
        (i : ℕ) (self : Sender)
        → (y.shards i).sender ≡ SendThread.idle self.inner
        → z ≡ record y {
          shards = update y.shards i (
              begun
                (y.shards i)
                SendCall.dropping
                (System.send_code sh self.inner SendCall.dropping));
        }
        → Step y z
    shard :
        (i : ℕ) (s : System T) (step : System.Step sh (y.shards i) s)
        → Inside step
        → z ≡ record y { shards = update y.shards i s }
        → Step y z
    call :
        (self : Receiver) (call : RecvCall)
        → y.consumer ≡ Consumer.idle self
        → z ≡ record y { consumer = Consumer.busy call (recv_code self call) }
        → Step y z
    enter_try_recv :
        (call : RecvCall) (i : ℕ) (k : Result T TryRecvError → Code T (RecvResult T call))
        (self : Defs.Receiver)
        → y.consumer ≡ Consumer.busy call (act (Call.try_recv_shard i) k)
        → (y.shards i).receiver ≡ RecvThread.idle self
        → z ≡ record y {
          shards = update y.shards i (entered (y.shards i) self System.RecvCall.try_receiving);
        }
        → Step y z
    leave_try_recv :
        (call : RecvCall) (i : ℕ) (k : Result T TryRecvError → Code T (RecvResult T call))
        (began : ℕ) (self : Defs.Receiver) (r : Result T TryRecvError)
        → y.consumer ≡ Consumer.busy call (act (Call.try_recv_shard i) k)
        → (y.shards i).receiver
          ≡ RecvThread.busy System.RecvCall.try_receiving began (ret (self, r))
        → z ≡ record y {
          shards = update y.shards i (left (y.shards i) self);
          consumer = Consumer.busy call (k r);
        }
        → Step y z
    enter_drain :
        (call : RecvCall) (i want : ℕ) (k : Option ℕ → Code T (RecvResult T call))
        (self : Defs.Receiver)
        → y.consumer ≡ Consumer.busy call (act (Call.drain_shard i want) k)
        → (y.shards i).receiver ≡ RecvThread.idle self
        → z ≡ record y {
          shards = update y.shards i (entered (y.shards i) self (System.RecvCall.draining want));
        }
        → Step y z
    leave_drain :
        (call : RecvCall) (i want : ℕ) (k : Option ℕ → Code T (RecvResult T call)) (began : ℕ)
        (self : Defs.Receiver) (r : Option ℕ)
        → y.consumer ≡ Consumer.busy call (act (Call.drain_shard i want) k)
        → (y.shards i).receiver
          ≡ RecvThread.busy (System.RecvCall.draining want) began (ret (self, r))
        → z ≡ record y {
          shards = update y.shards i (left (y.shards i) self);
          consumer = Consumer.busy call (k r);
        }
        → Step y z
    pause :
        (call : RecvCall) (p : _) (k : Unit {0} → Code T (RecvResult T call))
        → y.consumer ≡ Consumer.busy call (act (Call.pause p) k)
        → z ≡ record y { consumer = Consumer.busy call (k tt) }
        → Step y z
    return :
        (call : RecvCall) (a : RecvResult T call)
        → y.consumer ≡ Consumer.busy call (ret a)
        → z ≡ record y { consumer = Consumer.idle (after T call a) }
        → Step y z
    drop :
        (self : Receiver)
        → y.consumer ≡ Consumer.idle self
        → z ≡ record y { consumer = Consumer.gone }
        → Step y z
    drop_shard :
        (i : ℕ) (self : Defs.Receiver)
        → y.consumer ≡ Consumer.gone
        → (y.shards i).receiver ≡ RecvThread.idle self
        → z ≡ record y {
          shards = update y.shards i (entered (y.shards i) self System.RecvCall.dropping);
        }
        → Step y z

-- `channel`, after its checks: `n` rings of a capacity, each with a sender, and the consumer.
unfoldable pub init : {T : Type 0} → ℕ → Config → Threads T
init n sh = record {
  shards = λ _. System.init sh.cap;
  consumer = Consumer.idle (new_receiver n sh.strategy);
}

pub data Reach {T : Type 0} (n : ℕ) (sh : Config) : Threads T → Type 0 where
  start : {y : Threads T} → y ≡ init n sh → Reach n sh y
  later : {y z : Threads T} → Reach n sh y → Step sh y z → Reach n sh z
