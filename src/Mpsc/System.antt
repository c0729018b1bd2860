-- ===== src/Mpsc/System.antt =====
-- The senders and the receiver of src/mpsc.rs on their threads, which interleave at every access. A
-- handle is idle, in the middle of a call with the rest of the call's program, or gone.
use ultima_rings.Base.{
  ℕ, ◌+◌, ◌-◌, ◌<◌, ◌^◌, ◌≡◌, Option, none, some, if◌then◌else◌, length, update, ◌==◌,
}
use ultima_rings.Channel.{
  assert_cap, trailing_zeros, Result, TrySendError, SendError, TryRecvError, RecvError,
}
use ultima_rings.Program.{ret, act}
use ultima_rings.Wait.{WaitStrategy}
use ultima_rings.Mpsc.Defs.{Config, Sender, Receiver, Access, Reply, Code}
use ultima_rings.Mpsc.ReceiverOps.{try_recv, recv, drain, drop_receiver}
use ultima_rings.Mpsc.SenderOps.{try_send, send, clone, drop_sender}
use ultima_rings.Mpsc.State.{State, fresh, producer_access, consumer_access}

-- The calls of the handles. A call with a loop comes with the number of attempts after which it is
-- looked at as still in the loop; for `sending` the second number is the claims of each attempt.
pub data SendCall (T : Type 0) : Type 0 where
  try_sending : ℕ → T → SendCall T
  sending : ℕ → ℕ → T → SendCall T
  cloning : SendCall T
  dropping : SendCall T

pub data RecvCall (T : Type 0) : Type 0 where
  try_receiving : RecvCall T
  receiving : ℕ → RecvCall T
  draining : ℕ → RecvCall T
  dropping : RecvCall T

abbrev pub SendResult : {T : Type 0} → SendCall T → Type 0
SendResult {T} (SendCall.try_sending _ _) = Sender × Option (Result (Unit {0}) (TrySendError T))
SendResult {T} (SendCall.sending _ _ _) = Sender × Option (Result (Unit {0}) (SendError T))
SendResult SendCall.cloning = Sender × Sender
SendResult SendCall.dropping = Unit {0}

abbrev pub RecvResult : {T : Type 0} → RecvCall T → Type 0
RecvResult {T} RecvCall.try_receiving = Receiver × Result T TryRecvError
RecvResult {T} (RecvCall.receiving _) = Receiver × Option (Result T RecvError)
RecvResult (RecvCall.draining _) = Receiver × Option ℕ
RecvResult RecvCall.dropping = Unit {0}

module _ {T : Type 0} (sh : Config) where
  abbrev pub send_code : Sender → (call : SendCall T) → Code T (SendResult call)
  send_code self (SendCall.try_sending n v) = try_send sh n self v
  send_code self (SendCall.sending n claims v) = send sh n claims self v
  send_code self SendCall.cloning = clone self
  send_code self SendCall.dropping = drop_sender

  abbrev pub recv_code : Receiver → (call : RecvCall T) → Code T (RecvResult call)
  recv_code self RecvCall.try_receiving = try_recv sh self
  recv_code self (RecvCall.receiving n) = recv sh n self
  recv_code self (RecvCall.draining n) = drain sh self n
  recv_code self RecvCall.dropping = drop_receiver

-- A thread in the middle of a call also has the number of values that it had published, or that had
-- been read, when the call began.
pub data SendThread (T : Type 0) : Type 0 where
  idle : Sender → SendThread T
  busy : (call : SendCall T) → ℕ → Code T (SendResult call) → SendThread T
  gone : SendThread T

pub data RecvThread (T : Type 0) : Type 0 where
  idle : Receiver → RecvThread T
  busy : (call : RecvCall T) → ℕ → Code T (RecvResult call) → RecvThread T
  gone : RecvThread T

-- The senders that have ever been made are numbered up to `handles`.
pub record System (T : Type 0) : Type 0 where
  pub state : State T
  pub handles : ℕ
  pub senders : ℕ → SendThread T
  pub receiver : RecvThread T

-- The system after a call of the sender `me` has returned. A clone is a new sender, to which the
-- first one hands the count that it has added.
abbrev pub after_send :
    {T : Type 0} → ℕ → System T → (call : SendCall T) → SendResult call → System T
after_send me y (SendCall.try_sending _ _) (self, _) = record y {
  senders = update y.senders me (SendThread.idle self);
}
after_send me y (SendCall.sending _ _ _) (self, _) = record y {
  senders = update y.senders me (SendThread.idle self);
}
after_send me y SendCall.cloning (self, new) = record y {
  state = record y.state { holds = update (update y.state.holds me 1) y.handles 1 };
  handles = y.handles + 1;
  senders = update (update y.senders me (SendThread.idle self)) y.handles (SendThread.idle new);
}
after_send me y SendCall.dropping _ = record y { senders = update y.senders me SendThread.gone }

abbrev pub after_recv : {T : Type 0} (call : RecvCall T) → RecvResult call → RecvThread T
after_recv RecvCall.try_receiving (self, _) = RecvThread.idle self
after_recv (RecvCall.receiving _) (self, _) = RecvThread.idle self
after_recv (RecvCall.draining _) (self, _) = RecvThread.idle self
after_recv RecvCall.dropping _ = RecvThread.gone

-- The number of senders ever made is bounded, far above what memory could hold.
abbrev pub Room : {T : Type 0} → SendCall T → ℕ → Type 0
Room SendCall.cloning handles = handles < 2 ^ 62
Room _ handles = Unit {0}

-- One step: a thread begins a call, makes its next access, or returns.
pub data Step {T : Type 0} (sh : Config) (y z : System T) : Type 0 where
  call_send :
      (me : ℕ) (self : Sender) (call : SendCall T)
      → y.senders me ≡ SendThread.idle self
      → z ≡ record y {
        senders =
            update y.senders me
              (SendThread.busy call (length (y.state.sent me)) (send_code sh self call));
      }
      → Step sh y z
  access_send :
      (me : ℕ) (call : SendCall T) (start : ℕ) (c : Access T)
      (k : Reply c → Code T (SendResult call)) (choice : ℕ) (r : Reply c) (s : State T)
      → y.senders me ≡ SendThread.busy call start (act c k)
      → producer_access me choice y.state c ≡ some (r, s)
      → z ≡ record y { state = s; senders = update y.senders me (SendThread.busy call start (k r)) }
      → Step sh y z
  return_send :
      (me : ℕ) (call : SendCall T) (start : ℕ) (a : SendResult call)
      → y.senders me ≡ SendThread.busy call start (ret a)
      → Room call y.handles
      → z ≡ after_send me y call a
      → Step sh y z
  call_recv :
      (self : Receiver) (call : RecvCall T)
      → y.receiver ≡ RecvThread.idle self
      → z ≡ record y {
        receiver = RecvThread.busy call (length y.state.read) (recv_code sh self call);
      }
      → Step sh y z
  access_recv :
      (call : RecvCall T) (start : ℕ) (c : Access T) (k : Reply c → Code T (RecvResult call))
      (choice : ℕ) (r : Reply c) (s : State T)
      → y.receiver ≡ RecvThread.busy call start (act c k)
      → consumer_access choice y.state c ≡ some (r, s)
      → z ≡ record y { state = s; receiver = RecvThread.busy call start (k r) }
      → Step sh y z
  return_recv :
      (call : RecvCall T) (start : ℕ) (a : RecvResult call)
      → y.receiver ≡ RecvThread.busy call start (ret a)
      → z ≡ record y { receiver = after_recv call a }
      → Step sh y z

-- `channel`, after the capacity check: the constants, and the two idle handles.
unfoldable pub config : ℕ → WaitStrategy → Config
config cap strategy = record {
  mask = cap - 1;
  cap = cap;
  shift = trailing_zeros cap;
  strategy = strategy;
}

unfoldable pub init : {T : Type 0} → ℕ → System T
unfolding fresh
init cap = record {
  state = fresh cap;
  handles = 1;
  senders = λ i. if i == 0 then SendThread.idle (record { cached_head = 0 }) else SendThread.gone;
  receiver = RecvThread.idle (record { head = 0 });
}

-- `none` is the panic of the capacity check.
unfoldable pub channel : {T : Type 0} → ℕ → WaitStrategy → Option (Config × System T)
channel cap strategy = if assert_cap cap then some (config cap strategy, init cap) else none

pub data Reach {T : Type 0} (sh : Config) : System T → Type 0 where
  start : {y : System T} → y ≡ init sh.cap → Reach sh y
  later : {y z : System T} → Reach sh y → Step sh y z → Reach sh z
