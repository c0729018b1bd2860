-- ===== src/Spsc/System.antt =====
-- One sender and one receiver of src/spsc.rs on two threads, which interleave at every access. Each
-- handle is idle, in the middle of a call with the rest of the call's program, or gone.
use ultima_rings.Base.{ℕ, ◌-◌, ◌≡◌, Option, none, some, if◌then◌else◌, length}
use ultima_rings.Channel.{assert_cap, Result, TrySendError, SendError, TryRecvError, RecvError}
use ultima_rings.Program.{ret, act}
use ultima_rings.Wait.{WaitStrategy}
use ultima_rings.Spsc.Defs.{Config, Sender, Receiver, Access, Reply, Code}
use ultima_rings.Spsc.Ops.{try_send, send, try_recv, recv, drain, hang_up}
use ultima_rings.Spsc.State.{State, fresh, producer_access, consumer_access}

-- The calls of the two handles. A blocking call comes with the number of attempts after which it is
-- looked at as still waiting; the caller may then go on with another such call.
pub data SendCall (T : Type 0) : Type 0 where
  try_sending : T → SendCall T
  sending : ℕ → T → SendCall T
  dropping : SendCall T

pub data RecvCall (T : Type 0) : Type 0 where
  try_receiving : RecvCall T
  receiving : ℕ → RecvCall T
  draining : ℕ → RecvCall T
  dropping : RecvCall T

abbrev pub SendResult : {T : Type 0} → SendCall T → Type 0
SendResult {T} (SendCall.try_sending _) = Sender × Result (Unit {0}) (TrySendError T)
SendResult {T} (SendCall.sending _ _) = Sender × Option (Result (Unit {0}) (SendError T))
SendResult SendCall.dropping = Unit {0}

abbrev pub RecvResult : {T : Type 0} → RecvCall T → Type 0
RecvResult {T} RecvCall.try_receiving = Receiver × Result T TryRecvError
RecvResult {T} (RecvCall.receiving _) = Receiver × Option (Result T RecvError)
RecvResult (RecvCall.draining _) = Receiver × Option ℕ
RecvResult RecvCall.dropping = Unit {0}

module _ {T : Type 0} (sh : Config) where
  abbrev pub send_code : Sender → (call : SendCall T) → Code T (SendResult call)
  send_code self (SendCall.try_sending v) = try_send sh self v
  send_code self (SendCall.sending n v) = send sh n self v
  send_code self SendCall.dropping = hang_up

  abbrev pub recv_code : Receiver → (call : RecvCall T) → Code T (RecvResult call)
  recv_code self RecvCall.try_receiving = try_recv sh self
  recv_code self (RecvCall.receiving n) = recv sh n self
  recv_code self (RecvCall.draining n) = drain sh self n
  recv_code self RecvCall.dropping = hang_up

-- A thread in the middle of a call also has the number of values that the ring had seen it write,
-- or read, when the call began.
pub data SendThread (T : Type 0) : Type 0 where
  idle : Sender → SendThread T
  busy : (call : SendCall T) → ℕ → Code T (SendResult call) → SendThread T
  gone : SendThread T

pub data RecvThread (T : Type 0) : Type 0 where
  idle : Receiver → RecvThread T
  busy : (call : RecvCall T) → ℕ → Code T (RecvResult call) → RecvThread T
  gone : RecvThread T

-- What a handle is after a call has returned.
abbrev pub after_send : {T : Type 0} (call : SendCall T) → SendResult call → SendThread T
after_send (SendCall.try_sending _) (self, _) = SendThread.idle self
after_send (SendCall.sending _ _) (self, _) = SendThread.idle self
after_send SendCall.dropping _ = SendThread.gone

abbrev pub after_recv : {T : Type 0} (call : RecvCall T) → RecvResult call → RecvThread T
after_recv RecvCall.try_receiving (self, _) = RecvThread.idle self
after_recv (RecvCall.receiving _) (self, _) = RecvThread.idle self
after_recv (RecvCall.draining _) (self, _) = RecvThread.idle self
after_recv RecvCall.dropping _ = RecvThread.gone

pub record System (T : Type 0) : Type 0 where
  pub state : State T
  pub sender : SendThread T
  pub receiver : RecvThread T

-- One step: a thread begins a call, makes its next access, or returns.
pub data Step {T : Type 0} (sh : Config) (y z : System T) : Type 0 where
  call_send :
      (self : Sender) (call : SendCall T)
      → y.sender ≡ SendThread.idle self
      → z ≡ record y {
        sender = SendThread.busy call (length y.state.written) (send_code sh self call);
      }
      → Step sh y z
  access_send :
      (call : SendCall T) (start : ℕ) (c : Access T) (k : Reply c → Code T (SendResult call))
      (choice : ℕ) (r : Reply c) (s : State T)
      → y.sender ≡ SendThread.busy call start (act c k)
      → producer_access choice y.state c ≡ some (r, s)
      → z ≡ record y { state = s; sender = SendThread.busy call start (k r) }
      → Step sh y z
  return_send :
      (call : SendCall T) (start : ℕ) (a : SendResult call)
      → y.sender ≡ SendThread.busy call start (ret a)
      → z ≡ record y { sender = after_send call a }
      → Step sh y z
  call_recv :
      (self : Receiver) (call : RecvCall T)
      → y.receiver ≡ RecvThread.idle self
      → z ≡ record y {
        receiver = RecvThread.busy call (length y.state.read) (recv_code sh self call);
      }
      → Step sh y z
  access_recv :
      (call : RecvCall T) (start : ℕ) (c : Access T) (k : Reply c → Code T (RecvResult call))
      (choice : ℕ) (r : Reply c) (s : State T)
      → y.receiver ≡ RecvThread.busy call start (act c k)
      → consumer_access choice y.state c ≡ some (r, s)
      → z ≡ record y { state = s; receiver = RecvThread.busy call start (k r) }
      → Step sh y z
  return_recv :
      (call : RecvCall T) (start : ℕ) (a : RecvResult call)
      → y.receiver ≡ RecvThread.busy call start (ret a)
      → z ≡ record y { receiver = after_recv call a }
      → Step sh y z

-- `channel`, after the capacity check: the constants, and the two idle handles.
unfoldable pub config : ℕ → WaitStrategy → Config
config cap strategy = record { mask = cap - 1; cap = cap; strategy = strategy }

unfoldable pub init : {T : Type 0} → ℕ → System T
unfolding fresh
init cap = record {
  state = fresh cap;
  sender = SendThread.idle (record { tail = 0; cached_head = 0 });
  receiver = RecvThread.idle (record { head = 0; cached_tail = 0 });
}

-- `none` is the panic of the capacity check.
unfoldable pub channel : {T : Type 0} → ℕ → WaitStrategy → Option (Config × System T)
channel cap strategy = if assert_cap cap then some (config cap strategy, init cap) else none

pub data Reach {T : Type 0} (sh : Config) : System T → Type 0 where
  start : {y : System T} → y ≡ init sh.cap → Reach sh y
  later : {y z : System T} → Reach sh y → Step sh y z → Reach sh z
