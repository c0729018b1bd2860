-- ===== src/Mpsc/Sound/Calls.antt =====
-- The calls of src/mpsc.rs: what each returns, by the rules of its thread, and a call in progress.
use ultima_rings.Base.{ℕ, ◌≡◌, none, some, List, [], ◌++◌, length}
use ultima_rings.Mpsc.Blocks.{
  SendDone, send-Produces, Cloned, clone-Produces, HungUp, drop_sender-Produces,
}
use ultima_rings.Mpsc.Config.{IsConfig}
use ultima_rings.Mpsc.Defs.{Config, Code}
use ultima_rings.Mpsc.Drains.{DrainDone, drain-Consumes}
use ultima_rings.Mpsc.Receives
use ultima_rings.Mpsc.Receives.{IsReceiver, try_recv-Consumes}
use ultima_rings.Mpsc.Rules.{Push, Produces, Pull, Consumes}
use ultima_rings.Mpsc.Sends
use ultima_rings.Mpsc.Sends.{IsSender, try_send-Produces}
use ultima_rings.Mpsc.System.{
  SendCall, RecvCall, SendResult, RecvResult, send_code, recv_code, SendThread, RecvThread,
  after_recv,
}
use ultima_rings.Mpsc.Waits.{RecvDone, recv-Consumes, Closed, drop_receiver-Consumes}

module _ {T : Type 0} {sh : Config} (is : IsConfig sh) where
  abbrev pub SendPost : (call : SendCall T) → SendResult call → Push T → List (ℕ × T) → Type 0
  SendPost (SendCall.try_sending _ v) = Sends.After T is v
  SendPost (SendCall.sending _ _ v) = SendDone T is v
  SendPost SendCall.cloning = Cloned
  SendPost SendCall.dropping = HungUp

  abbrev pub RecvPost : (call : RecvCall T) → RecvResult call → Pull → List T → List T → Type 0
  RecvPost RecvCall.try_receiving = Receives.After T is
  RecvPost (RecvCall.receiving _) = RecvDone T is
  RecvPost (RecvCall.draining n) = DrainDone T is n
  RecvPost RecvCall.dropping = Closed

  pub send_code-Produces :
      (self : _) (call : SendCall T) (p : Push T)
      → IsSender self p
      → Produces sh.cap (SendPost call) (send_code sh self call) p []
  send_code-Produces self (SendCall.try_sending n v) p s = try_send-Produces T is n v self p s
  send_code-Produces self (SendCall.sending n c v) p s = send-Produces T is n c v self p s
  send_code-Produces self SendCall.cloning p s = clone-Produces T sh.cap self p s
  send_code-Produces self SendCall.dropping p s = drop_sender-Produces T sh.cap self p s

  pub recv_code-Consumes :
      (self : _) (call : RecvCall T) (q : Pull)
      → IsReceiver self q
      → Consumes sh.cap (RecvPost call) (recv_code sh self call) q [] []
  recv_code-Consumes self RecvCall.try_receiving q s = try_recv-Consumes T is self q s
  recv_code-Consumes self (RecvCall.receiving n) q s = recv-Consumes T is n self q s
  recv_code-Consumes self (RecvCall.draining n) q s = drain-Consumes T is n self q s
  recv_code-Consumes self RecvCall.dropping q s = drop_receiver-Consumes T sh.cap q s.released

  -- A call in progress: what was there when it began, what it has done since, and the rules for the
  -- rest of its program.
  pub record Sending (call : SendCall T) (began : ℕ) (code : Code T (SendResult call))
      (sent : List (ℕ × T)) (p : Push T) : Type 0 where
    pub before : List (ℕ × T)
    pub out : List (ℕ × T)
    pub began_at : length before ≡ began
    pub grown : sent ≡ before ++ out
    pub rule : Produces sh.cap (SendPost call) code p out

  pub record Receiving (call : RecvCall T) (began : ℕ) (code : Code T (RecvResult call))
      (read handed : List T) (q : Pull) : Type 0 where
    pub before : List T
    pub handed_before : List T
    pub out : List T
    pub given : List T
    pub began_at : length before ≡ began
    pub grown : read ≡ before ++ out
    pub handed_grown : handed ≡ handed_before ++ given
    pub rule : Consumes sh.cap (RecvPost call) code q out given

  abbrev pub SenderOk : SendThread T → List (ℕ × T) → Push T → Type 0
  SenderOk (SendThread.idle self) sent p = IsSender self p
  SenderOk (SendThread.busy call began code) sent p = Sending call began code sent p
  SenderOk SendThread.gone sent p = p.live ≡ 0

  abbrev pub ReceiverOk : RecvThread T → List T → List T → Pull → Type 0
  ReceiverOk (RecvThread.idle self) read handed q = IsReceiver self q
  ReceiverOk (RecvThread.busy call began code) read handed q =
      Receiving call began code read handed q
  ReceiverOk RecvThread.gone read handed q = q.released ≡ q.read

  pub after_recv-Ok :
      (call : RecvCall T) (a : RecvResult call) (read handed : List T) (q : Pull)
      (out given : List T)
      → RecvPost call a q out given
      → ReceiverOk (after_recv call a) read handed q
  after_recv-Ok RecvCall.try_receiving (self, r) w w' p out g h = h.0
  after_recv-Ok (RecvCall.receiving n) (self, r) w w' p out g h = h.0
  after_recv-Ok (RecvCall.draining n) (self, some k) w w' p out g h = h.0
  after_recv-Ok (RecvCall.draining n) (self, none) w w' p out g h = h.0
  after_recv-Ok RecvCall.dropping a w w' p out g h = h.0
