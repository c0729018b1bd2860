-- ===== src/Spsc/Sound.antt =====
-- The invariant of the whole system of src/spsc.rs: it holds after `channel`, and every step of
-- either thread keeps it.
use native.Mathlib.Nat.{mod-lt}
use ultima_rings.Base.{
  yields_some, ℕ, zero, suc, ◌%◌, ◌<◌, ◌≡◌, refl, sym, ap, ◌∙◌, subst, true, false, none, some,
  List, [], ◌++◌, arith, length, append-nil, append_assoc, length-replicate, replicate, get_elem?,
}
use ultima_rings.Program.{act}
use ultima_rings.Spsc.Blocks.{
  SendDone, RecvDone, send-Produces, recv-Consumes, HungUp, Closed, hang_up-Produces,
  hang_up-Consumes,
}
use ultima_rings.Spsc.Config.{IsConfig, cap_bounds}
use ultima_rings.Spsc.Defs.{Config, Code, Access, Reply}
use ultima_rings.Spsc.Drains.{DrainDone, drain-Consumes}
use ultima_rings.Spsc.Inv.{Inv}
use ultima_rings.Spsc.Inv.Consumer.{Taken, consumer_access-Taken}
use ultima_rings.Spsc.Inv.Producer.{Moved, producer_access-Moved}
use ultima_rings.Spsc.Receives
use ultima_rings.Spsc.Receives.{IsReceiver, try_recv-Consumes}
use ultima_rings.Spsc.Rules.{Push, Produces, Pull, Consumes}
use ultima_rings.Spsc.Sends
use ultima_rings.Spsc.Sends.{IsSender, try_send-Produces}
use ultima_rings.Spsc.State.{State, Slot}
use ultima_rings.Spsc.System.{
  SendCall, RecvCall, SendResult, RecvResult, send_code, recv_code, SendThread, RecvThread,
  after_send, after_recv, System, Step, call_send, access_send, return_send, call_recv, access_recv,
  return_recv, init, Reach, start, later,
}

module _ {T : Type 0} {sh : Config} (is : IsConfig sh) where
  -- What a call returns, by the rules of its thread.
  abbrev pub SendPost : (call : SendCall T) → SendResult call → Push → List T → Type 0
  SendPost (SendCall.try_sending v) = Sends.After T is v
  SendPost (SendCall.sending _ v) = SendDone T is v
  SendPost SendCall.dropping = HungUp

  abbrev pub RecvPost : (call : RecvCall T) → RecvResult call → Pull → List T → List T → Type 0
  RecvPost RecvCall.try_receiving = Receives.After T is
  RecvPost (RecvCall.receiving _) = RecvDone T is
  RecvPost (RecvCall.draining n) = DrainDone T is n
  RecvPost RecvCall.dropping = Closed sh.cap

  send_code-Produces :
      (self : _) (call : SendCall T) (p : Push)
      → IsSender sh.cap self p
      → Produces sh.cap (SendPost call) (send_code sh self call) p []
  send_code-Produces self (SendCall.try_sending v) p s = try_send-Produces T is v self p s
  send_code-Produces self (SendCall.sending n v) p s = send-Produces T is n v self p s
  send_code-Produces self SendCall.dropping p s = hang_up-Produces T sh.cap p s.published

  recv_code-Consumes :
      (self : _) (call : RecvCall T) (q : Pull)
      → IsReceiver sh.cap self q
      → Consumes sh.cap (RecvPost call) (recv_code sh self call) q [] []
  recv_code-Consumes self RecvCall.try_receiving q s = try_recv-Consumes T is self q s
  recv_code-Consumes self (RecvCall.receiving n) q s = recv-Consumes T is n self q s
  recv_code-Consumes self (RecvCall.draining n) q s = drain-Consumes T is n self q s
  recv_code-Consumes self RecvCall.dropping q s = hang_up-Consumes T sh.cap q s.released

  -- A call in progress: what was there when it began, what it has done since, and the rules for the
  -- rest of its program.
  pub record Sending (call : SendCall T) (began : ℕ) (code : Code T (SendResult call))
      (written : List T) (p : Push) : Type 0 where
    pub before : List T
    pub out : List T
    pub began_at : length before ≡ began
    pub grown : written ≡ before ++ out
    pub rule : Produces sh.cap (SendPost call) code p out

  pub record Receiving (call : RecvCall T) (began : ℕ) (code : Code T (RecvResult call))
      (read handed : List T) (q : Pull) : Type 0 where
    pub before : List T
    pub handed_before : List T
    pub out : List T
    pub given : List T
    pub began_at : length before ≡ began
    pub grown : read ≡ before ++ out
    pub handed_grown : handed ≡ handed_before ++ given
    pub rule : Consumes sh.cap (RecvPost call) code q out given

  abbrev pub SenderOk : SendThread T → List T → Push → Type 0
  SenderOk (SendThread.idle self) written p = IsSender sh.cap self p
  SenderOk (SendThread.busy call began code) written p = Sending call began code written p
  SenderOk SendThread.gone written p = p.live ≡ false

  abbrev pub ReceiverOk : RecvThread T → List T → List T → Pull → Type 0
  ReceiverOk (RecvThread.idle self) read handed q = IsReceiver sh.cap self q
  ReceiverOk (RecvThread.busy call began code) read handed q =
      Receiving call began code read handed q
  ReceiverOk RecvThread.gone read handed q = (q.live ≡ false) × (q.released ≡ q.read)

  pub record Sound (y : System T) : Type 0 where
    pub push : Push
    pub pull : Pull
    pub inv : Inv sh.cap y.state push pull
    pub sender_ok : SenderOk y.sender y.state.written push
    pub receiver_ok : ReceiverOk y.receiver y.state.read y.state.given pull

  after_send-Ok :
      (call : SendCall T) (a : SendResult call) (written : List T) (p : Push) (out : List T)
      → SendPost call a p out
      → SenderOk (after_send call a) written p
  after_send-Ok (SendCall.try_sending v) (self, r) w p out h = h.0
  after_send-Ok (SendCall.sending n v) (self, r) w p out h = h.0
  after_send-Ok SendCall.dropping a w p out h = h.0

  after_recv-Ok :
      (call : RecvCall T) (a : RecvResult call) (read handed : List T) (q : Pull)
      (out given : List T)
      → RecvPost call a q out given
      → ReceiverOk (after_recv call a) read handed q
  after_recv-Ok RecvCall.try_receiving (self, r) w w' p out g h = h.0
  after_recv-Ok (RecvCall.receiving n) (self, r) w w' p out g h = h.0
  after_recv-Ok (RecvCall.draining n) (self, some k) w w' p out g h = h.0
  after_recv-Ok (RecvCall.draining n) (self, none) w w' p out g h = h.0
  after_recv-Ok RecvCall.dropping a w w' p out g h = (h.0, h.1)

  pub sender_at :
      {y : System T} {t : SendThread T} (d : Sound y)
      → y.sender ≡ t
      → SenderOk t y.state.written d.push
  sender_at {y} d e = subst (λ t. SenderOk t y.state.written d.push) e d.sender_ok

  pub receiver_at :
      {y : System T} {t : RecvThread T} (d : Sound y)
      → y.receiver ≡ t
      → ReceiverOk t y.state.read y.state.given d.pull
  receiver_at {y} d e = subst (λ t. ReceiverOk t y.state.read y.state.given d.pull) e d.receiver_ok

  Sound-access_send :
      (y : System T) (call : SendCall T) (began : ℕ) (c : Access T)
      (k : Reply c → Code T (SendResult call)) (r : Reply c) (s : State T) (d : Sound y)
      (a : Sending call began (act c k) y.state.written d.push)
      → Moved sh.cap (SendPost call) y.state s (k r) d.pull a.out
      → Sound (record y { state = s; sender = SendThread.busy call began (k r) })
  Sound-access_send y call began c k r s d a m = record {
    push = m.push;
    pull = d.pull;
    inv = m.inv;
    sender_ok = record {
      before = a.before;
      out = a.out ++ m.new;
      began_at = a.began_at;
      grown = m.written ∙ ap (λ l. l ++ m.new) a.grown ∙ append_assoc a.before a.out m.new;
      rule = m.rule;
    };
    receiver_ok = rw (m.read, m.given) d.receiver_ok;
  }

  Sound-access_recv :
      (y : System T) (call : RecvCall T) (began : ℕ) (c : Access T)
      (k : Reply c → Code T (RecvResult call)) (r : Reply c) (s : State T) (d : Sound y)
      (a : Receiving call began (act c k) y.state.read y.state.given d.pull)
      → Taken sh.cap (RecvPost call) y.state s (k r) d.push a.out a.given
      → Sound (record y { state = s; receiver = RecvThread.busy call began (k r) })
  Sound-access_recv y call began c k r s d a m = record {
    push = d.push;
    pull = m.pull;
    inv = m.inv;
    sender_ok = rw m.written d.sender_ok;
    receiver_ok = record {
      before = a.before;
      handed_before = a.handed_before;
      out = a.out ++ m.new;
      given = a.given ++ m.gave;
      began_at = a.began_at;
      grown = m.read ∙ ap (λ l. l ++ m.new) a.grown ∙ append_assoc a.before a.out m.new;
      handed_grown =
          m.handed
          ∙ ap (λ l. l ++ m.gave) a.handed_grown
          ∙ append_assoc a.handed_before a.given m.gave;
      rule = m.rule;
    };
  }

  -- Every step of either thread keeps the invariant.
  Sound-Step : {y z : System T} → Step sh y z → Sound y → Sound z
  Sound-Step {y} (call_send self call e ez) d = rw ez (record {
    push = d.push;
    pull = d.pull;
    inv = d.inv;
    sender_ok = record {
      before = y.state.written;
      out = [];
      began_at = refl;
      grown = sym (append-nil _);
      rule = send_code-Produces self call d.push (sender_at d e);
    };
    receiver_ok = d.receiver_ok;
  })
  Sound-Step {y} (access_send call began c k choice r s e yields ez) d =
      let a = sender_at d e in
      rw ez (
        Sound-access_send y call began c k r s d a (
          yields_some (λ (r, s). Moved sh.cap (SendPost call) y.state s (k r) d.pull a.out)
            (producer_access-Moved sh.cap (SendPost call) choice y.state d.push d.pull c k a.out
              d.inv a.rule)
            yields))
  Sound-Step {y} (return_send call began a e ez) d =
      let b = sender_at d e in
      rw ez (record {
        push = d.push;
        pull = d.pull;
        inv = d.inv;
        sender_ok = after_send-Ok call a y.state.written d.push b.out b.rule;
        receiver_ok = d.receiver_ok;
      })
  Sound-Step {y} (call_recv self call e ez) d = rw ez (record {
    push = d.push;
    pull = d.pull;
    inv = d.inv;
    sender_ok = d.sender_ok;
    receiver_ok = record {
      before = y.state.read;
      handed_before = y.state.given;
      out = [];
      given = [];
      began_at = refl;
      grown = sym (append-nil _);
      handed_grown = sym (append-nil _);
      rule = recv_code-Consumes self call d.pull (receiver_at d e);
    };
  })
  Sound-Step {y} (access_recv call began c k choice r s e yields ez) d =
      let a = receiver_at d e in
      rw ez (
        Sound-access_recv y call began c k r s d a (
          yields_some (λ (r, s). Taken sh.cap (RecvPost call) y.state s (k r) d.push a.out a.given)
            (consumer_access-Taken sh.cap (RecvPost call) choice y.state d.push d.pull c k a.out
              a.given d.inv a.rule)
            yields))
  Sound-Step {y} (return_recv call began a e ez) d =
      let b = receiver_at d e in
      rw ez (record {
        push = d.push;
        pull = d.pull;
        inv = d.inv;
        sender_ok = d.sender_ok;
        receiver_ok = after_recv-Ok call a y.state.read y.state.given d.pull b.out b.given b.rule;
      })

  empty_slots :
      (n i : ℕ)
      → i < n
      → get_elem? {A = Slot T} (replicate n (record { content = none; stamp = 0 })) i
        ≡ some (record { content = none; stamp = 0 })
  empty_slots zero i h = absurd (omega arith)
  empty_slots (suc n) zero h = refl
  empty_slots (suc n) (suc i) h = empty_slots n i (omega arith)

  Sound-init : Sound (init sh.cap)
  unfolding init
  Sound-init = record {
    push = record { written = 0; known = 0; published = true; live = true };
    pull = record { read = 0; released = 0; known = 0; complete = false; live = true };
    inv = record {
      knows = ground arith;
      holds = record {
        size = length-replicate sh.cap _;
        writes = refl;
        reads = refl;
        full = λ i v lo hi e. absurd (omega arith);
        free = λ i lo hi.
            (0, omega arith, empty_slots sh.cap (i % sh.cap) (mod-lt i (cap_bounds is).0));
        fifo = refl;
      };
    };
    sender_ok = record {
      tail = refl;
      cached = 0;
      cached_head = refl;
      behind = omega arith;
      order = omega arith;
      room = omega arith;
      published = refl;
      live = refl;
    };
    receiver_ok = record {
      reads = record {
        head = refl;
        cached = 0;
        cached_tail = refl;
        ahead = omega arith;
        behind = omega arith;
        room = omega arith;
        order = omega arith;
        live = refl;
      };
      released = refl;
    };
  }

  -- The invariant holds in every reachable state.
  pub Reach-Sound : {y : System T} → Reach sh y → Sound y
  Reach-Sound (start e) = rw e Sound-init
  Reach-Sound (later r st) = Sound-Step st (Reach-Sound r)
