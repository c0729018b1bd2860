-- ===== src/Mpsc/Sound.antt =====
-- The invariant of the whole system of src/mpsc.rs: it holds after `channel`, and every step of any
-- thread keeps it.
pub mod Calls
pub mod Handles
use native.Mathlib.Decide.{dec_lt}
use native.Mathlib.Nat.{mod-lt}
use ultima_rings.Base.{
  ℕ, zero, suc, ◌+◌, ◌-◌, ◌/◌, ◌%◌, ◌^◌, ◌≤◌, ◌<◌, ◌≡◌, ◌≢◌, refl, sym, ap, ◌∙◌, subst, true, false,
  Option, none, some, List, [], ◌∷◌, ◌++◌, arith, length, append-nil, append_assoc,
  length-replicate, replicate, get_elem?, update, update_self, update_ne, Bool-cases, inl, inr,
  ◌==◌, if◌then◌else◌, usize_max, total,
}
use ultima_rings.Program.{act}
use ultima_rings.Mpsc.Config.{IsConfig, cap_bounds}
use ultima_rings.Mpsc.Defs.{Config, Code, Access, Reply}
use ultima_rings.Mpsc.Inv.{Inv, push_of, unclaimed, Phase}
use ultima_rings.Mpsc.Inv.Consumer.{Taken, consumer_access-Taken}
use ultima_rings.Mpsc.Inv.Moved.{Moved, Yields}
use ultima_rings.Mpsc.Inv.Producer.{producer_access-Moved}
use ultima_rings.Mpsc.Rules.{Push, Produces, Pull, Consumes}
use ultima_rings.Mpsc.Sound.Calls.{
  SendPost, RecvPost, send_code-Produces, recv_code-Consumes, Sending, Receiving, SenderOk,
  ReceiverOk, after_recv-Ok,
}
use ultima_rings.Mpsc.Sound.Handles.{clone-Inv}
use ultima_rings.Mpsc.State.{State, Slot, none_pending, claiming, filling}
use ultima_rings.Mpsc.System.{
  SendCall, RecvCall, SendResult, RecvResult, send_code, recv_code, SendThread, RecvThread, Room,
  after_send, after_recv, System, Step, call_send, access_send, return_send, call_recv, access_recv,
  return_recv, init, Reach, start, later,
}

yields_some : {B : Type 0} (P : B → Type 0) {o : Option B} {b : B} → Yields P o → o ≡ some b → P b
yields_some P y e = subst (Yields P) e y

module _ {T : Type 0} {sh : Config} (is : IsConfig sh) where
  pub record Sound (y : System T) : Type 0 where
    pub pull : Pull
    pub few : y.handles ≤ 2 ^ 62
    pub inv : Inv sh.cap y.handles y.state pull
    pub senders_ok : (i : ℕ) → SenderOk is (y.senders i) (y.state.sent i) (push_of y.state i)
    pub others_gone : (i : ℕ) → y.handles ≤ i → y.senders i ≡ SendThread.gone
    pub receiver_ok : ReceiverOk is y.receiver y.state.read y.state.given pull

  pub sender_at :
      {y : System T} {t : SendThread T} (d : Sound y) (i : ℕ)
      → y.senders i ≡ t
      → SenderOk is t (y.state.sent i) (push_of y.state i)
  sender_at {y} d i e =
      subst (λ t. SenderOk is t (y.state.sent i) (push_of y.state i)) e (d.senders_ok i)

  pub receiver_at :
      {y : System T} {t : RecvThread T} (d : Sound y)
      → y.receiver ≡ t
      → ReceiverOk is t y.state.read y.state.given d.pull
  receiver_at {y} d e =
      subst (λ t. ReceiverOk is t y.state.read y.state.given d.pull) e d.receiver_ok

  -- A sender that is not gone is one of those made.
  pub sender-lt :
      {y : System T} {t : SendThread T} (d : Sound y) (i : ℕ)
      → y.senders i ≡ t
      → t ≢ SendThread.gone
      → i < y.handles
  sender-lt {y} d i e ne = elim (dec_lt i y.handles) [
    | yes lt ↦ lt
    | no ge ↦ absurd (ne (sym e ∙ d.others_gone i (omega arith)))
  ]

  -- One sender is in a new place of its program.
  set_sender :
      (y : System T) (d : Sound y) (me : ℕ) (t : SendThread T)
      → me < y.handles
      → SenderOk is t (y.state.sent me) (push_of y.state me)
      → Sound (record y { senders = update y.senders me t })
  set_sender y d me t lt ok = record {
    pull = d.pull;
    few = d.few;
    inv = d.inv;
    senders_ok = λ i. elim (Bool-cases (i == me)) [
      | inl e ↦ let same : i ≡ me = ground (arith, e) in rw e (rw same ok)
      | inr e ↦ rw e (d.senders_ok i)
    ];
    others_gone = λ i ge. let e : (i == me) ≡ false = ground arith in rw e (d.others_gone i ge);
    receiver_ok = d.receiver_ok;
  }

  Sound-access_send :
      (y : System T) (me : ℕ) (call : SendCall T) (began : ℕ) (c : Access T)
      (k : Reply c → Code T (SendResult call)) (r : Reply c) (s : State T) (d : Sound y)
      (a : Sending is call began (act c k) (y.state.sent me) (push_of y.state me))
      → me < y.handles
      → Moved sh.cap y.handles me (SendPost is call) y.state s (k r) d.pull a.out
      → Sound
          (record y { state = s; senders = update y.senders me (SendThread.busy call began (k r)) })
  Sound-access_send y me call began c k r s d a lt m = record {
    pull = d.pull;
    few = d.few;
    inv = m.inv;
    senders_ok = λ i. elim (Bool-cases (i == me)) [
      | inl e ↦
          let same : i ≡ me = ground (arith, e) in
          rw e (
            rw same (record {
              before = a.before;
              out = a.out ++ m.new;
              began_at = a.began_at;
              grown = m.sent ∙ ap (λ l. l ++ m.new) a.grown ∙ append_assoc a.before a.out m.new;
              rule = m.rule;
            }))
      | inr e ↦
          let ne : i ≢ me = ground (arith, e) in
          let (pushes, sent) = m.others i ne in rw e (rw (pushes, sent) (d.senders_ok i))
    ];
    others_gone = λ i ge. let e : (i == me) ≡ false = ground arith in rw e (d.others_gone i ge);
    receiver_ok = rw (m.read, m.given) d.receiver_ok;
  }

  Sound-access_recv :
      (y : System T) (call : RecvCall T) (began : ℕ) (c : Access T)
      (k : Reply c → Code T (RecvResult call)) (r : Reply c) (s : State T) (d : Sound y)
      (a : Receiving is call began (act c k) y.state.read y.state.given d.pull)
      → Taken sh.cap y.handles (RecvPost is call) y.state s (k r) a.out a.given
      → Sound (record y { state = s; receiver = RecvThread.busy call began (k r) })
  Sound-access_recv y call began c k r s d a m = record {
    pull = m.pull;
    few = d.few;
    inv = m.inv;
    senders_ok = λ i. rw (m.pushes i, m.sent) (d.senders_ok i);
    others_gone = d.others_gone;
    receiver_ok = record {
      before = a.before;
      handed_before = a.handed_before;
      out = a.out ++ m.new;
      given = a.given ++ m.gave;
      began_at = a.began_at;
      grown = m.read ∙ ap (λ l. l ++ m.new) a.grown ∙ append_assoc a.before a.out m.new;
      handed_grown =
          m.handed
          ∙ ap (λ l. l ++ m.gave) a.handed_grown
          ∙ append_assoc a.handed_before a.given m.gave;
      rule = m.rule;
    };
  }

  Sound-return_send :
      (y : System T) (me : ℕ) (call : SendCall T) (a : SendResult call) (out : List (ℕ × T))
      (d : Sound y)
      → me < y.handles
      → Room call y.handles
      → SendPost is call a (push_of y.state me) out
      → Sound (after_send me y call a)
  Sound-return_send y me (SendCall.try_sending n v) (self, r) out d lt room h =
      set_sender y d me _ lt h.0
  Sound-return_send y me (SendCall.sending n c v) (self, r) out d lt room h =
      set_sender y d me _ lt h.0
  Sound-return_send y me SendCall.dropping a out d lt room h = set_sender y d me _ lt h.1
  Sound-return_send y me SendCall.cloning (self, new) out d lt room
        (cached, zero_head, quiet, two, e) =
      record {
        pull = d.pull;
        few = omega arith;
        inv = clone-Inv sh.cap y.handles me y.state d.pull d.inv lt two;
        senders_ok = λ i. elim (Bool-cases (i == y.handles)) [
          | inl e ↦
              let same : i ≡ y.handles = ground (arith, e) in
              let none_held : y.state.holds y.handles ≡ 0 =
                d.inv.holders.beyond y.handles (omega arith) in
              rw e (record {
                cached = omega (arith, zero_head);
                idle = d.inv.holders.idle i (ap y.state.holds same ∙ none_held);
                live = refl;
              })
          | inr e ↦ rw e (elim (Bool-cases (i == me)) [
            | inl f ↦
                let same : i ≡ me = ground (arith, f) in
                rw f (rw same (record { cached = cached; idle = quiet; live = refl }))
            | inr f ↦ rw f (d.senders_ok i)
          ])
        ];
        others_gone = λ i ge.
            let e : (i == me) ≡ false = ground arith in
            let f : (i == y.handles) ≡ false = ground arith in
            rw (f, e) (d.others_gone i (omega arith));
        receiver_ok = d.receiver_ok;
      }

  -- Every step of any thread keeps the invariant.
  pub Sound-Step : {y z : System T} → Step sh y z → Sound y → Sound z
  Sound-Step {y} (call_send me self call e ez) d = rw ez (
      set_sender y d me _ (sender-lt d me e (λ f. cc)) (record {
        before = y.state.sent me;
        out = [];
        began_at = refl;
        grown = sym (append-nil _);
        rule = send_code-Produces is self call (push_of y.state me) (sender_at d me e);
      }))
  Sound-Step {y} (access_send me call began c k choice r s e yields ez) d =
      let a = sender_at d me e in
      let lt = sender-lt d me e (λ f. cc) in
      rw ez (
        Sound-access_send y me call began c k r s d a lt (
          yields_some
            (λ (r, s). Moved sh.cap y.handles me (SendPost is call) y.state s (k r) d.pull a.out)
            (producer_access-Moved sh.cap y.handles me (SendPost is call) choice y.state d.pull c k
              a.out lt d.few (cap_bounds is).0 d.inv a.rule)
            yields))
  Sound-Step {y} (return_send me call began a e room ez) d =
      let b = sender_at d me e in
      rw ez (Sound-return_send y me call a b.out d (sender-lt d me e (λ f. cc)) room b.rule)
  Sound-Step {y} (call_recv self call e ez) d = rw ez (record {
    pull = d.pull;
    few = d.few;
    inv = d.inv;
    senders_ok = d.senders_ok;
    others_gone = d.others_gone;
    receiver_ok = record {
      before = y.state.read;
      handed_before = y.state.given;
      out = [];
      given = [];
      began_at = refl;
      grown = sym (append-nil _);
      handed_grown = sym (append-nil _);
      rule = recv_code-Consumes is self call d.pull (receiver_at d e);
    };
  })
  Sound-Step {y} (access_recv call began c k choice r s e yields ez) d =
      let a = receiver_at d e in
      rw ez (
        Sound-access_recv y call began c k r s d a (
          yields_some
            (λ (r, s). Taken sh.cap y.handles (RecvPost is call) y.state s (k r) a.out a.given)
            (consumer_access-Taken sh.cap y.handles (RecvPost is call) choice y.state d.pull c k
              a.out a.given (cap_bounds is).0 d.inv a.rule)
            yields))
  Sound-Step {y} (return_recv call began a e ez) d =
      let b = receiver_at d e in
      rw ez (record {
        pull = d.pull;
        few = d.few;
        inv = d.inv;
        senders_ok = d.senders_ok;
        others_gone = d.others_gone;
        receiver_ok =
            after_recv-Ok is call a y.state.read y.state.given d.pull b.out b.given b.rule;
      })
