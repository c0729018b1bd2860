-- ===== src/Mpsc/Safety.antt =====
-- What holds in every reachable state of the senders and the receiver of src/mpsc.rs.
use native.Mathlib.Decide.{dec_lt}
use ultima_rings.Base.{
  zero, suc, refl, ℕ, ◌+◌, ◌≤◌, ◌<◌, ◌≡◌, ◌≢◌, sym, ap, ◌∙◌, subst, Option, none, some, List, [],
  ◌∷◌, ◌++◌, arith, length, get_elem?, unchanged, member-le-total,
}
use ultima_rings.Channel.{Result, ok, err, TrySendError, SendError}
use ultima_rings.Program.{ret, act}
use ultima_rings.Mpsc.Config.{IsConfig}
use ultima_rings.Mpsc.Defs.{Config, Sender, write_slot, read_slot, Code}
use ultima_rings.Mpsc.Inv.{Rising, floor, Inv, Published, Phase, published, claimed}
use ultima_rings.Mpsc.Inv.Claim.{apart}
use ultima_rings.Mpsc.Inv.Own.{claimed-window, claimed-lt, filled-lt}
use ultima_rings.Mpsc.Inv.Order.{Rising-le}
use ultima_rings.Mpsc.Reachable.{Reach-Sound}
use ultima_rings.Mpsc.Rules.{Pull}
use ultima_rings.Mpsc.Sound.{sender_at, receiver_at}
use ultima_rings.Mpsc.State.{State, filling, claiming, none_pending}
use ultima_rings.Mpsc.System.{
  System, SendCall, RecvCall, SendResult, RecvResult, SendThread, RecvThread, Reach,
}

-- The last of what a producer has sent is published.
Published-last :
    {T : Type 0} (phase : ℕ → Phase T) (l : List (ℕ × T)) (n : ℕ) (v : T)
    → Published phase (l ++ ((n, v) ∷ []))
    → phase n ≡ published v
Published-last phase [] n v a = a.0
Published-last phase ((m, w) ∷ l) n v (e, a) = Published-last phase l n v a

Published-member :
    {T : Type 0} (phase : ℕ → Phase T) (l : List (ℕ × T)) (i n : ℕ) (v : T)
    → Published phase l
    → get_elem? l i ≡ some (n, v)
    → phase n ≡ published v
Published-member phase [] i n v a e = absurd (ground (arith, e))
Published-member {T = T} phase ((m, w) ∷ l) zero n v (f, a) e =
    let g : ◌≡◌ {A = Option (ℕ × T)} (some (m, w)) (some (n, v)) = e in
    let number : m ≡ n = cc in let value : w ≡ v = cc in rw (← number) (rw (← value) f)
Published-member phase ((m, w) ∷ l) (suc i) n v (f, a) e = Published-member phase l i n v a e

-- What a producer may publish next is not past the sequences claimed.
floor-le :
    {T : Type 0} (cap handles : ℕ) (s : State T) (q : Pull) (inv : Inv cap handles s q) (me : ℕ)
    → floor s.claim (s.pending me) ≤ s.claim
floor-le cap handles s q inv me = cases (s.pending me) refl
  where
    cases : (x : _) → s.pending me ≡ x → floor s.claim x ≤ s.claim
    cases none_pending e = ground arith
    cases (claiming n) e = omega (arith, claimed-lt s q inv me n e)
    cases (filling n v) e = omega (arith, filled-lt s q inv me n v e)

module _ {T : Type 0} {sh : Config} (is : IsConfig sh) {y : System T} (reach : Reach sh y) where
  -- In every state that the senders and the receiver of a valid ring reach, the value read in place
  -- `n` is the one written for the sequence `n`, and at most a capacity of sequences is claimed and
  -- not yet read.
  pub reads_by_claim :
      ((n : ℕ) → n < length y.state.read → get_elem? y.state.read n ≡ y.state.log n)
      × (length y.state.read ≤ y.state.claim)
      × (y.state.claim ≤ length y.state.read + sh.cap)
  reads_by_claim =
      let d = Reach-Sound is reach in
      let c = d.inv.counters in
      let l = d.inv.logs in
      (
        λ n lt. l.fifo n (omega (arith, l.count)),
        omega (arith, l.count, c.order),
        omega (arith, l.count, c.room, c.behind),
      )

  -- In every state that the senders and the receiver of a valid ring reach, each sender has published
  -- its values for sequences that increase, all of them claimed, and the value read in place `n` is the
  -- one that a sender has published for the sequence `n`: the values of one sender are read in the
  -- order in which it sent them.
  pub sender_order :
      (me : ℕ)
      → Rising 0 (y.state.sent me) y.state.claim
        × ((i n : ℕ) (v : T)
            → get_elem? (y.state.sent me) i ≡ some (n, v)
            → n < length y.state.read
            → get_elem? y.state.read n ≡ some v)
  sender_order me =
      let d = Reach-Sound is reach in
      let c = d.inv.counters in
      let l = d.inv.logs in
      (
        Rising-le 0 _ _ (y.state.sent me) (floor-le sh.cap y.handles y.state d.pull d.inv me)
            (d.inv.rising me),
        λ i n v e lt.
            l.fifo n (omega (arith, l.count))
            ∙ l.logged n v (Published-member d.inv.phase (y.state.sent me) i n v (d.inv.sent me) e),
      )

  -- In every reachable state of a valid ring in which the next accesses of two different senders are
  -- slot writes, the two slots are different.
  pub writers_apart :
      (me : ℕ) (call : SendCall T) (began i : ℕ) (v : T) (k : Unit {0} → Code T (SendResult call))
      (you : ℕ) (call' : SendCall T) (began' j : ℕ) (w : T)
      (k' : Unit {0} → Code T (SendResult call'))
      → y.senders me ≡ SendThread.busy call began (act (write_slot i v) k)
      → y.senders you ≡ SendThread.busy call' began' (act (write_slot j w) k')
      → me ≢ you
      → i ≢ j
  writers_apart me call began i v k you call' began' j w k' e f ne same =
      let d = Reach-Sound is reach in
      let (n, pend, at, rest) = (sender_at is d me e).rule in
      let (lo, hi, mine) = claimed-window y.state d.pull d.inv me n pend in
      let (m, pend', at', rest') = (sender_at is d you f).rule in
      let (lo', hi', yours) = claimed-window y.state d.pull d.inv you m pend' in
      apart sh.cap d.pull.read m n lo lo' hi hi'
        (λ g.
          ne (let h : claimed me ≡ claimed you = sym mine ∙ ap d.inv.phase (sym g) ∙ yours in cc))
        (sym at ∙ same ∙ at')

  -- In every reachable state of a valid ring in which a sender's next access is a slot write and the
  -- receiver's next access a slot read, the two slots are different.
  pub reader_apart :
      (me : ℕ) (call : SendCall T) (began i : ℕ) (v : T) (k : Unit {0} → Code T (SendResult call))
      (call' : RecvCall T) (began' j : ℕ) (k' : T → Code T (RecvResult call'))
      → y.senders me ≡ SendThread.busy call began (act (write_slot i v) k)
      → y.receiver ≡ RecvThread.busy call' began' (act (read_slot j) k')
      → i ≢ j
  reader_apart me call began i v k call' began' j k' e f same =
      let d = Reach-Sound is reach in
      let (n, pend, at, rest) = (sender_at is d me e).rule in
      let (lo, hi, mine) = claimed-window y.state d.pull d.inv me n pend in
      let (more, at', rest') = (receiver_at is d f).rule in
      let (w, full, seen, known) = d.inv.certain.available more in
      apart sh.cap d.pull.read d.pull.read n lo (omega arith) hi (omega arith)
        (λ g. let h : claimed me ≡ published w = sym mine ∙ ap d.inv.phase (sym g) ∙ full in cc)
        (sym at ∙ same ∙ at')

  -- In every reachable state of a valid ring in which the count of senders is 0, no sender is idle, nor
  -- has any claimed a sequence that it has yet to publish.
  pub senders_gone :
      y.state.senders ≡ 0
      → (i : ℕ)
      → (y.state.pending i ≡ none_pending) × ((self : Sender) → y.senders i ≢ SendThread.idle self)
  senders_gone z i =
      let d = Reach-Sound is reach in
      let h = d.inv.holders in
      let quiet : y.state.holds i ≡ 0 = elim (dec_lt i y.handles) [
        | yes lt ↦ omega (arith, h.count, member-le-total y.handles i y.state.holds lt)
        | no ge ↦ h.beyond i (omega arith)
      ] in
      (h.idle i quiet, λ self e. omega (arith, (sender_at is d i e).live))

  -- What a call that sends `v` and has returned `ok` has published, having begun when `began` values
  -- were published by its sender.
  abbrev pub Sends : ℕ → T → ℕ → Type 0
  Sends me v began =
      (before : List (ℕ × T)) × (seq : ℕ) × (length before ≡ began)
      × (y.state.sent me ≡ before ++ ((seq, v) ∷ []))
      × (y.state.log seq ≡ some v)

  sends_lem :
      (me seq : ℕ) (v : T) (began : ℕ) (before out : List (ℕ × T))
      → length before ≡ began
      → y.state.sent me ≡ before ++ out
      → out ≡ (seq, v) ∷ []
      → Sends me v began
  sends_lem me seq v began before out b g e =
      let d = Reach-Sound is reach in
      let grown : y.state.sent me ≡ before ++ ((seq, v) ∷ []) = g ∙ ap (λ l. before ++ l) e in
      let all = subst (Published d.inv.phase) grown (d.inv.sent me) in
      (before, seq, b, grown, d.inv.logs.logged seq v (Published-last d.inv.phase before seq v all))

  -- What the ring shows of a call of `try_send v` that is about to return `r`; `none` is a call that
  -- is still in the claim loop.
  abbrev pub TrySendShows : ℕ → T → ℕ → Option (Result (Unit {0}) (TrySendError T)) → Type 0
  TrySendShows me v began (some (ok _)) = Sends me v began
  TrySendShows me v began (some (err (TrySendError.full back))) =
      (back ≡ v) × (length (y.state.sent me) ≡ began)
  TrySendShows me v began (some (err (TrySendError.disconnected back))) =
      (back ≡ v) × (length (y.state.sent me) ≡ began)
  TrySendShows me v began none = length (y.state.sent me) ≡ began

  -- In every reachable state of a valid ring in which a sender's call `try_send v` is about to
  -- return, it returns `Ok` having published `v` for one sequence and nothing else, or hands `v` back
  -- having published nothing; as long as it is in the claim loop it has published nothing.
  pub try_send_publishes :
      (me n : ℕ) (v : T) (began : ℕ) (self : Sender)
      (r : Option (Result (Unit {0}) (TrySendError T)))
      → y.senders me ≡ SendThread.busy (SendCall.try_sending n v) began (ret (self, r))
      → TrySendShows me v began r
  try_send_publishes me n v began self (some (ok _)) e =
      let a = sender_at is (Reach-Sound is reach) me e in
      sends_lem me a.rule.1.0 v began a.before a.out a.began_at a.grown a.rule.1.1
  try_send_publishes me n v began self (some (err (TrySendError.full back))) e =
      let a = sender_at is (Reach-Sound is reach) me e in
      (a.rule.1.0, unchanged a.before a.out a.began_at a.grown a.rule.1.1)
  try_send_publishes me n v began self (some (err (TrySendError.disconnected back))) e =
      let a = sender_at is (Reach-Sound is reach) me e in
      (a.rule.1.0, unchanged a.before a.out a.began_at a.grown a.rule.1.1)
  try_send_publishes me n v began self none e =
      let a = sender_at is (Reach-Sound is reach) me e in
      unchanged a.before a.out a.began_at a.grown a.rule.1

  -- What the ring shows of a call of `send v` after some attempts; `none` is a call that waits.
  abbrev pub SendShows : ℕ → T → ℕ → Option (Result (Unit {0}) (SendError T)) → Type 0
  SendShows me v began (some (ok _)) = Sends me v began
  SendShows me v began (some (err (SendError.send_error back))) =
      (back ≡ v) × (length (y.state.sent me) ≡ began)
  SendShows me v began none = length (y.state.sent me) ≡ began

  -- In every reachable state of a valid ring in which a sender's call `send v` of some attempts is
  -- about to return, it returns success having published `v` for one sequence and nothing else, or
  -- hands `v` back having published nothing; as long as it waits it has published nothing.
  pub send_publishes :
      (me n claims : ℕ) (v : T) (began : ℕ) (self : Sender)
      (r : Option (Result (Unit {0}) (SendError T)))
      → y.senders me ≡ SendThread.busy (SendCall.sending n claims v) began (ret (self, r))
      → SendShows me v began r
  send_publishes me n claims v began self (some (ok _)) e =
      let a = sender_at is (Reach-Sound is reach) me e in
      sends_lem me a.rule.1.0 v began a.before a.out a.began_at a.grown a.rule.1.1
  send_publishes me n claims v began self (some (err (SendError.send_error back))) e =
      let a = sender_at is (Reach-Sound is reach) me e in
      (a.rule.1.0, unchanged a.before a.out a.began_at a.grown a.rule.1.1)
  send_publishes me n claims v began self none e =
      let a = sender_at is (Reach-Sound is reach) me e in
      unchanged a.before a.out a.began_at a.grown a.rule.1
