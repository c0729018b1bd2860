-- ===== src/Spsc/Safety.antt =====
-- What holds in every reachable state of a sender and a receiver of src/spsc.rs.
use ultima_rings.Base.{
  ℕ, ◌+◌, ◌≤◌, ◌<◌, ◌≡◌, ◌≢◌, sym, ap, ◌∙◌, Option, none, some, List, [], ◌∷◌, ◌++◌, arith, length,
  take, take-length, drop, take-append-drop, length-drop, unchanged, mod-ne_of_near,
}
use ultima_rings.Channel.{Result, ok, err, TrySendError, SendError, TryRecvError, RecvError}
use ultima_rings.Program.{ret, act}
use ultima_rings.Spsc.Config.{IsConfig}
use ultima_rings.Spsc.Defs.{Config, Sender, Receiver, write_slot, read_slot, Code}
use ultima_rings.Spsc.Inv.Knowledge.{written_bounds}
use ultima_rings.Spsc.Sound.{Sound, Reach-Sound, sender_at, receiver_at}
use ultima_rings.Spsc.System.{
  System, SendCall, RecvCall, SendResult, RecvResult, SendThread, RecvThread, Reach,
}

-- Where the totals agree, the histories do.
all_read :
    {T : Type 0} {sh : Config} (is : IsConfig sh) (y : System T) (d : Sound is y)
    → d.pull.read ≡ d.push.written
    → y.state.read ≡ y.state.written
all_read is y d e =
    d.inv.holds.fifo
    ∙ ap (λ n. take n y.state.written) (e ∙ d.inv.holds.writes)
    ∙ take-length y.state.written

module _ {T : Type 0} {sh : Config} (is : IsConfig sh) {y : System T} (reach : Reach sh y) where
  -- In every state that a sender and a receiver of a valid ring reach, the values read are the first
  -- of the values written, in the same order, and at most a capacity of values is written and not
  -- yet read.
  pub reads_in_order :
      (rest : List T) × (y.state.written ≡ y.state.read ++ rest) × (length rest ≤ sh.cap)
  reads_in_order =
      let d = Reach-Sound is reach in
      let h = d.inv.holds in
      (
        drop d.pull.read y.state.written,
        sym (
            ap (λ l. l ++ drop d.pull.read y.state.written) h.fifo
            ∙ take-append-drop d.pull.read y.state.written),
        omega (
          arith,
          length-drop d.pull.read y.state.written,
          h.writes,
          d.inv.knows.room,
          d.inv.knows.released,
          written_bounds sh.cap y.state d.push d.pull d.inv.knows,
        ),
      )

  -- In every reachable state of a valid ring in which the sender's next access is a slot write and
  -- the receiver's next access a slot read, the two slots are different.
  pub slots_apart :
      (call : SendCall T) (began i : ℕ) (v : T) (k : Unit {0} → Code T (SendResult call))
      (call' : RecvCall T) (began' j : ℕ) (k' : T → Code T (RecvResult call'))
      → y.sender ≡ SendThread.busy call began (act (write_slot i v) k)
      → y.receiver ≡ RecvThread.busy call' began' (act (read_slot j) k')
      → i ≢ j
  slots_apart call began i v k call' began' j k' es er e =
      let d = Reach-Sound is reach in
      let (live, room, at, rest) = (sender_at is d es).rule in
      let (more, at', rest') = (receiver_at is d er).rule in
      mod-ne_of_near sh.cap d.pull.read d.push.written
        (omega (arith, written_bounds sh.cap y.state d.push d.pull d.inv.knows))
        (omega
          (arith, written_bounds sh.cap y.state d.push d.pull d.inv.knows, d.inv.knows.released))
        (sym at' ∙ sym e ∙ at)

  -- What the ring shows of a call of `try_send v` that is about to return `r`, having begun when
  -- `began` values were written.
  abbrev pub TrySendShows : T → ℕ → Result (Unit {0}) (TrySendError T) → Type 0
  TrySendShows v began (ok _) =
      (before : List T) × (length before ≡ began) × (y.state.written ≡ before ++ (v ∷ []))
  TrySendShows v began (err (TrySendError.full back)) =
      (back ≡ v)
      × (length y.state.written ≡ began)
      × (length y.state.written ≡ y.state.known_reads + sh.cap)
  TrySendShows v began (err (TrySendError.disconnected back)) =
      (back ≡ v) × (length y.state.written ≡ began)

  -- In every reachable state of a valid ring in which a call `try_send v` is about to return, it
  -- returns `Ok` having written `v` and nothing else, or hands `v` back having written
  -- nothing; it reports `Full` only when all the slots that it knows to be released are taken.
  pub try_send_outcome :
      (v : T) (began : ℕ) (self : Sender) (r : Result (Unit {0}) (TrySendError T))
      → y.sender ≡ SendThread.busy (SendCall.try_sending v) began (ret (self, r))
      → TrySendShows v began r
  try_send_outcome v began self (ok _) e =
      let d = Reach-Sound is reach in
      let a = sender_at is d e in (a.before, a.began_at, a.grown ∙ ap (λ l. a.before ++ l) a.rule.1)
  try_send_outcome v began self (err (TrySendError.full back)) e =
      let d = Reach-Sound is reach in
      let a = sender_at is d e in
      let (same, nothing, all) = a.rule.1 in
      let n : length y.state.written ≡ began =
        unchanged a.before a.out a.began_at a.grown nothing in
      (same, n, omega (arith, d.inv.holds.writes, d.inv.knows.knows_reads, all))
  try_send_outcome v began self (err (TrySendError.disconnected back)) e =
      let d = Reach-Sound is reach in
      let a = sender_at is d e in
      let (same, nothing) = a.rule.1 in (same, unchanged a.before a.out a.began_at a.grown nothing)

  -- What the ring shows of a call of `try_recv` that is about to return `r`, having begun when
  -- `began` values were read.
  abbrev pub TryRecvShows : ℕ → Result T TryRecvError → Type 0
  TryRecvShows began (ok v) =
      (before : List T) × (length before ≡ began) × (y.state.read ≡ before ++ (v ∷ []))
  TryRecvShows began (err TryRecvError.empty) = length y.state.read ≡ began
  TryRecvShows began (err TryRecvError.disconnected) =
      (length y.state.read ≡ began) × (y.state.read ≡ y.state.written)

  -- In every reachable state of a valid ring in which a call of `try_recv` is about to return, it
  -- returns the one value that it has read, or has read nothing; it reports
  -- `Disconnected` only when every value written has been read.
  pub try_recv_outcome :
      (began : ℕ) (self : Receiver) (r : Result T TryRecvError)
      → y.receiver ≡ RecvThread.busy RecvCall.try_receiving began (ret (self, r))
      → TryRecvShows began r
  try_recv_outcome began self (ok v) e =
      let a = receiver_at is (Reach-Sound is reach) e in
      (a.before, a.began_at, a.grown ∙ ap (λ l. a.before ++ l) a.rule.1)
  try_recv_outcome began self (err TryRecvError.empty) e =
      let a = receiver_at is (Reach-Sound is reach) e in
      unchanged a.before a.out a.began_at a.grown a.rule.1
  try_recv_outcome began self (err TryRecvError.disconnected) e =
      let d = Reach-Sound is reach in
      let a = receiver_at is d e in
      let (nothing, complete, all) = a.rule.1 in
      (
        unchanged a.before a.out a.began_at a.grown nothing,
        all_read is y d (all ∙ (d.inv.knows.complete complete).2),
      )

  -- What the ring shows of a call of `send v` after some attempts: `none` is a call that waits.
  abbrev pub SendShows : T → ℕ → Option (Result (Unit {0}) (SendError T)) → Type 0
  SendShows v began (some (ok _)) =
      (before : List T) × (length before ≡ began) × (y.state.written ≡ before ++ (v ∷ []))
  SendShows v began (some (err (SendError.send_error back))) =
      (back ≡ v) × (length y.state.written ≡ began)
  SendShows v began none = length y.state.written ≡ began

  -- In every reachable state of a valid ring in which a call `send v` of some attempts is about to
  -- return, it returns success having written `v` and nothing else, or hands `v` back having written
  -- nothing; as long as it waits it has written nothing.
  pub send_outcome :
      (n : ℕ) (v : T) (began : ℕ) (self : Sender) (r : Option (Result (Unit {0}) (SendError T)))
      → y.sender ≡ SendThread.busy (SendCall.sending n v) began (ret (self, r))
      → SendShows v began r
  send_outcome n v began self (some (ok _)) e =
      let a = sender_at is (Reach-Sound is reach) e in
      (a.before, a.began_at, a.grown ∙ ap (λ l. a.before ++ l) a.rule.1)
  send_outcome n v began self (some (err (SendError.send_error back))) e =
      let a = sender_at is (Reach-Sound is reach) e in
      (a.rule.1.0, unchanged a.before a.out a.began_at a.grown a.rule.1.1)
  send_outcome n v began self none e =
      let a = sender_at is (Reach-Sound is reach) e in
      unchanged a.before a.out a.began_at a.grown a.rule.1

  -- What the ring shows of a call of `recv` after some attempts: `none` is a call that waits.
  abbrev pub RecvShows : ℕ → Option (Result T RecvError) → Type 0
  RecvShows began (some (ok v)) =
      (before : List T) × (length before ≡ began) × (y.state.read ≡ before ++ (v ∷ []))
  RecvShows began (some (err _)) = (length y.state.read ≡ began) × (y.state.read ≡ y.state.written)
  RecvShows began none = length y.state.read ≡ began

  -- In every reachable state of a valid ring in which a call `recv` of some attempts is about to
  -- return, it returns the one value that it has read, or fails having read nothing and only when every
  -- value written has been read; as long as it waits it has read nothing.
  pub recv_outcome :
      (n began : ℕ) (self : Receiver) (r : Option (Result T RecvError))
      → y.receiver ≡ RecvThread.busy (RecvCall.receiving n) began (ret (self, r))
      → RecvShows began r
  recv_outcome n began self (some (ok v)) e =
      let a = receiver_at is (Reach-Sound is reach) e in
      (a.before, a.began_at, a.grown ∙ ap (λ l. a.before ++ l) a.rule.1)
  recv_outcome n began self (some (err _)) e =
      let d = Reach-Sound is reach in
      let a = receiver_at is d e in
      let (nothing, complete, all) = a.rule.1 in
      (
        unchanged a.before a.out a.began_at a.grown nothing,
        all_read is y d (all ∙ (d.inv.knows.complete complete).2),
      )
  recv_outcome n began self none e =
      let a = receiver_at is (Reach-Sound is reach) e in
      unchanged a.before a.out a.began_at a.grown a.rule.1

  -- What a call of `drain max` returns, `none` by unwinding, having moved some values.
  -- It counts what it has moved, and stops short of `max` only at the last write that it knows of.
  abbrev pub DrainCounts : ℕ → Option ℕ → List T → Type 0
  DrainCounts max (some n) moved =
      (n ≡ length moved) × (n ≤ max) × (n < max → length y.state.read ≡ y.state.known_writes)
  DrainCounts max none moved = Unit

  -- In every reachable state of a valid ring in which a call `drain max` is about to return or to
  -- unwind, it has handed every value that it read to the closure, in order, and has
  -- released all the slots that it has read. On a return it gives their number, at most
  -- `max`, and less than `max` only when every write that it knows of has been read.
  pub drain_outcome :
      (max began : ℕ) (self : Receiver) (r : Option ℕ)
      → y.receiver ≡ RecvThread.busy (RecvCall.draining max) began (ret (self, r))
      → (before handed moved : List T) × (length before ≡ began)
        × (y.state.read ≡ before ++ moved)
        × (y.state.given ≡ handed ++ moved)
        × (y.state.head.clock y.state.head.latest ≡ length y.state.read)
        × DrainCounts max r moved
  drain_outcome max began self (some n) e =
      let d = Reach-Sound is reach in
      let a = receiver_at is d e in
      let (idle, given, count, limit, short) = a.rule in
      (
        a.before,
        a.handed_before,
        a.out,
        a.began_at,
        a.grown,
        a.handed_grown ∙ ap (λ l. a.handed_before ++ l) given,
        d.inv.knows.head_now ∙ idle.released ∙ d.inv.holds.reads,
        (count, limit, λ lt. omega (arith, short lt, d.inv.holds.reads, d.inv.knows.knows_writes)),
      )
  drain_outcome max began self none e =
      let d = Reach-Sound is reach in
      let a = receiver_at is d e in
      let (idle, given) = a.rule in
      (
        a.before,
        a.handed_before,
        a.out,
        a.began_at,
        a.grown,
        a.handed_grown ∙ ap (λ l. a.handed_before ++ l) given,
        d.inv.knows.head_now ∙ idle.released ∙ d.inv.holds.reads,
        tt,
      )
