-- ===== src/Mpsc/Delivery.antt =====
-- What the receiver of src/mpsc.rs gets in every reachable state.
use ultima_rings.Base.{
  ℕ, true, ◌≤◌, ◌≡◌, sym, ap, ◌∙◌, Option, none, some, List, [], ◌∷◌, ◌++◌, length, unchanged,
}
use ultima_rings.Channel.{Result, ok, err, TryRecvError, RecvError}
use ultima_rings.Program.{ret}
use ultima_rings.Mpsc.Config.{IsConfig}
use ultima_rings.Mpsc.Defs.{Config, Receiver}
use ultima_rings.Mpsc.Reachable.{Reach-Sound}
use ultima_rings.Mpsc.Sound.{Sound, receiver_at}
use ultima_rings.Mpsc.System.{System, RecvCall, RecvThread, Reach}

module _ {T : Type 0} {sh : Config} (is : IsConfig sh) {y : System T} (reach : Reach sh y) where
  -- The senders are gone, and every sequence ever claimed has been read.
  abbrev pub Finished : Type 0
  Finished = (y.state.senders ≡ 0) × (length y.state.read ≡ y.state.claim)

  finished_lem : (d : Sound is y) → d.pull.complete ≡ true → d.pull.read ≡ d.pull.all → Finished
  finished_lem d c all =
      let (gone, total, seen) = d.inv.certain.complete c in
      (gone, sym d.inv.logs.count ∙ all ∙ total)

  -- What the ring shows of a call of `try_recv` that is about to return `r`, having begun when
  -- `began` values were read.
  abbrev pub TryRecvShows : ℕ → Result T TryRecvError → Type 0
  TryRecvShows began (ok v) =
      (before : List T) × (length before ≡ began) × (y.state.read ≡ before ++ (v ∷ []))
  TryRecvShows began (err TryRecvError.empty) = length y.state.read ≡ began
  TryRecvShows began (err TryRecvError.disconnected) = (length y.state.read ≡ began) × Finished

  -- In every reachable state of a valid ring in which a call of `try_recv` is about to return, it
  -- returns the one value that it has read, or has read nothing; it reports `Disconnected` only when
  -- the senders are gone and every sequence ever claimed has been read.
  pub try_recv_delivers :
      (began : ℕ) (self : Receiver) (r : Result T TryRecvError)
      → y.receiver ≡ RecvThread.busy RecvCall.try_receiving began (ret (self, r))
      → TryRecvShows began r
  try_recv_delivers began self (ok v) e =
      let a = receiver_at is (Reach-Sound is reach) e in
      (a.before, a.began_at, a.grown ∙ ap (λ l. a.before ++ l) a.rule.1)
  try_recv_delivers began self (err TryRecvError.empty) e =
      let a = receiver_at is (Reach-Sound is reach) e in
      unchanged a.before a.out a.began_at a.grown a.rule.1
  try_recv_delivers began self (err TryRecvError.disconnected) e =
      let d = Reach-Sound is reach in
      let a = receiver_at is d e in
      let (nothing, complete, all) = a.rule.1 in
      (unchanged a.before a.out a.began_at a.grown nothing, finished_lem d complete all)

  -- What the ring shows of a call of `recv` after some attempts: `none` is a call that waits.
  abbrev pub RecvShows : ℕ → Option (Result T RecvError) → Type 0
  RecvShows began (some (ok v)) =
      (before : List T) × (length before ≡ began) × (y.state.read ≡ before ++ (v ∷ []))
  RecvShows began (some (err _)) = (length y.state.read ≡ began) × Finished
  RecvShows began none = length y.state.read ≡ began

  -- In every reachable state of a valid ring in which a call `recv` of some attempts is about to
  -- return, it returns the one value that it has read, or fails having read nothing and only when the
  -- senders are gone and every sequence ever claimed has been read; as long as it waits it has read
  -- nothing.
  pub recv_delivers :
      (n began : ℕ) (self : Receiver) (r : Option (Result T RecvError))
      → y.receiver ≡ RecvThread.busy (RecvCall.receiving n) began (ret (self, r))
      → RecvShows began r
  recv_delivers n began self (some (ok v)) e =
      let a = receiver_at is (Reach-Sound is reach) e in
      (a.before, a.began_at, a.grown ∙ ap (λ l. a.before ++ l) a.rule.1)
  recv_delivers n began self (some (err _)) e =
      let d = Reach-Sound is reach in
      let a = receiver_at is d e in
      let (nothing, complete, all) = a.rule.1 in
      (unchanged a.before a.out a.began_at a.grown nothing, finished_lem d complete all)
  recv_delivers n began self none e =
      let a = receiver_at is (Reach-Sound is reach) e in
      unchanged a.before a.out a.began_at a.grown a.rule.1

  -- What a call of `drain max` returns, `none` by unwinding, having moved some values.
  abbrev pub DrainCounts : ℕ → Option ℕ → List T → Type 0
  DrainCounts max (some n) moved = (n ≡ length moved) × (n ≤ max)
  DrainCounts max none moved = Unit

  -- In every reachable state of a valid ring in which a call `drain max` is about to return or to
  -- unwind, it has handed every value that it read to the closure, in order, and the shared cursor is
  -- past all the slots that have been read. On a return it gives their number, at most `max`.
  pub drain_delivers :
      (max began : ℕ) (self : Receiver) (r : Option ℕ)
      → y.receiver ≡ RecvThread.busy (RecvCall.draining max) began (ret (self, r))
      → (before handed moved : List T) × (length before ≡ began)
        × (y.state.read ≡ before ++ moved)
        × (y.state.given ≡ handed ++ moved)
        × (y.state.head.value y.state.head.latest ≡ length y.state.read)
        × DrainCounts max r moved
  drain_delivers max began self (some n) e =
      let d = Reach-Sound is reach in
      let a = receiver_at is d e in
      let (idle, given, count, limit) = a.rule in
      (
        a.before,
        a.handed_before,
        a.out,
        a.began_at,
        a.grown,
        a.handed_grown ∙ ap (λ l. a.handed_before ++ l) given,
        d.inv.counters.last ∙ idle.released ∙ d.inv.logs.count,
        (count, limit),
      )
  drain_delivers max began self none e =
      let d = Reach-Sound is reach in
      let a = receiver_at is d e in
      let (idle, given) = a.rule in
      (
        a.before,
        a.handed_before,
        a.out,
        a.began_at,
        a.grown,
        a.handed_grown ∙ ap (λ l. a.handed_before ++ l) given,
        d.inv.counters.last ∙ idle.released ∙ d.inv.logs.count,
        tt,
      )
