-- ===== src/Sharded/Delivery.antt =====
-- What holds in every reachable state of the producers and the consumer of src/sharded.rs.
mod Tests
use ultima_rings.Base.{ℕ, ◌+◌, ◌≤◌, ◌<◌, ◌≡◌, List, [], ◌∷◌, ◌++◌, true, false, length}
use ultima_rings.Channel.{Result, ok, err, TryRecvError, RecvError}
use ultima_rings.Program.{ret, act}
use ultima_rings.Spsc.Config.{IsConfig}
use ultima_rings.Spsc.Defs.{Config}
use ultima_rings.Spsc.Safety.{reads_in_order}
use ultima_rings.Spsc.System
use ultima_rings.Wait.{is_park}
use ultima_rings.Sharded.{Receiver, Received, Call, Code}
use ultima_rings.Sharded.Sound.{threads-Sound, consumer_at, Post}
use ultima_rings.Sharded.Visits.{Known, Visits}
use ultima_rings.Sharded.Threads.{RecvCall, RecvResult, Consumer, Threads, Reach}

module _ {T : Type 0} {sh : Config} (is : IsConfig sh) {n : ℕ} {y : Threads T} (some_shards : 0 < n)
    (awake : is_park sh.strategy ≡ false) (reach : Reach n sh y) where
  -- The index at which the consumer is about to use a shard, or is using it.
  abbrev pub UsesShard : {A : Type 0} → Code T A → ℕ → Type 0
  UsesShard (ret a) i = ⊥
  UsesShard (act (Call.try_recv_shard j) k) i = j ≡ i
  UsesShard (act (Call.drain_shard j want) k) i = j ≡ i
  UsesShard (act (Call.pause p) k) i = ⊥

  -- In every reachable state of a sharded channel with at least one shard and a strategy other than
  -- `Park`, the consumer indexes the shards within their number: its use of `shards[cursor]` does not
  -- panic.
  pub shard_in_bounds :
      (call : RecvCall) (code : Code T (RecvResult T call)) (i : ℕ)
      → y.consumer ≡ Consumer.busy call code
      → UsesShard code i
      → i < n
  shard_in_bounds call code i e uses =
      let (kn, knows, rule) = consumer_at (threads-Sound is some_shards awake reach) e in
      within call code i kn rule uses
    where
      within :
          (call : RecvCall) (code : Code T (RecvResult T call)) (i : ℕ) (kn : Known T)
          → Visits n (Post n call) code kn
          → UsesShard code i
          → i < n
      within call (ret a) i kn rule uses = absurd uses
      within call (act (Call.try_recv_shard j) k) i kn (_, _, inside, _, _, _, _) uses =
          rw⁻¹ uses inside
      within call (act (Call.drain_shard j want) k) i kn rule uses = rw⁻¹ uses (rule.0)
      within call (act (Call.pause p) k) i kn rule uses = absurd uses

  -- What the shards show of a `try_recv` of the consumer that is about to return.
  abbrev pub TryRecvShows : Receiver → Result T TryRecvError → Type 0
  TryRecvShows self (ok v) =
      (self.cursor < n)
      × (before : List T) × ((y.shards self.cursor).state.read ≡ before ++ (v ∷ []))
  TryRecvShows self (err TryRecvError.disconnected) =
      (self.cursor < n)
      × ((i : ℕ)
          → i < n
          → ((y.shards i).state.disconnected ≡ true)
            × ((y.shards i).state.read ≡ (y.shards i).state.written))
  TryRecvShows self (err TryRecvError.empty) = self.cursor < n

  -- In every reachable state of a sharded channel with at least one shard and a strategy other than
  -- `Park` in which a call of `try_recv` is about to return, a value that it returns is the last one
  -- read from the shard at the cursor; and it returns `Disconnected` only if now every shard has its
  -- disconnect flag set and every value written to it has been read. Whatever it returns, the cursor is
  -- below the number of shards.
  pub sharded_try_recv_outcome :
      (self : Receiver) (r : Result T TryRecvError)
      → y.consumer ≡ Consumer.busy RecvCall.try_receiving (ret (self, r))
      → TryRecvShows self r
  sharded_try_recv_outcome self (ok v) e =
      let (kn, knows, (at, last)) = consumer_at (threads-Sound is some_shards awake reach) e in
      let l = knows.last self.cursor v last in (at.1, l.before, l.last)
  sharded_try_recv_outcome self (err TryRecvError.disconnected) e =
      let (kn, knows, (at, all)) = consumer_at (threads-Sound is some_shards awake reach) e in
      (at.1, λ i h. let d = knows.done i (all i h) in (d.closed, d.all))
  sharded_try_recv_outcome self (err TryRecvError.empty) e =
      let (kn, knows, at) = consumer_at (threads-Sound is some_shards awake reach) e in at.1

  -- What the shards show of a `recv` of the consumer that is about to return.
  abbrev pub RecvShows : Receiver → Received T → Type 0
  RecvShows self (Received.returned (ok v)) =
      (self.cursor < n)
      × (before : List T) × ((y.shards self.cursor).state.read ≡ before ++ (v ∷ []))
  RecvShows self (Received.returned (err _)) =
      (i : ℕ)
      → i < n
      → ((y.shards i).state.disconnected ≡ true)
        × ((y.shards i).state.read ≡ (y.shards i).state.written)
  RecvShows self Received.waiting = self.cursor < n
  RecvShows self Received.panicked = ⊥

  -- In every reachable state of a sharded channel with at least one shard and a strategy other than `Park` in which a call of `recv`
  -- of some attempts is about to return, a value that it returns is the last one read from the shard at
  -- the cursor; and it fails only if now every shard has its disconnect flag set and every value
  -- written to it has been read. It does not panic on its strategy.
  pub sharded_recv_outcome :
      (attempts : ℕ) (self : Receiver) (r : Received T)
      → y.consumer ≡ Consumer.busy (RecvCall.receiving attempts) (ret (self, r))
      → RecvShows self r
  sharded_recv_outcome attempts self (Received.returned (ok v)) e =
      let (kn, knows, (at, last)) = consumer_at (threads-Sound is some_shards awake reach) e in
      let l = knows.last self.cursor v last in (at.1, l.before, l.last)
  sharded_recv_outcome attempts self (Received.returned (err _)) e =
      let (kn, knows, (at, all)) = consumer_at (threads-Sound is some_shards awake reach) e in
      λ i h. let d = knows.done i (all i h) in (d.closed, d.all)
  sharded_recv_outcome attempts self Received.waiting e =
      let (kn, knows, at) = consumer_at (threads-Sound is some_shards awake reach) e in at.1
  sharded_recv_outcome attempts self Received.panicked e =
      let (kn, knows, never) = consumer_at (threads-Sound is some_shards awake reach) e in
      absurd never
