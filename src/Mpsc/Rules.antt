-- ===== src/Mpsc/Rules.antt =====
-- What each thread of src/mpsc.rs may do, as a predicate on its remaining program. The predicate
-- follows the tree of accesses; where an access reads what other threads write, it holds for every
-- value that they may have stored.
pub mod Bind
use ultima_rings.Base.{
  ℕ, ◌+◌, ◌/◌, ◌%◌, ◌≤◌, ◌<◌, ◌≡◌, ◌≢◌, max, Bool, true, false, List, [], ◌∷◌, ◌++◌, if◌then◌else◌,
  usize_max, zero, suc, ◌||◌, ◌==◌,
}
use ultima_rings.Channel.{ok, err}
use ultima_rings.Memory.{acquires, releases}
use ultima_rings.Program.{ret, act}
use ultima_rings.Mpsc.Defs.{
  load_claim, load_head, load_senders, load_rx_dropped, load_round, store_head, store_round,
  store_rx_dropped, compare_exchange_weak, fetch_add_senders, fetch_sub_senders, write_slot,
  read_slot, fence, wake_consumer, prepare_park, cancel, park, wake_producers, prepare_wait, wait,
  pause, apply, Code,
}
use ultima_rings.Mpsc.State.{Pending, none_pending, claiming, filling}

-- A producer: the slot reads that it knows of, what it is about, and how many senders it holds.
pub record Push (T : Type 0) : Type 0 where
  pub known : ℕ
  pub pending : Pending T
  pub live : ℕ

-- The consumer: the slots read, the reads that its last store of `head` released, whether it knows
-- that the next sequence is published, and, once it knows that the senders are gone, the number of
-- all sequences.
pub record Pull : Type 0 where
  pub read : ℕ
  pub released : ℕ
  pub available : Bool
  pub complete : Bool
  pub all : ℕ

module _ {T : Type 0} (cap : ℕ) {A : Type 0} where
  -- `out` are the sequences that the call has published, with their values, and `Q` is what must hold
  -- at the end.
  abbrev pub Produces :
      (A → Push T → List (ℕ × T) → Type 0) → Code T A → Push T → List (ℕ × T) → Type 0
  Produces Q (ret a) p out = Q a p out
  Produces Q (act (load_claim o) k) p out = (c : ℕ) → c ≤ usize_max → Produces Q (k c) p out
  Produces Q (act (load_head o) k) p out =
      (h : ℕ)
      → Produces Q (k h) (record p { known = if acquires o then max p.known h else p.known }) out
  Produces Q (act (load_rx_dropped o) k) p out = (b : Bool) → Produces Q (k b) p out
  Produces Q (act (compare_exchange_weak o o' expected new) k) p out =
      (p.pending ≡ none_pending)
      × (0 < p.live)
      × (new ≡ expected + 1)
      × (expected < usize_max)
      × (expected < p.known + cap)
      × Produces Q (k (ok tt)) (record p { pending = claiming expected }) out
      × ((c : ℕ) → c ≤ usize_max → Produces Q (k (err c)) p out)
  Produces Q (act (write_slot i v) k) p out =
      (seq : ℕ) × (p.pending ≡ claiming seq)
      × (i ≡ seq % cap)
      × Produces Q (k tt) (record p { pending = filling seq v }) out
  Produces Q (act (store_round o i r) k) p out =
      (seq : ℕ) × (v : T) × (p.pending ≡ filling seq v)
      × (i ≡ seq % cap)
      × (r ≡ seq / cap)
      × (releases o ≡ true)
      × Produces Q (k tt) (record p { pending = none_pending }) (out ++ ((seq, v) ∷ []))
  Produces Q (act (fetch_add_senders o) k) p out =
      (p.live ≡ 1) × Produces Q (k tt) (record p { live = 2 }) out
  Produces Q (act (fetch_sub_senders o) k) p out =
      (p.live ≡ 1)
      × (p.pending ≡ none_pending)
      × (acquires o ≡ true)
      × (releases o ≡ true)
      × ((b : ℕ) → Produces Q (k b) (record p { live = 0 }) out)
  Produces Q (act (fence _) k) p out = Produces Q (k tt) p out
  Produces Q (act (pause _) k) p out = Produces Q (k tt) p out
  Produces Q (act wait k) p out = Produces Q (k tt) p out
  Produces Q (act wake_consumer k) p out = Produces Q (k tt) p out
  Produces Q (act prepare_wait k) p out = Produces Q (k tt) p out
  Produces Q (act (load_senders _) k) p out = ⊥
  Produces Q (act (load_round _ _) k) p out = ⊥
  Produces Q (act (store_head _ _) k) p out = ⊥
  Produces Q (act (store_rx_dropped _) k) p out = ⊥
  Produces Q (act (read_slot _) k) p out = ⊥
  Produces Q (act prepare_park k) p out = ⊥
  Produces Q (act cancel k) p out = ⊥
  Produces Q (act park k) p out = ⊥
  Produces Q (act wake_producers k) p out = ⊥
  Produces Q (act (apply _) k) p out = ⊥

  -- `out` are the values read so far, and `given` those passed to the closure of `drain`.
  abbrev pub Consumes :
      (A → Pull → List T → List T → Type 0) → Code T A → Pull → List T → List T → Type 0
  Consumes Q (ret a) p out given = Q a p out given
  Consumes Q (act (load_round o i) k) p out given =
      (i ≡ p.read % cap)
      × (acquires o ≡ true)
      × ((r : ℕ)
          → (p.complete ≡ true → r ≢ p.read / cap → p.read ≡ p.all)
          → Consumes Q (k r) (record p { available = p.available || r == p.read / cap }) out given)
  Consumes Q (act (load_senders o) k) p out given =
      (acquires o ≡ true)
      × ((n : ℕ) → Consumes Q (k (suc n)) p out given)
      × ((all : ℕ) → Consumes Q (k 0) (record p { complete = true; all = all }) out given)
  Consumes Q (act (read_slot i) k) p out given =
      (p.available ≡ true)
      × (i ≡ p.read % cap)
      × ((v : T)
          → p.read < usize_max
          → Consumes Q (k v) (record p { read = p.read + 1; available = false }) (out ++ (v ∷ []))
              given)
  Consumes Q (act (store_head o x) k) p out given =
      (releases o ≡ true)
      × (x ≡ p.read)
      × Consumes Q (k tt) (record p { released = p.read }) out given
  Consumes Q (act (store_rx_dropped o) k) p out given = Consumes Q (k tt) p out given
  Consumes Q (act (apply v) k) p out given = (b : Bool) → Consumes Q (k b) p out (given ++ (v ∷ []))
  Consumes Q (act (fence _) k) p out given = Consumes Q (k tt) p out given
  Consumes Q (act (pause _) k) p out given = Consumes Q (k tt) p out given
  Consumes Q (act wake_producers k) p out given = Consumes Q (k tt) p out given
  Consumes Q (act prepare_park k) p out given = Consumes Q (k tt) p out given
  Consumes Q (act cancel k) p out given = Consumes Q (k tt) p out given
  Consumes Q (act park k) p out given = Consumes Q (k tt) p out given
  Consumes Q (act (load_claim _) k) p out given = ⊥
  Consumes Q (act (load_head _) k) p out given = ⊥
  Consumes Q (act (load_rx_dropped _) k) p out given = ⊥
  Consumes Q (act (store_round _ _ _) k) p out given = ⊥
  Consumes Q (act (compare_exchange_weak _ _ _ _) k) p out given = ⊥
  Consumes Q (act (fetch_add_senders _) k) p out given = ⊥
  Consumes Q (act (fetch_sub_senders _) k) p out given = ⊥
  Consumes Q (act (write_slot _ _) k) p out given = ⊥
  Consumes Q (act wake_consumer k) p out given = ⊥
  Consumes Q (act prepare_wait k) p out given = ⊥
  Consumes Q (act wait k) p out given = ⊥
