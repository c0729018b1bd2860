-- ===== src/Spsc/Rules.antt =====
-- What each thread of src/spsc.rs may do, as a predicate on its remaining program. The predicate
-- follows the tree of accesses; where an access reads what the other thread writes, it holds for
-- every value that the other thread may have stored.
pub mod Bind
use ultima_rings.Base.{
  ℕ, ◌+◌, ◌%◌, ◌≤◌, ◌<◌, ◌≡◌, Bool, true, false, List, [], ◌∷◌, ◌++◌, if◌then◌else◌, wrap,
}
use ultima_rings.Program.{ret, act}
use ultima_rings.Spsc.Defs.{
  load_tail, load_head, load_disconnected, store_tail, store_head, store_disconnected, write_slot,
  read_slot, fence, wake, prepare_park, cancel, park, pause, apply, Code,
}
use ultima_rings.Spsc.State.{acquires, releases}

-- The producer's side: the slots written, the reads that it knows of, and whether it has yet to
-- publish its last write or to close.
pub record Push : Type 0 where
  pub written : ℕ
  pub known : ℕ
  pub published : Bool
  pub live : Bool

-- The consumer's side: the slots read, the reads that its last store of `head` released, the writes
-- that it knows of, whether it knows these to be all, and whether it has not closed.
pub record Pull : Type 0 where
  pub read : ℕ
  pub released : ℕ
  pub known : ℕ
  pub complete : Bool
  pub live : Bool

module _ {T : Type 0} (cap : ℕ) {A : Type 0} where
  -- `out` are the values written so far, and `Q` is what must hold at the end.
  abbrev pub Produces : (A → Push → List T → Type 0) → Code T A → Push → List T → Type 0
  Produces Q (ret a) p out = Q a p out
  Produces Q (act (load_head o) k) p out =
      (h : ℕ)
      → p.known ≤ h
      → h ≤ p.written
      → Produces Q (k (wrap h)) (record p { known = if acquires o then h else p.known }) out
  Produces Q (act (load_disconnected o) k) p out = (b : Bool) → Produces Q (k b) p out
  Produces Q (act (store_tail o x) k) p out =
      (releases o ≡ true)
      × (p.live ≡ true)
      × (x ≡ wrap p.written)
      × Produces Q (k tt) (record p { published = true }) out
  Produces Q (act (store_disconnected o) k) p out =
      (releases o ≡ true) × (p.published ≡ true) × Produces Q (k tt) (record p { live = false }) out
  Produces Q (act (write_slot i v) k) p out =
      (p.live ≡ true)
      × (p.written < p.known + cap)
      × (i ≡ p.written % cap)
      × Produces Q (k tt) (record p { written = p.written + 1; published = false })
          (out ++ (v ∷ []))
  Produces Q (act (fence _) k) p out = Produces Q (k tt) p out
  Produces Q (act (pause _) k) p out = Produces Q (k tt) p out
  Produces Q (act (wake _) k) p out = Produces Q (k tt) p out
  Produces Q (act (prepare_park _) k) p out = Produces Q (k tt) p out
  Produces Q (act (cancel _) k) p out = Produces Q (k tt) p out
  Produces Q (act (park _) k) p out = Produces Q (k tt) p out
  Produces Q (act (load_tail _) k) p out = ⊥
  Produces Q (act (store_head _ _) k) p out = ⊥
  Produces Q (act (read_slot _) k) p out = ⊥
  Produces Q (act (apply _) k) p out = ⊥

  -- `out` are the values read so far, and `given` those passed to the closure of `drain`.
  abbrev pub Consumes :
      (A → Pull → List T → List T → Type 0) → Code T A → Pull → List T → List T → Type 0
  Consumes Q (ret a) p out given = Q a p out given
  Consumes Q (act (load_tail o) k) p out given =
      (t : ℕ)
      → p.known ≤ t
      → t ≤ p.released + cap
      → (p.complete ≡ true → t ≡ p.known)
      → Consumes Q (k (wrap t)) (record p { known = if acquires o then t else p.known }) out given
  Consumes Q (act (load_disconnected o) k) p out given =
      (acquires o ≡ true)
      × (p.live ≡ true)
      × Consumes Q (k false) p out given
      × ((t : ℕ)
          → p.known ≤ t
          → t ≤ p.released + cap
          → (p.complete ≡ true → t ≡ p.known)
          → Consumes Q (k true) (record p { known = t; complete = true }) out given)
  Consumes Q (act (store_head o x) k) p out given =
      (releases o ≡ true)
      × (x ≡ wrap p.read)
      × Consumes Q (k tt) (record p { released = p.read }) out given
  Consumes Q (act (store_disconnected o) k) p out given =
      Consumes Q (k tt) (record p { live = false }) out given
  Consumes Q (act (read_slot i) k) p out given =
      (p.read < p.known)
      × (i ≡ p.read % cap)
      × ((v : T) → Consumes Q (k v) (record p { read = p.read + 1 }) (out ++ (v ∷ [])) given)
  Consumes Q (act (apply v) k) p out given = (b : Bool) → Consumes Q (k b) p out (given ++ (v ∷ []))
  Consumes Q (act (fence _) k) p out given = Consumes Q (k tt) p out given
  Consumes Q (act (pause _) k) p out given = Consumes Q (k tt) p out given
  Consumes Q (act (wake _) k) p out given = Consumes Q (k tt) p out given
  Consumes Q (act (prepare_park _) k) p out given = Consumes Q (k tt) p out given
  Consumes Q (act (cancel _) k) p out given = Consumes Q (k tt) p out given
  Consumes Q (act (park _) k) p out given = Consumes Q (k tt) p out given
  Consumes Q (act (load_head _) k) p out given = ⊥
  Consumes Q (act (store_tail _ _) k) p out given = ⊥
  Consumes Q (act (write_slot _ _) k) p out given = ⊥
