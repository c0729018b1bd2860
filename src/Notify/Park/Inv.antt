-- ===== src/Notify/Park/Inv.antt =====
-- The invariant of a waiter and its wakers: as long as the waiter counts on being woken, its flag is up
-- and it is registered, or a waker is on its way to unpark it.
pub mod Standing
pub mod Waker
pub mod Clear
pub mod Waiter
use ultima_rings.Base.{
  ℕ, suc, ◌≤◌, ◌≡◌, ◌≢◌, ◌⊎◌, inl, inr, Bool, true, false, ◌==◌, if◌then◌else◌, update, update_self,
  update_ne, Bool-cases, arith, sym, ◌∙◌,
}
use ultima_rings.Notify.Park.{tail, disconnected}
use ultima_rings.Notify.Park.Memory.{State}
use ultima_rings.Notify.Park.Rules.{
  WaitStage, away, registered, flagged, looked, checked, WakeStage, quiet, cleared, holding,
  published, saw,
}

-- Somebody will unpark the waiter, or has done so.
abbrev pub Helped : Bool → Bool → (ℕ → WakeStage) → Type 0
Helped token slot k =
    (token ≡ true) ⊎ ((slot ≡ true) × (i : ℕ) × (k i ≡ cleared)) ⊎ ((i : ℕ) × (k i ≡ holding))

abbrev pub Armed : State → (ℕ → WakeStage) → ℕ → Type 0
Armed s k v = Helped s.token s.slot k ⊎ ((s.slot ≡ true) × (s.latest ≡ v))

-- A waker is yet to look at the flag for its change `c` of the location, or has seen that it is up.
abbrev pub About : WakeStage → ℕ → ℕ → Type 0
About w l c = (w ≡ published l c) ⊎ (w ≡ WakeStage.fenced l c) ⊎ (w ≡ saw l c)

abbrev pub Busy : (ℕ → WakeStage) → ℕ → ℕ → Type 0
Busy k l c = (i : ℕ) × About (k i) l c

-- The waiter's flag is version `v`.
pub record Raised (s : State) (k : ℕ → WakeStage) (v : ℕ) : Type 0 where
  pub armed : Armed s k v
  pub up : s.flag v ≡ true
  pub le : v ≤ s.latest

-- After the waiter's fence, a waker that has fenced sees the flag, or the waiter sees its change; each
-- change has been seen by the waiter, or will be looked after.
pub record Ready (s : State) (k : ℕ → WakeStage) (v : ℕ) : Type 0 where
  pub raised : Raised s k v
  pub past : v ≤ s.fence_flag
  pub meets :
      (i l c : ℕ) → k i ≡ WakeStage.fenced l c → (v ≤ s.flag_seen (suc i)) ⊎ (c ≤ s.change_seen 0 l)
  pub covered :
      (l c : ℕ) → c ≤ s.changes l → (c ≤ s.change_seen 0 l) ⊎ Helped s.token s.slot k ⊎ Busy k l c

abbrev pub Standing : State → (ℕ → WakeStage) → WaitStage → Type 0
Standing s k away = Unit {0}
Standing s k registered = Helped s.token s.slot k ⊎ (s.slot ≡ true)
Standing s k (flagged v) = Raised s k v × (v ≤ s.flag_seen 0)
Standing s k (WaitStage.fenced v) = Ready s k v
Standing s k (looked v n) = Ready s k v × (n ≡ s.change_seen 0 tail)
Standing s k (checked v n m) =
    Ready s k v × (n ≡ s.change_seen 0 tail) × (m ≡ s.change_seen 0 disconnected)

pub record Inv (s : State) (w : WaitStage) (k : ℕ → WakeStage) : Type 0 where
  pub flag_bound : (i : ℕ) → s.flag_seen i ≤ s.latest
  pub change_bound : (i l : ℕ) → s.change_seen i l ≤ s.changes l
  pub fence_bound : s.fence_flag ≤ s.latest
  pub changes_bound : (l : ℕ) → s.fence_changes l ≤ s.changes l
  pub publishes : (i l c : ℕ) → k i ≡ published l c → c ≤ s.change_seen (suc i) l
  pub fences : (i l c : ℕ) → k i ≡ WakeStage.fenced l c → c ≤ s.fence_changes l
  pub fenced_or :
      (l c : ℕ) → c ≤ s.changes l → (c ≤ s.fence_changes l) ⊎ ((i : ℕ) × (k i ≡ published l c))
  pub standing : Standing s k w

-- A waker that helped nobody goes on.
pub Helped-update :
    (token slot : Bool) (k : ℕ → WakeStage) (i : ℕ) (x : WakeStage)
    → k i ≢ cleared
    → k i ≢ holding
    → Helped token slot k
    → Helped token slot (update k i x)
Helped-update token slot k i x c h (inl e) = inl e
Helped-update token slot k i x c h (inr (inl (e, j, f))) =
    inr (inl (e, j, update_ne k i j x (λ same. c (rw same at f)) ∙ f))
Helped-update token slot k i x c h (inr (inr (j, f))) =
    inr (inr (j, update_ne k i j x (λ same. h (rw same at f)) ∙ f))

pub Busy-update :
    (k : ℕ → WakeStage) (i l c : ℕ) (x : WakeStage)
    → Busy k l c
    → Busy (update k i x) l c ⊎ About (k i) l c
Busy-update k i l c x (j, f) = elim (Bool-cases (j == i)) [
  | inl e ↦ let same : j ≡ i = ground (arith, e) in inr (rw same at f)
  | inr e ↦ inl (j, rw e f)
]
