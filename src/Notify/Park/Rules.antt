-- ===== src/Notify/Park/Rules.antt =====
-- How far a waiter and a waker of src/notify.rs have come, and that the rest of a program goes on from
-- there.
use ultima_rings.Base.{ℕ, Bool, true, false, ◌≡◌, refl, Bool-cases, ◌⊎◌, inl, inr}
use ultima_rings.Program.{ret, act, seq_cst}
use ultima_rings.Notify.Park.{
  store_parked, load_parked, register, take, unpark, thread_park, fence, change, check, Code, tail,
  disconnected, wait_once, signal,
}

-- `flagged v`: the waiter's store of the flag is version `v`. `looked v n`: it has read change `n` of
-- the first location; `checked v n m`: and then change `m` of the second.
pub data WaitStage : Type 0 where
  away registered : WaitStage
  flagged fenced : ℕ → WaitStage
  looked : ℕ → ℕ → WaitStage
  checked : ℕ → ℕ → ℕ → WaitStage

-- A waker is about its change `c` of a location until it has cleared the flag.
pub data WakeStage : Type 0 where
  quiet cleared holding : WakeStage
  published fenced saw : ℕ → ℕ → WakeStage

module _ (ends : ℕ → ℕ → Bool) {A : Type 0} where
  abbrev pub Waits : Code A → WaitStage → Type 0
  Waits (ret a) w = w ≡ away
  Waits (act register k) w = (w ≡ away) × Waits (k tt) registered
  Waits (act (store_parked o true) k) w = (w ≡ registered) × ((v : ℕ) → Waits (k tt) (flagged v))
  Waits (act (store_parked o false) k) w = Waits (k tt) away
  Waits (act (fence o) k) w =
      (o ≡ seq_cst) × (v : ℕ) × (w ≡ flagged v) × Waits (k tt) (WaitStage.fenced v)
  Waits (act (check l) k) w =
      ((l ≡ tail) × (v : ℕ) × (w ≡ WaitStage.fenced v) × ((n : ℕ) → Waits (k n) (looked v n)))
      ⊎ ((l ≡ disconnected)
          × (v : ℕ) × (n : ℕ) × (w ≡ looked v n)
          × ((m : ℕ) → Waits (k m) (checked v n m)))
  Waits (act thread_park k) w =
      (v n m : ℕ) × (w ≡ checked v n m)
      × (ends tail n ≡ false)
      × (ends disconnected m ≡ false)
      × Waits (k tt) away
  Waits (act (load_parked _) k) w = ⊥
  Waits (act take k) w = ⊥
  Waits (act unpark k) w = ⊥
  Waits (act (change _) k) w = ⊥

module _ {A : Type 0} where
  abbrev pub Wakes : Code A → WakeStage → Type 0
  Wakes (ret a) w = w ≡ quiet
  Wakes (act (change l) k) w = (w ≡ quiet) × ((c : ℕ) → Wakes (k tt) (published l c))
  Wakes (act (fence o) k) w =
      (o ≡ seq_cst) × (l c : ℕ) × (w ≡ published l c) × Wakes (k tt) (WakeStage.fenced l c)
  Wakes (act (load_parked o) k) w =
      (l c : ℕ) × (w ≡ WakeStage.fenced l c) × Wakes (k true) (saw l c) × Wakes (k false) quiet
  Wakes (act (store_parked o b) k) w =
      (b ≡ false) × (l c : ℕ) × (w ≡ saw l c) × Wakes (k tt) cleared
  Wakes (act take k) w = (w ≡ cleared) × Wakes (k true) holding × Wakes (k false) quiet
  Wakes (act unpark k) w = (w ≡ holding) × Wakes (k tt) quiet
  Wakes (act register k) w = ⊥
  Wakes (act (check _) k) w = ⊥
  Wakes (act thread_park k) w = ⊥

pub wait_once-Waits : (ends : ℕ → ℕ → Bool) → Waits ends (wait_once ends) away
unfolding wait_once
wait_once-Waits ends = (
  refl,
  (
    refl,
    λ v. (
      refl,
      v,
      refl,
      inl (
        refl,
        v,
        refl,
        λ n. elim (Bool-cases (ends tail n)) [
          | inl e ↦ rw e refl
          | inr e ↦ rw e (
              inr (
                refl,
                v,
                n,
                refl,
                λ m. elim (Bool-cases (ends disconnected m)) [
                  | inl f ↦ rw f refl
                  | inr f ↦ rw f (v, n, m, refl, e, f, refl)
                ],
              ))
        ],
      ),
    ),
  ),
)

pub signal-Wakes : (l : ℕ) → Wakes (signal l) quiet
unfolding signal
signal-Wakes l = (
  refl,
  λ c. (refl, l, c, refl, (l, c, refl, (refl, l, c, refl, (refl, (refl, refl), refl)), refl)),
)
