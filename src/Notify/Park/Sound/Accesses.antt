-- ===== src/Notify/Park/Sound/Accesses.antt =====
-- Each access that a program makes, by the rules for it.
use ultima_rings.Base.{
  ℕ, suc, inl, inr, subst, Bool, true, false, ◌&&◌, leb, ltb, update, Bool-cases, arith, Yields,
  if◌then◌else◌, some, none,
}
use ultima_rings.Program.{act}
use ultima_rings.Notify.Park.{
  Access, store_parked, load_parked, register, take, unpark, thread_park, fence, change, check,
  Reply, Code, tail, disconnected,
}
use ultima_rings.Notify.Park.Memory.{State, access}
use ultima_rings.Notify.Park.Inv.{Inv}
use ultima_rings.Notify.Park.Inv.Waker
use ultima_rings.Notify.Park.Inv.Waker.{change-Inv, load_parked-Inv}
use ultima_rings.Notify.Park.Inv.Clear.{store_parked-Inv, take-Inv, unpark-Inv}
use ultima_rings.Notify.Park.Inv.Waiter
use ultima_rings.Notify.Park.Inv.Waiter.{
  register-Inv, lower-Inv, raise-Inv, check_first-Inv, check_second-Inv, thread_park-Inv, away-Inv,
}
use ultima_rings.Notify.Park.Rules.{
  WaitStage, away, registered, WakeStage, quiet, cleared, Waits, Wakes,
}

either :
    {B : Type 0} (P : B → Type 0) (b u : Bool) {x y : B}
    → P x
    → P y
    → Yields P (if b then some x else if u then some y else none)
either P true u p q = p
either P false true p q = q
either P false false p q = tt

module _ {A : Type 0} (ends : ℕ → ℕ → Bool) (s : State) where
  abbrev pub Waited : {R : Type 0} → (ℕ → WakeStage) → (R → Code A) → R × State → Type 0
  Waited k rest (r, s') = (w : WaitStage) × Inv s' w k × Waits ends (rest r) w

  pub access-Waits :
      (w : WaitStage) (k : ℕ → WakeStage) (choice : ℕ) (c : Access) (rest : Reply c → Code A)
      → Inv s w k
      → Waits ends (act c rest) w
      → Yields (Waited k rest) (access 0 choice s c)
  unfolding access
  access-Waits w k choice (store_parked o true) rest inv (e, rule) =
      (_, raise-Inv s k (subst (λ w. Inv s w k) e inv), rule _)
  access-Waits w k choice (store_parked o false) rest inv rule = (away, lower-Inv s k w inv, rule)
  access-Waits w k choice (load_parked o) rest inv rule = absurd rule
  access-Waits w k choice register rest inv (e, rule) =
      (registered, register-Inv s k (subst (λ w. Inv s w k) e inv), rule)
  access-Waits w k choice take rest inv rule = absurd rule
  access-Waits w k choice unpark rest inv rule = absurd rule
  access-Waits w k choice thread_park rest inv (v, n, m, e, stays, stays', rule) =
      either (Waited k rest) s.token (ltb 0 choice) (away, thread_park-Inv s k w inv, rule)
        (away, away-Inv s k w inv, rule)
  access-Waits w k choice (fence o) rest inv (e, v, f, rule) =
      rw e (_, Waiter.fence-Inv s k v (subst (λ w. Inv s w k) f inv), rule)
  access-Waits w k choice (change _) rest inv rule = absurd rule
  access-Waits w k choice (check l) rest inv (inl (e, v, f, rule)) =
      rw e (elim (Bool-cases (leb (s.change_seen 0 tail) choice && leb choice (s.changes tail))) [
        | inl t ↦ rw t (
          _,
          check_first-Inv s k v choice (subst (λ w. Inv s w k) f inv) (ground (arith, t))
              (ground (arith, t)),
          rule choice,
        )
        | inr t ↦ rw t tt
      ])
  access-Waits w k choice (check l) rest inv (inr (e, v, n, f, rule)) =
      rw e
        (elim (Bool-cases
          (leb (s.change_seen 0 disconnected) choice && leb choice (s.changes disconnected))) [
            | inl t ↦ rw t (
              _,
              check_second-Inv s k v n choice (subst (λ w. Inv s w k) f inv) (ground (arith, t))
                  (ground (arith, t)),
              rule choice,
            )
            | inr t ↦ rw t tt
          ])

module _ {A : Type 0} (s : State) where
  abbrev pub Woken :
      {R : Type 0} → WaitStage → (ℕ → WakeStage) → ℕ → (R → Code A) → R × State → Type 0
  Woken w k i rest (r, s') = (x : WakeStage) × Inv s' w (update k i x) × Wakes (rest r) x

  pub access-Wakes :
      (w : WaitStage) (k : ℕ → WakeStage) (i choice : ℕ) (c : Access) (rest : Reply c → Code A)
      → Inv s w k
      → Wakes (act c rest) (k i)
      → Yields (Woken w k i rest) (access (suc i) choice s c)
  unfolding access
  access-Wakes w k i choice (store_parked o b) rest inv (e, l, c, f, rule) =
      rw e (cleared, store_parked-Inv s k i w l c inv f, rule)
  access-Wakes w k i choice (load_parked o) rest inv (l, c, e, up, down) =
      elim (Bool-cases (leb (s.flag_seen (suc i)) choice && leb choice s.latest)) [
        | inl t ↦ rw t (
          _,
          load_parked-Inv s k i w l c choice inv e (ground (arith, t)) (ground (arith, t)),
          elim (Bool-cases (s.flag choice)) [ inl b ↦ rw b up | inr b ↦ rw b down ],
        )
        | inr t ↦ rw t tt
      ]
  access-Wakes w k i choice register rest inv rule = absurd rule
  access-Wakes w k i choice take rest inv (e, there, not_there) = (
    _,
    take-Inv s k i w inv e,
    elim (Bool-cases s.slot) [ inl b ↦ rw b there | inr b ↦ rw b not_there ],
  )
  access-Wakes w k i choice unpark rest inv (e, rule) = (quiet, unpark-Inv s k i w inv e, rule)
  access-Wakes w k i choice thread_park rest inv rule = absurd rule
  access-Wakes w k i choice (fence o) rest inv (e, l, c, f, rule) =
      rw e (_, Waker.fence-Inv s k i w l c inv f, rule)
  access-Wakes w k i choice (change l) rest inv (e, rule) = (_, change-Inv s k i w l inv e, rule _)
  access-Wakes w k i choice (check _) rest inv rule = absurd rule
