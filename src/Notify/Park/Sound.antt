-- ===== src/Notify/Park/Sound.antt =====
-- The invariant holds of every state that the waiter and its wakers reach.
pub mod Accesses
use ultima_rings.Base.{
  ℕ, zero, suc, ◌≤◌, ◌≡◌, ◌≢◌, ◌⊎◌, inl, inr, refl, sym, subst, ◌∙◌, Bool, true, false, some,
  update, update_self, Bool-cases, ◌==◌, arith, yields_some,
}
use ultima_rings.Program.{act, ret}
use ultima_rings.Notify.Park.{
  Access, Reply, Code, thread_park, wait_once, signal, tail, disconnected,
}
use ultima_rings.Notify.Park.Memory.{State, fresh, access}
use ultima_rings.Notify.Park.Inv.{Inv, Standing, Ready}
use ultima_rings.Notify.Park.Rules.{
  WaitStage, away, checked, WakeStage, quiet, Waits, Wakes, wait_once-Waits, signal-Wakes,
}
use ultima_rings.Notify.Park.System.{
  Thread, idle, busy, System, init, Step, wait, access_wait, return_wait, begin, access_signal,
  return_signal, Reach, start, later,
}
use ultima_rings.Notify.Park.Sound.Accesses.{access-Waits, access-Wakes}

abbrev WaiterOk : (ℕ → ℕ → Bool) → Thread → WaitStage → Type 0
WaiterOk ends idle w = w ≡ away
WaiterOk ends (busy code) w = Waits ends code w

abbrev WakerOk : Thread → WakeStage → Type 0
WakerOk idle x = x ≡ quiet
WakerOk (busy code) x = Wakes code x

pub record Sound (ends : ℕ → ℕ → Bool) (y : System) : Type 0 where
  pub stage : WaitStage
  pub stages : ℕ → WakeStage
  pub inv : Inv y.state stage stages
  pub waiter_ok : WaiterOk ends y.waiter stage
  pub wakers_ok : (i : ℕ) → WakerOk (y.wakers i) (stages i)

wakers_update :
    (f : ℕ → Thread) (k : ℕ → WakeStage) (i : ℕ) (t : Thread) (x : WakeStage)
    → ((j : ℕ) → WakerOk (f j) (k j))
    → WakerOk t x
    → (j : ℕ) → WakerOk (update f i t j) (update k i x j)
wakers_update f k i t x h o j = elim (Bool-cases (j == i)) [ inl e ↦ rw e o | inr e ↦ rw e (h j) ]

wakers_stay :
    (f : ℕ → Thread) (k : ℕ → WakeStage) (i : ℕ) (t : Thread)
    → ((j : ℕ) → WakerOk (f j) (k j))
    → WakerOk t (k i)
    → (j : ℕ) → WakerOk (update f i t j) (k j)
wakers_stay f k i t h o j = elim (Bool-cases (j == i)) [
  | inl e ↦ let same : i ≡ j = ground (arith, e) in rw e (subst (λ n. WakerOk t (k n)) same o)
  | inr e ↦ rw e (h j)
]

module _ {ends : ℕ → ℕ → Bool} where
  waiter_at : {y : System} {t : Thread} (d : Sound ends y) → y.waiter ≡ t → WaiterOk ends t d.stage
  waiter_at d e = subst (λ t. WaiterOk ends t d.stage) e d.waiter_ok

  waker_at :
      {y : System} {t : Thread} (d : Sound ends y) (i : ℕ) → y.wakers i ≡ t → WakerOk t (d.stages i)
  waker_at d i e = subst (λ t. WakerOk t (d.stages i)) e (d.wakers_ok i)

  Sound-init : Sound ends init
  unfolding init fresh
  Sound-init = record {
    stage = away;
    stages = λ _. quiet;
    inv = record {
      flag_bound = λ _. omega arith;
      change_bound = λ _ _. omega arith;
      fence_bound = omega arith;
      changes_bound = λ _. omega arith;
      publishes = λ i l c f. ground (arith, f);
      fences = λ i l c f. ground (arith, f);
      fenced_or = λ l c le. inl le;
      standing = tt;
    };
    waiter_ok = refl;
    wakers_ok = λ _. refl;
  }

  Sound-step : (y z : System) → Sound ends y → Step ends y z → Sound ends z
  Sound-step y z d (wait e f) = subst (Sound ends) (sym f) (record {
    stage = away;
    stages = d.stages;
    inv = subst (λ w. Inv y.state w d.stages) (waiter_at d e) d.inv;
    waiter_ok = wait_once-Waits ends;
    wakers_ok = d.wakers_ok;
  })
  Sound-step y z d (access_wait c k choice r s e a f) =
      let (w, inv, ok) =
        yields_some _ (access-Waits ends y.state d.stage d.stages choice c k d.inv (waiter_at d e))
          a in
      subst (Sound ends) (sym f) (record {
        stage = w;
        stages = d.stages;
        inv = inv;
        waiter_ok = ok;
        wakers_ok = d.wakers_ok;
      })
  Sound-step y z d (return_wait e f) = subst (Sound ends) (sym f) (record {
    stage = away;
    stages = d.stages;
    inv = subst (λ w. Inv y.state w d.stages) (waiter_at d e) d.inv;
    waiter_ok = refl;
    wakers_ok = d.wakers_ok;
  })
  Sound-step y z d (begin i place e f) = subst (Sound ends) (sym f) (record {
    stage = d.stage;
    stages = d.stages;
    inv = d.inv;
    waiter_ok = d.waiter_ok;
    wakers_ok =
        wakers_stay y.wakers d.stages i (busy (signal place)) d.wakers_ok
          (subst (Wakes (signal place)) (sym (waker_at d i e)) (signal-Wakes place));
  })
  Sound-step y z d (access_signal i c k choice r s e a f) =
      let (x, inv, ok) =
        yields_some _ (access-Wakes y.state d.stage d.stages i choice c k d.inv (waker_at d i e))
          a in
      subst (Sound ends) (sym f) (record {
        stage = d.stage;
        stages = update d.stages i x;
        inv = inv;
        waiter_ok = d.waiter_ok;
        wakers_ok = wakers_update y.wakers d.stages i (busy (k r)) x d.wakers_ok ok;
      })
  Sound-step y z d (return_signal i e f) = subst (Sound ends) (sym f) (record {
    stage = d.stage;
    stages = d.stages;
    inv = d.inv;
    waiter_ok = d.waiter_ok;
    wakers_ok = wakers_stay y.wakers d.stages i idle d.wakers_ok (waker_at d i e);
  })

  pub Reach-Sound : (y : System) → Reach ends y → Sound ends y
  Reach-Sound y (start e) = subst (Sound ends) (sym e) Sound-init
  Reach-Sound y (later {y = x} reach step) = Sound-step x y (Reach-Sound x reach) step

-- The waiter has read the last change of a location, or it is woken, or somebody is about to wake it.
told :
    {ends : ℕ → ℕ → Bool} {y : System} {v : ℕ} (d : Sound ends y)
    → Ready y.state d.stages v
    → (l : ℕ)
    → (y.state.change_seen 0 l ≡ y.state.changes l)
      ⊎ (y.state.token ≡ true)
      ⊎ ((i : ℕ) × (y.wakers i ≢ idle))
told {y = y} d ready l =
    let not_idle : (i : ℕ) → d.stages i ≢ quiet → y.wakers i ≢ idle = λ i h f. h (waker_at d i f) in
    elim (ready.covered l (y.state.changes l) (omega arith)) [
      | inl le ↦ inl (omega (arith, le, d.inv.change_bound 0 l))
      | inr (inl (inl t)) ↦ inr (inl t)
      | inr (inl (inr (inl (_, i, f)))) ↦ inr (inr (i, not_idle i (λ q. ground (arith, f, q))))
      | inr (inl (inr (inr (i, f)))) ↦ inr (inr (i, not_idle i (λ q. ground (arith, f, q))))
      | inr (inr (i, a)) ↦ inr (inr (i, not_idle i (λ q. ground (arith, a, q))))
    ]

-- No wake is lost: whenever the waiter is at its `thread::park`, the park returns at once, or a waker
-- is still in the middle of its call, or the waiter has read the last change of each of its two
-- locations and neither ends the wait. So it never sleeps on a wait that has ended once the wakers are
-- done.
pub no_lost_wakeup :
    (ends : ℕ → ℕ → Bool) (y : System) (k : Unit {0} → Code (Unit {0}))
    → Reach ends y
    → y.waiter ≡ busy (act thread_park k)
    → ((s : State) × (access 0 0 y.state thread_park ≡ some (tt, s)))
      ⊎ ((i : ℕ) × (y.wakers i ≢ idle))
      ⊎ ((y.state.change_seen 0 tail ≡ y.state.changes tail)
          × (y.state.change_seen 0 disconnected ≡ y.state.changes disconnected)
          × (ends tail (y.state.changes tail) ≡ false)
          × (ends disconnected (y.state.changes disconnected) ≡ false))
unfolding access
no_lost_wakeup ends y k reach e =
    let d = Reach-Sound y reach in
    let (v, n, m, stage, goes_on, goes_on', _) = waiter_at d e in
    let (ready, first, second) : Standing y.state d.stages (checked v n m) =
      subst (Standing y.state d.stages) stage d.inv.standing in
    elim (told d ready tail) [
      | inl all ↦ elim (told d ready disconnected) [
        | inl all' ↦ inr (
            inr (
              all,
              all',
              subst (λ n. ends tail n ≡ false) (first ∙ all) goes_on,
              subst (λ n. ends disconnected n ≡ false) (second ∙ all') goes_on',
            ))
        | inr (inl t) ↦ inl (record y.state { token = false }, rw t refl)
        | inr (inr other) ↦ inr (inl other)
      ]
      | inr (inl t) ↦ inl (record y.state { token = false }, rw t refl)
      | inr (inr other) ↦ inr (inl other)
    ]
