-- ===== src/Notify/Park/Inv/Clear.antt =====
-- A waker's access from its store of the flag on keeps the invariant.
use ultima_rings.Base.{
  ℕ, suc, ◌+◌, ◌≡◌, ◌≢◌, ◌⊎◌, inl, inr, true, false, if◌then◌else◌, update, update_self, Bool-cases,
  arith, refl,
}
use ultima_rings.Notify.Park.Memory.{State}
use ultima_rings.Notify.Park.Inv.{Helped, Armed, Inv, Helped-update}
use ultima_rings.Notify.Park.Rules.{WaitStage, WakeStage, quiet, cleared, holding, saw}
use ultima_rings.Notify.Park.Inv.Standing.{stand, help, still_published}

module _ (s : State) (k : ℕ → WakeStage) (i : ℕ) where
  pub store_parked-Inv :
      (w : WaitStage) (l0 c0 : ℕ)
      → Inv s w k
      → k i ≡ saw l0 c0
      → Inv
          (record s {
            latest = s.latest + 1;
            flag = update s.flag (s.latest + 1) false;
            flag_seen = update s.flag_seen (suc i) (s.latest + 1);
          })
          w
          (update k i cleared)
  store_parked-Inv w l0 c0 inv e =
      let no_clear : k i ≢ cleared = λ f. ground (arith, e, f) in
      let no_hold : k i ≢ holding = λ f. ground (arith, e, f) in
      let helped : (v : ℕ) → Armed s k v → Helped s.token s.slot (update k i cleared) = λ v a.
        elim a [
          | inl h ↦ Helped-update s.token s.slot k i _ no_clear no_hold h
          | inr (there, _) ↦ inr (inl (there, i, update_self k i _))
        ] in
      record {
        flag_bound = λ j. ground (arith, inv.flag_bound j);
        change_bound = inv.change_bound;
        fence_bound = omega (arith, inv.fence_bound);
        changes_bound = inv.changes_bound;
        publishes = λ j l c f. ground (arith, inv.publishes j l c, f);
        fences = λ j l c f. ground (arith, inv.fences j l c, f);
        fenced_or = λ l c le.
            still_published s k i _ l c _ _ (omega arith) (λ c' f. ground (arith, e, f))
              (inv.fenced_or l c le);
        standing =
            stand s k i _ (update k i cleared) w (ground arith) (λ _. refl)
              (help s k i _ no_clear no_hold)
              (λ v r. record {
                armed = inl (helped v r.armed);
                up = ground (arith, r.up, r.le);
                le = omega (arith, r.le);
              })
              (λ v r. record {
                raised = record {
                  armed = inl (helped v r.raised.armed);
                  up = ground (arith, r.raised.up, r.raised.le);
                  le = omega (arith, r.raised.le);
                };
                past = r.past;
                meets = λ j l c f. ground (arith, r.meets j l c, f);
                covered = λ l c le. inr (inl (helped v r.raised.armed));
              })
              inv.standing;
      }

  taken :
      k i ≡ cleared
      → Helped s.token s.slot k ⊎ (s.slot ≡ true)
      → Helped s.token false (update k i (if s.slot then holding else quiet))
  taken e a = elim (Bool-cases s.slot) [
    | inl there ↦ inr (inr (i, rw there (update_self k i holding)))
    | inr none ↦ elim a [
      | inl (inl token) ↦ inl token
      | inl (inr (inl (there, _, _))) ↦ absurd (ground (arith, there, none))
      | inl (inr (inr (j, f))) ↦ inr (inr (j, ground (arith, f, e)))
      | inr there ↦ absurd (ground (arith, there, none))
    ]
  ]

  pub take-Inv :
      (w : WaitStage)
      → Inv s w k
      → k i ≡ cleared
      → Inv (record s { slot = false }) w (update k i (if s.slot then holding else quiet))
  take-Inv w inv e =
      let helped : (v : ℕ)
          → Armed s k v
          → Helped s.token false (update k i (if s.slot then holding else quiet)) =
        λ v a. taken e (elim a [ inl h ↦ inl h | inr (there, _) ↦ inr there ]) in
      record {
        flag_bound = inv.flag_bound;
        change_bound = inv.change_bound;
        fence_bound = inv.fence_bound;
        changes_bound = inv.changes_bound;
        publishes = λ j l c f. ground (arith, inv.publishes j l c, f);
        fences = λ j l c f. ground (arith, inv.fences j l c, f);
        fenced_or = λ l c le.
            still_published s k i _ l c _ _ (omega arith) (λ c' f. ground (arith, e, f))
              (inv.fenced_or l c le);
        standing =
            stand s k i _ (update k i (if s.slot then holding else quiet)) w refl (λ _. refl)
              (λ a. inl (taken e a))
              (λ v r. record { armed = inl (helped v r.armed); up = r.up; le = r.le })
              (λ v r. record {
                raised = record {
                  armed = inl (helped v r.raised.armed);
                  up = r.raised.up;
                  le = r.raised.le;
                };
                past = r.past;
                meets = λ j l c f. ground (arith, r.meets j l c, f);
                covered = λ l c le. inr (inl (helped v r.raised.armed));
              })
              inv.standing;
      }

  pub unpark-Inv :
      (w : WaitStage)
      → Inv s w k
      → k i ≡ holding
      → Inv (record s { token = true }) w (update k i quiet)
  unpark-Inv w inv e = record {
    flag_bound = inv.flag_bound;
    change_bound = inv.change_bound;
    fence_bound = inv.fence_bound;
    changes_bound = inv.changes_bound;
    publishes = λ j l c f. ground (arith, inv.publishes j l c, f);
    fences = λ j l c f. ground (arith, inv.fences j l c, f);
    fenced_or = λ l c le.
        still_published s k i _ l c _ _ (omega arith) (λ c' f. ground (arith, e, f))
          (inv.fenced_or l c le);
    standing =
        stand s k i _ (update k i quiet) w refl (λ _. refl) (λ a. inl (inl refl))
          (λ v r. record { armed = inl (inl refl); up = r.up; le = r.le })
          (λ v r. record {
            raised = record { armed = inl (inl refl); up = r.raised.up; le = r.raised.le };
            past = r.past;
            meets = λ j l c f. ground (arith, r.meets j l c, f);
            covered = λ l c le. inr (inl (inl refl));
          })
          inv.standing;
  }
