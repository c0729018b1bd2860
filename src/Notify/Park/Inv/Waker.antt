-- ===== src/Notify/Park/Inv/Waker.antt =====
-- An access of a waker up to its look at the flag keeps the invariant.
use ultima_rings.Base.{
  ℕ, suc, ◌+◌, ◌≤◌, ◌≡◌, ◌≢◌, inl, inr, ◌==◌, ◌&&◌, ltb, ap₂, if◌then◌else◌, update, update_self,
  Bool-cases, arith, ◌∙◌, max, refl,
}
use ultima_rings.Notify.Park.Memory.{State}
use ultima_rings.Notify.Park.Inv.{Inv, Helped-update, Busy-update}
use ultima_rings.Notify.Park.Rules.{WaitStage, WakeStage, quiet, cleared, holding, published, saw}
use ultima_rings.Notify.Park.Inv.Standing.{stand, help, arm, cover, still_published}

module _ (s : State) (k : ℕ → WakeStage) (i : ℕ) where
  pub change-Inv :
      (w : WaitStage) (l0 : ℕ)
      → Inv s w k
      → k i ≡ quiet
      → Inv
          (record s {
            changes = update s.changes l0 (s.changes l0 + 1);
            change_seen =
                update s.change_seen (suc i) (update (s.change_seen (suc i)) l0 (s.changes l0 + 1));
          })
          w
          (update k i (published l0 (s.changes l0 + 1)))
  change-Inv w l0 inv e =
      let no_clear : k i ≢ cleared = λ f. ground (arith, e, f) in
      let no_hold : k i ≢ holding = λ f. ground (arith, e, f) in
      record {
        flag_bound = inv.flag_bound;
        change_bound = λ j l. ground (arith, inv.change_bound j l);
        fence_bound = inv.fence_bound;
        changes_bound = λ l. ground (arith, inv.changes_bound l);
        publishes = λ j l c f. ground (arith, inv.publishes j l c, f);
        fences = λ j l c f. ground (arith, inv.fences j l c, f);
        fenced_or = λ l c le. elim (Bool-cases (l == l0 && ltb (s.changes l0) c)) [
          | inl new ↦ inr (
            i,
            update_self k i _
                ∙ ap₂ published (let same : l0 ≡ l = ground (arith, new) in same)
                    (let same : s.changes l0 + 1 ≡ c = ground (arith, new, le) in same),
          )
          | inr old ↦
              still_published s k i _ l c _ _ (omega arith) (λ c' f. ground (arith, e, f))
                (inv.fenced_or l c (ground (arith, old, le)))
        ];
        standing =
            stand s k i _ (update k i (published l0 (s.changes l0 + 1))) w refl (λ l. ground arith)
              (help s k i _ no_clear no_hold)
              (λ v r. record {
                armed = arm s k i _ v no_clear no_hold r.armed;
                up = r.up;
                le = r.le;
              })
              (λ v r. record {
                raised = record {
                  armed = arm s k i _ v no_clear no_hold r.raised.armed;
                  up = r.raised.up;
                  le = r.raised.le;
                };
                past = r.past;
                meets = λ j l c f. ground (arith, r.meets j l c, f);
                covered = λ l c le. elim (Bool-cases (l == l0 && ltb (s.changes l0) c)) [
                  | inl new ↦ inr (
                      inr (
                        i,
                        inl (
                            update_self k i _
                            ∙ ap₂ published (let same : l0 ≡ l = ground (arith, new) in same) (
                                let same : s.changes l0 + 1 ≡ c = ground (arith, new, le) in same)),
                      ))
                  | inr old ↦
                      cover s k i _ l c _ _ (ground arith) no_clear no_hold
                        (rw e (λ a. ground (arith, a))) (r.covered l c (ground (arith, old, le)))
                ];
              })
              inv.standing;
      }

  pub fence-Inv :
      (w : WaitStage) (l0 c0 : ℕ)
      → Inv s w k
      → k i ≡ published l0 c0
      → Inv
          (record s {
            flag_seen = update s.flag_seen (suc i) (max (s.flag_seen (suc i)) s.fence_flag);
            change_seen =
                update s.change_seen
                  (suc i)
                  (λ l. max (s.change_seen (suc i) l) (s.fence_changes l));
            fence_flag = max (s.flag_seen (suc i)) s.fence_flag;
            fence_changes = λ l. max (s.change_seen (suc i) l) (s.fence_changes l);
          })
          w
          (update k i (WakeStage.fenced l0 c0))
  fence-Inv w l0 c0 inv e =
      let no_clear : k i ≢ cleared = λ f. ground (arith, e, f) in
      let no_hold : k i ≢ holding = λ f. ground (arith, e, f) in
      record {
        flag_bound = λ j. ground (arith, inv.flag_bound j, inv.flag_bound (suc i), inv.fence_bound);
        change_bound = λ j l.
            ground (arith, inv.change_bound j l, inv.change_bound (suc i) l, inv.changes_bound l);
        fence_bound = ground (arith, inv.fence_bound, inv.flag_bound (suc i));
        changes_bound = λ l. ground (arith, inv.changes_bound l, inv.change_bound (suc i) l);
        publishes = λ j l c f. ground (arith, inv.publishes j l c, f);
        fences = λ j l c f. ground (arith, inv.fences j l c, inv.publishes i l0 c0 e, f);
        fenced_or = λ l c le. elim (inv.fenced_or l c le) [
          | inl seen ↦ inl (ground (arith, seen))
          | inr (j, f) ↦ elim (Bool-cases (j == i)) [
            | inl e ↦ inl (ground (arith, inv.publishes j l c f, e))
            | inr ne ↦ inr (j, rw ne f)
          ]
        ];
        standing =
            stand s k i _ (update k i (WakeStage.fenced l0 c0)) w (ground arith) (λ l. ground arith)
              (help s k i _ no_clear no_hold)
              (λ v r. record {
                armed = arm s k i _ v no_clear no_hold r.armed;
                up = r.up;
                le = r.le;
              })
              (λ v r. record {
                raised = record {
                  armed = arm s k i _ v no_clear no_hold r.raised.armed;
                  up = r.raised.up;
                  le = r.raised.le;
                };
                past = ground (arith, r.past);
                meets = λ j l c f. ground (arith, r.meets j l c, r.past, f);
                covered = λ l c le.
                    cover s k i _ l c _ _ (ground arith) no_clear no_hold
                      (rw e (λ a. ground (arith, a))) (r.covered l c le);
              })
              inv.standing;
      }

  pub load_parked-Inv :
      (w : WaitStage) (l0 c0 choice : ℕ)
      → Inv s w k
      → k i ≡ WakeStage.fenced l0 c0
      → s.flag_seen (suc i) ≤ choice
      → choice ≤ s.latest
      → Inv
          (record s { flag_seen = update s.flag_seen (suc i) choice })
          w
          (update k i (if s.flag choice then saw l0 c0 else quiet))
  load_parked-Inv w l0 c0 choice inv e old new =
      let no_clear : k i ≢ cleared = λ f. ground (arith, e, f) in
      let no_hold : k i ≢ holding = λ f. ground (arith, e, f) in
      record {
        flag_bound = λ j. ground (arith, inv.flag_bound j, inv.flag_bound (suc i), inv.fence_bound);
        change_bound = inv.change_bound;
        fence_bound = inv.fence_bound;
        changes_bound = inv.changes_bound;
        publishes = λ j l c f. ground (arith, inv.publishes j l c, f);
        fences = λ j l c f. ground (arith, inv.fences j l c, f);
        fenced_or = λ l c le.
            still_published s k i _ l c _ _ (omega arith) (λ c' f. ground (arith, e, f))
              (inv.fenced_or l c le);
        standing =
            stand s k i _ (update k i (if s.flag choice then saw l0 c0 else quiet)) w (ground arith)
              (λ _. refl) (help s k i _ no_clear no_hold)
              (λ v r. record {
                armed = arm s k i _ v no_clear no_hold r.armed;
                up = r.up;
                le = r.le;
              })
              (λ v r. record {
                raised = record {
                  armed = arm s k i _ v no_clear no_hold r.raised.armed;
                  up = r.raised.up;
                  le = r.raised.le;
                };
                past = r.past;
                meets = λ j l c f. ground (arith, r.meets j l c, f);
                covered = λ l c le. elim (Bool-cases (s.flag choice)) [
                  | inl up ↦
                      cover s k i _ l c _ _ (ground arith) no_clear no_hold
                        (rw e (λ a. ground (arith, up, a))) (r.covered l c le)
                  | inr down ↦ elim (r.covered l c le) [
                    | inl seen ↦ inl seen
                    | inr (inl h) ↦
                        inr (inl (Helped-update s.token s.slot k i _ no_clear no_hold h))
                    | inr (inr b) ↦ elim (Busy-update k i l c _ b) [
                      | inl b ↦ inr (inr b)
                      | inr a ↦
                          let same : c0 ≡ c = ground (arith, rw e at a) in
                          elim (r.meets i l0 c0 e) [
                            | inl sees ↦ elim (arm s k i _ v no_clear no_hold r.raised.armed) [
                              | inl h ↦ inr (inl h)
                              | inr (there, now) ↦ absurd (
                                  let it : choice ≡ v = omega arith in
                                  ground (arith, it, down, r.raised.up))
                            ]
                            | inr sees ↦ inl (
                                let place : l0 ≡ l = ground (arith, rw e at a) in
                                let few : c ≤ s.change_seen 0 l0 = omega arith in rw place at few)
                          ]
                    ]
                  ]
                ];
              })
              inv.standing;
      }
