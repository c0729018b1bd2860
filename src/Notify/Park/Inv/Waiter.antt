-- ===== src/Notify/Park/Inv/Waiter.antt =====
-- An access of the waiter keeps the invariant.
use ultima_rings.Base.{ℕ, ◌+◌, ◌≤◌, inl, inr, true, false, update, update_self, arith, refl, max}
use ultima_rings.Notify.Park.{tail, disconnected}
use ultima_rings.Notify.Park.Memory.{State}
use ultima_rings.Notify.Park.Inv.{Standing, Ready, Inv}
use ultima_rings.Notify.Park.Rules.{
  WaitStage, away, registered, flagged, looked, checked, WakeStage,
}

module _ (s : State) (k : ℕ → WakeStage) where
  pub register-Inv : Inv s away k → Inv (record s { slot = true }) registered k
  register-Inv inv = record {
    flag_bound = inv.flag_bound;
    change_bound = inv.change_bound;
    fence_bound = inv.fence_bound;
    changes_bound = inv.changes_bound;
    publishes = inv.publishes;
    fences = inv.fences;
    fenced_or = inv.fenced_or;
    standing = inr refl;
  }

  pub lower-Inv :
      (w : WaitStage)
      → Inv s w k
      → Inv
          (record s {
            latest = s.latest + 1;
            flag = update s.flag (s.latest + 1) false;
            flag_seen = update s.flag_seen 0 (s.latest + 1);
          })
          away
          k
  lower-Inv w inv = record {
    flag_bound = λ j. ground (arith, inv.flag_bound j);
    change_bound = inv.change_bound;
    fence_bound = omega (arith, inv.fence_bound);
    changes_bound = inv.changes_bound;
    publishes = inv.publishes;
    fences = inv.fences;
    fenced_or = inv.fenced_or;
    standing = tt;
  }

  pub raise-Inv :
      Inv s registered k
      → Inv
          (record s {
            latest = s.latest + 1;
            flag = update s.flag (s.latest + 1) true;
            flag_seen = update s.flag_seen 0 (s.latest + 1);
          })
          (flagged (s.latest + 1))
          k
  raise-Inv inv = record {
    flag_bound = λ j. ground (arith, inv.flag_bound j);
    change_bound = inv.change_bound;
    fence_bound = omega (arith, inv.fence_bound);
    changes_bound = inv.changes_bound;
    publishes = inv.publishes;
    fences = inv.fences;
    fenced_or = inv.fenced_or;
    standing = (
      record {
        armed = elim inv.standing [ inl h ↦ inl h | inr there ↦ inr (there, refl) ];
        up = update_self s.flag (s.latest + 1) true;
        le = omega arith;
      },
      ground arith,
    );
  }

  pub fence-Inv :
      (v : ℕ)
      → Inv s (flagged v) k
      → Inv
          (record s {
            flag_seen = update s.flag_seen 0 (max (s.flag_seen 0) s.fence_flag);
            change_seen = update s.change_seen 0 (λ l. max (s.change_seen 0 l) (s.fence_changes l));
            fence_flag = max (s.flag_seen 0) s.fence_flag;
            fence_changes = λ l. max (s.change_seen 0 l) (s.fence_changes l);
          })
          (WaitStage.fenced v)
          k
  fence-Inv v inv = record {
    flag_bound = λ j. ground (arith, inv.flag_bound j, inv.flag_bound 0, inv.fence_bound);
    change_bound =
        λ j l. ground (arith, inv.change_bound j l, inv.change_bound 0 l, inv.changes_bound l);
    fence_bound = ground (arith, inv.fence_bound, inv.flag_bound 0);
    changes_bound = λ l. ground (arith, inv.changes_bound l, inv.change_bound 0 l);
    publishes = λ j l c f. ground (arith, inv.publishes j l c f);
    fences = λ j l c f. ground (arith, inv.fences j l c f);
    fenced_or = λ l c le. elim (inv.fenced_or l c le) [
      | inl seen ↦ inl (ground (arith, seen))
      | inr other ↦ inr other
    ];
    standing = record {
      raised = record {
        armed = inv.standing.0.armed;
        up = inv.standing.0.up;
        le = inv.standing.0.le;
      };
      past = ground (arith, inv.standing.1);
      meets = λ j l c f. inr (ground (arith, inv.fences j l c f));
      covered = λ l c le. elim (inv.fenced_or l c le) [
        | inl seen ↦ inl (ground (arith, seen))
        | inr (j, f) ↦ inr (inr (j, inl f))
      ];
    };
  }

  -- A look at a location leaves the waiter ready.
  looked-Ready :
      (v l0 choice : ℕ)
      → Ready s k v
      → s.change_seen 0 l0 ≤ choice
      → Ready
          (record s { change_seen = update s.change_seen 0 (update (s.change_seen 0) l0 choice) })
          k
          v
  looked-Ready v l0 choice r old = record {
    raised = record { armed = r.raised.armed; up = r.raised.up; le = r.raised.le };
    past = r.past;
    meets = λ j l c f. elim (r.meets j l c f) [
      | inl sees ↦ inl sees
      | inr sees ↦ inr (ground (arith, sees))
    ];
    covered = λ l c le. elim (r.covered l c le) [
      | inl seen ↦ inl (ground (arith, seen))
      | inr other ↦ inr other
    ];
  }

  look-Inv :
      (l0 choice : ℕ) (w w' : WaitStage)
      → Inv s w k
      → s.change_seen 0 l0 ≤ choice
      → choice ≤ s.changes l0
      → Standing
          (record s { change_seen = update s.change_seen 0 (update (s.change_seen 0) l0 choice) })
          k
          w'
      → Inv
          (record s { change_seen = update s.change_seen 0 (update (s.change_seen 0) l0 choice) })
          w'
          k
  look-Inv l0 choice w w' inv old new standing = record {
    flag_bound = inv.flag_bound;
    change_bound = λ j l. ground (arith, inv.change_bound j l);
    fence_bound = inv.fence_bound;
    changes_bound = inv.changes_bound;
    publishes = λ j l c f. ground (arith, inv.publishes j l c f);
    fences = inv.fences;
    fenced_or = inv.fenced_or;
    standing = standing;
  }

  pub check_first-Inv :
      (v choice : ℕ)
      → Inv s (WaitStage.fenced v) k
      → s.change_seen 0 tail ≤ choice
      → choice ≤ s.changes tail
      → Inv
          (record s { change_seen = update s.change_seen 0 (update (s.change_seen 0) tail choice) })
          (looked v choice)
          k
  check_first-Inv v choice inv old new =
      look-Inv tail choice (WaitStage.fenced v) (looked v choice) inv old new
        (looked-Ready v tail choice inv.standing old, ground arith)

  pub check_second-Inv :
      (v n choice : ℕ)
      → Inv s (looked v n) k
      → s.change_seen 0 disconnected ≤ choice
      → choice ≤ s.changes disconnected
      → Inv
          (record s {
            change_seen = update s.change_seen 0 (update (s.change_seen 0) disconnected choice);
          })
          (checked v n choice)
          k
  check_second-Inv v n choice inv old new =
      look-Inv disconnected choice (looked v n) (checked v n choice) inv old new (
        looked-Ready v disconnected choice inv.standing.0 old,
        ground (arith, inv.standing.1),
        ground arith,
      )

  pub thread_park-Inv : (w : WaitStage) → Inv s w k → Inv (record s { token = false }) away k
  thread_park-Inv w inv = record {
    flag_bound = inv.flag_bound;
    change_bound = inv.change_bound;
    fence_bound = inv.fence_bound;
    changes_bound = inv.changes_bound;
    publishes = inv.publishes;
    fences = inv.fences;
    fenced_or = inv.fenced_or;
    standing = tt;
  }

  -- A wake-up for no reason.
  pub away-Inv : (w : WaitStage) → Inv s w k → Inv s away k
  away-Inv w inv = record {
    flag_bound = inv.flag_bound;
    change_bound = inv.change_bound;
    fence_bound = inv.fence_bound;
    changes_bound = inv.changes_bound;
    publishes = inv.publishes;
    fences = inv.fences;
    fenced_or = inv.fenced_or;
    standing = tt;
  }
