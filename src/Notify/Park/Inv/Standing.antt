-- ===== src/Notify/Park/Inv/Standing.antt =====
-- What an access of a waker leaves of a waiter's standing.
use ultima_rings.Base.{
  ℕ, ◌≤◌, ◌≡◌, ◌≢◌, ◌⊎◌, inl, inr, true, update, update_self, update_ne, arith, sym, subst, ◌∙◌, ap,
}
use ultima_rings.Notify.Park.{tail, disconnected}
use ultima_rings.Notify.Park.Memory.{State}
use ultima_rings.Notify.Park.Inv.{
  Helped, Armed, About, Busy, Raised, Ready, Standing, Helped-update, Busy-update,
}
use ultima_rings.Notify.Park.Rules.{
  WaitStage, away, registered, flagged, looked, checked, WakeStage, cleared, holding, published,
}

module _ (s : State) (k : ℕ → WakeStage) (i : ℕ) where
  -- The waiter's stage, from what becomes of the stages in which it counts on being woken.
  pub stand :
      (s' : State) (k' : ℕ → WakeStage) (w : WaitStage)
      → s'.flag_seen 0 ≡ s.flag_seen 0
      → ((l : ℕ) → s'.change_seen 0 l ≡ s.change_seen 0 l)
      → (Helped s.token s.slot k ⊎ (s.slot ≡ true) → Helped s'.token s'.slot k' ⊎ (s'.slot ≡ true))
      → ((v : ℕ) → Raised s k v → Raised s' k' v)
      → ((v : ℕ) → Ready s k v → Ready s' k' v)
      → Standing s k w
      → Standing s' k' w
  stand s' k' away f c h raised ready st = tt
  stand s' k' registered f c h raised ready st = h st
  stand s' k' (flagged v) f c h raised ready (r, le) = (raised v r, rw f le)
  stand s' k' (WaitStage.fenced v) f c h raised ready st = ready v st
  stand s' k' (looked v n) f c h raised ready (r, e) = (ready v r, e ∙ sym (c tail))
  stand s' k' (checked v n m) f c h raised ready (r, e, e') =
      (ready v r, e ∙ sym (c tail), e' ∙ sym (c disconnected))

  pub help :
      (x : WakeStage)
      → k i ≢ cleared
      → k i ≢ holding
      → Helped s.token s.slot k ⊎ (s.slot ≡ true)
      → Helped s.token s.slot (update k i x) ⊎ (s.slot ≡ true)
  help x c h (inl e) = inl (Helped-update s.token s.slot k i x c h e)
  help x c h (inr e) = inr e

  pub arm :
      (x : WakeStage) (v : ℕ)
      → k i ≢ cleared
      → k i ≢ holding
      → Armed s k v
      → Armed s (update k i x) v
  arm x v c h (inl e) = inl (Helped-update s.token s.slot k i x c h e)
  arm x v c h (inr e) = inr e

  -- A waker that is about another change, or about none, goes on.
  pub busy :
      (x : WakeStage) (l c : ℕ)
      → (About (k i) l c → About x l c)
      → Busy k l c
      → Busy (update k i x) l c
  busy x l c h b = elim (Busy-update k i l c x b) [
    | inl b ↦ b
    | inr a ↦ (i, subst (λ y. About y l c) (sym (update_self k i x)) (h a))
  ]

  pub cover :
      (x : WakeStage) (l c n n' : ℕ)
      → n ≤ n'
      → k i ≢ cleared
      → k i ≢ holding
      → (About (k i) l c → About x l c)
      → (c ≤ n) ⊎ Helped s.token s.slot k ⊎ Busy k l c
      → (c ≤ n') ⊎ Helped s.token s.slot (update k i x) ⊎ Busy (update k i x) l c
  cover x l c n n' le no_clear no_hold h (inl seen) = inl (omega arith)
  cover x l c n n' le no_clear no_hold h (inr (inl e)) =
      inr (inl (Helped-update s.token s.slot k i x no_clear no_hold e))
  cover x l c n n' le no_clear no_hold h (inr (inr b)) = inr (inr (busy x l c h b))

  pub still_published :
      (x : WakeStage) (l c n n' : ℕ)
      → n ≤ n'
      → ((c' : ℕ) → k i ≢ published l c')
      → (c ≤ n) ⊎ ((j : ℕ) × (k j ≡ published l c))
      → (c ≤ n') ⊎ ((j : ℕ) × (update k i x j ≡ published l c))
  still_published x l c n n' le ne (inl seen) = inl (omega arith)
  still_published x l c n n' le ne (inr (j, f)) =
      inr (j, update_ne k i j x (λ same. ne c (sym (ap k same) ∙ f)) ∙ f)
