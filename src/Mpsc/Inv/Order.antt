-- ===== src/Mpsc/Inv/Order.antt =====
-- Each producer publishes in the order of the sequences.
use ultima_rings.Base.{
  ℕ, suc, ◌+◌, ◌≤◌, ◌<◌, ◌≡◌, ap, subst, ◌∙◌, List, [], ◌∷◌, ◌++◌, arith, update, ◌==◌, Bool-cases,
  inl, inr,
}
use ultima_rings.Mpsc.Inv.{Rising, floor}
use ultima_rings.Mpsc.State.{Pending, none_pending, claiming, filling}

module _ {T : Type 0} where
  pub Rising-le :
      (low high high' : ℕ) (l : List (ℕ × T))
      → high ≤ high'
      → Rising low l high
      → Rising low l high'
  Rising-le low high high' [] h r = omega arith
  Rising-le low high high' ((n, v) ∷ l) h (lo, r) = (lo, Rising-le (suc n) high high' l h r)

  Rising-append :
      (low n : ℕ) (v : T) (l : List (ℕ × T))
      → Rising low l n
      → Rising low (l ++ ((n, v) ∷ [])) (suc n)
  Rising-append low n v [] r = (r, ground arith)
  Rising-append low n v ((m, w) ∷ l) (lo, r) = (lo, Rising-append (suc m) n v l r)

  floor-suc : (claim : ℕ) (x : Pending T) → floor claim x ≤ floor (claim + 1) x
  floor-suc claim none_pending = omega arith
  floor-suc claim (claiming n) = omega arith
  floor-suc claim (filling n v) = omega arith

  -- A producer that has nothing pending claims the next sequence.
  pub claim-Rising :
      (claim me : ℕ) (pending : ℕ → Pending T) (sent : ℕ → List (ℕ × T))
      → ((i : ℕ) → Rising 0 (sent i) (floor claim (pending i)))
      → pending me ≡ none_pending
      → (i : ℕ) → Rising 0 (sent i) (floor (claim + 1) (update pending me (claiming claim) i))
  claim-Rising claim me pending sent r idle i = elim (Bool-cases (i == me)) [
    | inl e ↦
        let same : i ≡ me = ground (arith, e) in
        rw e (subst (λ x. Rising 0 (sent i) (floor claim x)) (ap pending same ∙ idle) (r i))
    | inr e ↦ rw e (Rising-le 0 _ _ (sent i) (floor-suc claim (pending i)) (r i))
  ]

  -- A producer fills the sequence that it has claimed.
  pub fill-Rising :
      (claim me n : ℕ) (v : T) (pending : ℕ → Pending T) (sent : ℕ → List (ℕ × T))
      → ((i : ℕ) → Rising 0 (sent i) (floor claim (pending i)))
      → pending me ≡ claiming n
      → (i : ℕ) → Rising 0 (sent i) (floor claim (update pending me (filling n v) i))
  fill-Rising claim me n v pending sent r mine i = elim (Bool-cases (i == me)) [
    | inl e ↦
        let same : i ≡ me = ground (arith, e) in
        rw e (subst (λ x. Rising 0 (sent i) (floor claim x)) (ap pending same ∙ mine) (r i))
    | inr e ↦ rw e (r i)
  ]

  -- A producer publishes the sequence that it has filled.
  pub publish-Rising :
      (claim me n : ℕ) (v : T) (pending : ℕ → Pending T) (sent : ℕ → List (ℕ × T))
      → ((i : ℕ) → Rising 0 (sent i) (floor claim (pending i)))
      → pending me ≡ filling n v
      → n < claim
      → (i : ℕ)
      → Rising 0
          (update sent me (sent me ++ ((n, v) ∷ [])) i)
          (floor claim (update pending me none_pending i))
  publish-Rising claim me n v pending sent r mine lt i = elim (Bool-cases (i == me)) [
    | inl e ↦ rw e (
        Rising-le 0 (suc n) claim (sent me ++ ((n, v) ∷ [])) lt (
          Rising-append 0 n v (sent me)
            (subst (λ x. Rising 0 (sent me) (floor claim x)) mine (r me))))
    | inr e ↦ rw e (r i)
  ]
