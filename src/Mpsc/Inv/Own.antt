-- ===== src/Mpsc/Inv/Own.antt =====
-- The sequences that a producer has claimed or filled lie in the window.
use native.Mathlib.Decide.{dec_lt}
use ultima_rings.Base.{ℕ, ◌+◌, ◌≤◌, ◌<◌, ◌≡◌, sym, ◌∙◌, arith}
use ultima_rings.Mpsc.Inv.{Inv, unclaimed, claimed, filled, published}
use ultima_rings.Mpsc.Rules.{Pull}
use ultima_rings.Mpsc.State.{State, claiming, filling}

-- A sequence that is claimed is one of the window.
pub claimed-window :
    {T : Type 0} {cap handles : ℕ} (s : State T) (q : Pull) (inv : Inv cap handles s q) (me n : ℕ)
    → s.pending me ≡ claiming n
    → (q.read ≤ n) × (n < q.read + cap) × (inv.phase n ≡ claimed me)
claimed-window s q inv me n e =
    let (mine, near) = inv.owners.claims me n e in
    let c = inv.counters in
    (
      elim (dec_lt n q.read) [
        | yes lt ↦
            let (v, f) = inv.owners.done n lt in
            absurd (let g : claimed me ≡ published v = sym mine ∙ f in cc)
        | no ge ↦ omega arith
      ],
      omega (arith, c.knows me, c.behind),
      mine,
    )

pub claimed-lt :
    {T : Type 0} {cap handles : ℕ} (s : State T) (q : Pull) (inv : Inv cap handles s q) (me n : ℕ)
    → s.pending me ≡ claiming n
    → n < s.claim
claimed-lt s q inv me n e =
    let mine = (inv.owners.claims me n e).0 in
    elim (dec_lt n s.claim) [
      | yes lt ↦ lt
      | no ge ↦
          let f = inv.owners.ahead n (omega arith) in
          absurd (let g : claimed me ≡ unclaimed = sym mine ∙ f in cc)
    ]

-- A sequence that is filled is one of those claimed.
pub filled-lt :
    {T : Type 0} {cap handles : ℕ} (s : State T) (q : Pull) (inv : Inv cap handles s q) (me n : ℕ)
    (v : T)
    → s.pending me ≡ filling n v
    → n < s.claim
filled-lt s q inv me n v e =
    let mine = inv.owners.fills me n v e in
    elim (dec_lt n s.claim) [
      | yes lt ↦ lt
      | no ge ↦
          let f = inv.owners.ahead n (omega arith) in
          absurd (let g : filled me v ≡ unclaimed = sym mine ∙ f in cc)
    ]

-- So is one that is filled.
pub filled-window :
    {T : Type 0} {cap handles : ℕ} (s : State T) (q : Pull) (inv : Inv cap handles s q) (me n : ℕ)
    (v : T)
    → s.pending me ≡ filling n v
    → (q.read ≤ n) × (n < q.read + cap) × (inv.phase n ≡ filled me v)
filled-window s q inv me n v e =
    let mine = inv.owners.fills me n v e in
    let c = inv.counters in
    (
      elim (dec_lt n q.read) [
        | yes lt ↦
            let (w, f) = inv.owners.done n lt in
            absurd (let g : filled me v ≡ published w = sym mine ∙ f in cc)
        | no ge ↦ omega arith
      ],
      omega (arith, filled-lt s q inv me n v e, c.room, c.behind),
      mine,
    )
