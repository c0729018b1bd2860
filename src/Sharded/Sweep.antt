-- ===== src/Sharded/Sweep.antt =====
-- What a sweep of src/sharded.rs asks of the shards, and what it makes of the answers.
use native.Mathlib.Nat.{suc-mod, mod_self, mod-eq_of_lt, mod-lt}
use ultima_rings.Base.{
  ℕ, zero, suc, ◌+◌, ◌%◌, ◌≤◌, ◌<◌, ◌≡◌, refl, sym, ap, ◌∙◌, List, [], ◌∷◌, arith, leb, ◌==◌,
  if◌then◌else◌, inl, inr, ◌⊎◌, Bool-cases, true, false,
}
use ultima_rings.Channel.{Result, ok, err, TryRecvError}
use ultima_rings.Program.{ret, act}
use ultima_rings.Sharded.{Receiver, Call, Answer, Code, visit_budget, advance, sweep, try_recv}

-- The calls that a program makes and its result, where call number `j` is answered by `answers j`.
unfoldable pub run :
    {T A : Type 0} → ((j : ℕ) (c : Call) → Answer T c) → ℕ → Code T A → List Call × A
run answers j (ret a) = ([], a)
run answers j (act c k) = let (calls, a) = run answers (suc j) (k (answers j c)) in (c ∷ calls, a)

-- A cursor points to a shard, and a shard is visited at most `visit_budget` times on end.
pub record IsReceiver (self : Receiver) : Type 0 where
  pub inside : self.cursor < self.shards
  pub visits : self.budget ≤ visit_budget

pub Answered : {T : Type 0} → Result T TryRecvError → Type 0
Answered {T} r =
    ((v : T) × (r ≡ ok v)) ⊎ (r ≡ err TryRecvError.disconnected) ⊎ (r ≡ err TryRecvError.empty)

answered : {T : Type 0} (r : Result T TryRecvError) → Answered r
unfolding Answered
answered (ok v) = inl (v, refl)
answered (err TryRecvError.disconnected) = inr (inl refl)
answered (err TryRecvError.empty) = inr (inr refl)

pub next_shard : (n i c : ℕ) → 0 < n → c ≡ i % n → (if c + 1 == n then 0 else c + 1) ≡ suc i % n
next_shard n i c h at =
    rw (at, suc-mod i n)
      (elim (Bool-cases (i % n + 1 == n)) [
        | inl e ↦
            rw e (let full : suc (i % n) ≡ n = ground (arith, e) in rw full (sym (mod_self n)))
        | inr e ↦ rw e (
            let less : suc (i % n) < n = ground (arith, e, mod-lt i h) in
            sym (mod-eq_of_lt less ∙ omega arith))
      ])

module _ {T : Type 0} (answers : (j : ℕ) (c : Call) → Answer T c) (n from : ℕ) where
  -- Visit number `j` of a sweep that starts at the shard `from`, and its answer.
  abbrev pub visit : ℕ → Call
  visit j = Call.try_recv_shard ((from + j) % n)

  abbrev pub answer : ℕ → Result T TryRecvError
  answer j = answers j (Call.try_recv_shard ((from + j) % n))

  abbrev pub visits_from : ℕ → ℕ → List Call
  visits_from j zero = []
  visits_from j (suc m) = visit j ∷ visits_from (suc j) m

  -- No visit before number `j` was answered with a value.
  abbrev pub IsFruitless : ℕ → Type 0
  IsFruitless j = (i : ℕ) → i < j → (e : TryRecvError) × (answer i ≡ err e)

  -- What the answers before visit `j` were, `disconnected` of them disconnections.
  Tally : ℕ → ℕ → Type 0
  Tally j disconnected =
      IsFruitless j
      × (((disconnected ≡ j) × ((i : ℕ) → i < j → answer i ≡ err TryRecvError.disconnected))
          ⊎ ((disconnected < j) × (i : ℕ) × (i < j) × (answer i ≡ err TryRecvError.empty)))

  -- What the calls, the new state and the result of a sweep show that has `left` visits to make from
  -- visit `j` on.
  abbrev pub SweepShows : ℕ → ℕ → List Call → Receiver → Result T TryRecvError → Type 0
  SweepShows j left calls self (ok v) =
      (m : ℕ) × (m < left)
      × (calls ≡ visits_from j (suc m))
      × IsFruitless (j + m)
      × (answer (j + m) ≡ ok v)
      × (self.cursor ≡ (from + (j + m)) % n)
  SweepShows j left calls self (err TryRecvError.disconnected) =
      (calls ≡ visits_from j left) × ((i : ℕ) → i < n → answer i ≡ err TryRecvError.disconnected)
  SweepShows j left calls self (err TryRecvError.empty) =
      (calls ≡ visits_from j left)
      × IsFruitless n
      × (i : ℕ) × (i < n)
      × (answer i ≡ err TryRecvError.empty)

  Outcome : ℕ → ℕ → List Call × (Receiver × Result T TryRecvError) → Type 0
  Outcome j left (calls, (self, r)) =
      SweepShows j left calls self r × IsReceiver self × (self.shards ≡ n)

  -- One visit that finds nothing, before the rest of the sweep.
  visited :
      (j left c : ℕ) (p : List Call × (Receiver × Result T TryRecvError))
      → c ≡ (from + j) % n
      → Outcome (suc j) left p
      → Outcome j (suc left) (Call.try_recv_shard c ∷ p.0, p.1)
  unfolding Outcome
  visited j left c (calls, (self, ok v)) here ((m, lt, all, none, e, at), is, same) =
      let k : j + suc m ≡ suc j + m = omega arith in
      ((suc m, omega arith, rw (here, all) refl, rw k none, rw k e, rw k at), is, same)
  visited j left c (calls, (self, err TryRecvError.disconnected)) here ((all, e), is, same) =
      ((rw (here, all) refl, e), is, same)
  visited j left c (calls, (self, err TryRecvError.empty)) here
        ((all, none, i, less, e), is, same) =
      ((rw (here, all) refl, none, i, less, e), is, same)

  IsFruitless-suc :
      (j : ℕ) (e : TryRecvError) → answer j ≡ err e → IsFruitless j → IsFruitless (suc j)
  IsFruitless-suc j e now before i h = elim (Bool-cases (i == j)) [
    | inl k ↦ (e, let t : i ≡ j = ground (arith, k) in rw t now)
    | inr k ↦ before i (ground (arith, k, h))
  ]

  Tally-disconnected :
      (j d : ℕ) → answer j ≡ err TryRecvError.disconnected → Tally j d → Tally (suc j) (d + 1)
  unfolding Tally
  Tally-disconnected j d e (before, inl (same, all)) = (
    IsFruitless-suc j _ e before,
    inl (
      omega arith,
      λ i h. elim (Bool-cases (i == j)) [
        | inl k ↦ (let t : i ≡ j = ground (arith, k) in rw t e)
        | inr k ↦ all i (ground (arith, k, h))
      ],
    ),
  )
  Tally-disconnected j d e (before, inr (lt, i, less, f)) =
      (IsFruitless-suc j _ e before, inr (omega arith, i, omega arith, f))

  Tally-empty : (j d : ℕ) → answer j ≡ err TryRecvError.empty → Tally j d → Tally (suc j) d
  unfolding Tally
  Tally-empty j d e (before, inl (same, all)) =
      (IsFruitless-suc j _ e before, inr (omega arith, j, omega arith, e))
  Tally-empty j d e (before, inr (lt, i, less, f)) =
      (IsFruitless-suc j _ e before, inr (omega arith, i, omega arith, f))

  sweep_lem :
      (left d j : ℕ) (self : Receiver)
      → 0 < n
      → j + left ≡ n
      → self.shards ≡ n
      → self.cursor ≡ (from + j) % n
      → self.budget < visit_budget
      → Tally j d
      → Outcome j left (run answers j (sweep left self d))
  unfolding sweep run Outcome Tally answered Answered advance
  sweep_lem zero d j self pos whole size at budget (before, inl (e, all)) =
      let t : (d == self.shards) ≡ true = ground (arith, whole) in
      let inside : self.cursor < self.shards = ground (arith, mod-lt (from + j) pos) in
      rw t
        ((refl, λ i h. all i (omega arith)), record { inside = inside; visits = omega arith }, size)
  sweep_lem zero d j self pos whole size at budget (before, inr (lt, i, less, e)) =
      let t : (d == self.shards) ≡ false = ground (arith, whole) in
      let inside : self.cursor < self.shards = ground (arith, mod-lt (from + j) pos) in
      rw t (
        (refl, (λ i h. before i (omega arith)), i, omega arith, e),
        record { inside = inside; visits = omega arith },
        size,
      )
  sweep_lem (suc left) d j self pos whole size at budget tally =
      let inside : self.cursor < self.shards = ground (arith, mod-lt (from + j) pos) in
      let next : (advance self).cursor ≡ (from + suc j) % n =
        (let k : from + suc j ≡ suc (from + j) = omega arith in
          rw (size, k) (next_shard n (from + j) self.cursor pos at)) in
      let asked : answer j ≡ answers j (Call.try_recv_shard self.cursor) =
        ap (λ c. answers j (Call.try_recv_shard c)) (sym at) in
      let rest : (e : ℕ)
          → Tally (suc j) e
          → Outcome (suc j) left (run answers (suc j) (sweep left (advance self) e)) =
        λ e. sweep_lem left e (suc j) (advance self) pos (omega arith) size next (omega arith) in
      elim (answered (answers j (Call.try_recv_shard self.cursor))) [
        | inl (v, e) ↦ rw e (
          (
            0,
            omega arith,
            rw at refl,
            (let k : j + 0 ≡ j = omega arith in rw k (tally.0)),
            (let k : j + 0 ≡ j = omega arith in rw k (asked ∙ e)),
            (let k : j + 0 ≡ j = omega arith in rw k at),
          ),
          record { inside = inside; visits = omega arith },
          size,
        )
        | inr (inl e) ↦ rw e (
            visited j left self.cursor _ at
              (rest (d + 1) (Tally-disconnected j d (asked ∙ e) tally)))
        | inr (inr e) ↦
            rw e (visited j left self.cursor _ at (rest d (Tally-empty j d (asked ∙ e) tally)))
      ]

-- The shard at which `try_recv` starts: the next one if the visit budget is spent.
abbrev pub first_shard : Receiver → ℕ
first_shard self = if leb visit_budget self.budget then (advance self).cursor else self.cursor

-- If the cursor points to a shard and the visit budget is not exceeded, then `try_recv` asks the
-- shards one after another, cyclically from the first shard, and at most as many as there are. No
-- shard's value is dropped: it returns the value of the first answer that is one, and leaves the
-- cursor at its shard; it returns `Disconnected` only if every shard was asked and answered so, and
-- `Empty` only if every shard was asked, none answered with a value and some shard answered `Empty`.
-- Cursor and budget stay in their bounds.
pub sweep_outcome :
    {T : Type 0} (answers : (j : ℕ) (c : Call) → Answer T c) (self : Receiver)
    → IsReceiver self
    → let (calls, (after, r)) = run answers 0 (try_recv self) in
      SweepShows answers self.shards (first_shard self) 0 self.shards calls after r
      × IsReceiver after
      × (after.shards ≡ self.shards)
unfolding try_recv advance Outcome Tally
sweep_outcome answers self is = elim (Bool-cases (leb visit_budget self.budget)) [
  | inl e ↦
      let inside : (advance self).cursor < self.shards = ground (arith, is.inside) in
      rw e (
        sweep_lem answers self.shards (advance self).cursor self.shards 0 0 (advance self)
          (omega (arith, is.inside)) (omega arith) refl
          (sym (
            let k : (advance self).cursor + 0 ≡ (advance self).cursor = omega arith in
            rw k (mod-eq_of_lt inside)))
          (omega arith) ((λ i h. absurd (omega arith)), inl (refl, λ i h. absurd (omega arith))))
  | inr e ↦ rw e (
      sweep_lem answers self.shards self.cursor self.shards 0 0 self (omega (arith, is.inside))
        (omega arith) refl
        (sym (let k : self.cursor + 0 ≡ self.cursor = omega arith in rw k (mod-eq_of_lt is.inside)))
        (ground (arith, e))
        ((λ i h. absurd (omega arith)), inl (refl, λ i h. absurd (omega arith))))
]
