-- ===== src/Program/Bounded.antt =====
-- Programs that make a bounded number of accesses.
use ultima_rings.Base.{ℕ, ◌+◌, ◌-◌, ◌≤◌, ◌≡◌, Bool, true, false, if◌then◌else◌, arith}
use ultima_rings.Program.{Program, act, ret, ◌>>=◌}

-- The program makes at most `n` accesses, whatever these return.
pub data Within {ℓ κ μ} {C : Type ℓ} {R : C → Type κ} {A : Type μ}
    : ℕ → Program R A → Type (ℓ ⊔ κ ⊔ μ) where
  done : {n : ℕ} {a : A} → Within n (ret a)
  more :
      (m : ℕ) {n : ℕ} {c : C} {k : R c → Program R A}
      → n ≡ m + 1
      → ((r : R c) → Within m (k r))
      → Within n (act c k)

pub Within-le {ℓ κ μ} :
    {C : Type ℓ} {R : C → Type κ} {A : Type μ} (m n : ℕ) {p : Program R A}
    → m ≤ n
    → Within m p
    → Within n p
Within-le m n le done = done
Within-le m n le (more l e rest) =
    more (n - 1) (omega arith) (λ r. Within-le l (n - 1) (omega arith) (rest r))

module _ {ℓ κ μ} {C : Type ℓ} {R : C → Type κ} {A : Type μ} where
  pub Within-bind {ν} :
      {B : Type ν} (m n : ℕ) {p : Program R A} {f : A → Program R B}
      → Within m p
      → ((a : A) → Within n (f a))
      → Within (m + n) (p >>= f)
  Within-bind m n (done {a = a}) h = Within-le n (m + n) (omega arith) (h a)
  Within-bind m n (more l e rest) h = more (l + n) (omega arith) (λ r. Within-bind l n (rest r) h)

  pub Within-if :
      (n : ℕ) (b : Bool) {p q : Program R A}
      → Within n p
      → Within n q
      → Within n (if b then p else q)
  Within-if n true v w = v
  Within-if n false v w = w
