-- ===== src/Base/Family.antt =====
-- Families of values by index: one changed member, and sums over the first members.
use Prim.Native.Nat.{ℕ, zero, suc, ◌+◌, ◌*◌, ◌≤◌, ◌<◌}
use mathlib.Core.Path.{◌≡◌, refl}
use mathlib.Core.Logic.{◌≢◌}
use mathlib.Core.Bool.{true, false}
use native.Mathlib.Omega.{arith}
use ultima_rings.Base.Tests.{◌==◌, if◌then◌else◌}

abbrev pub update {ℓ} : {A : Type ℓ} → (ℕ → A) → ℕ → A → ℕ → A
update f i a j = if j == i then a else f j

abbrev pub total : ℕ → (ℕ → ℕ) → ℕ
total zero f = 0
total (suc n) f = f n + total n f

pub total-update_ge : (n i a : ℕ) (f : ℕ → ℕ) → n ≤ i → total n (update f i a) ≡ total n f
total-update_ge zero i a f h = refl
total-update_ge (suc n) i a f h = ground (arith, total-update_ge n i a f)

pub total-update : (n i a : ℕ) (f : ℕ → ℕ) → i < n → total n (update f i a) + f i ≡ total n f + a
total-update zero i a f h = absurd (omega arith)
total-update (suc n) i a f h = ground (arith, total-update n i a f, total-update_ge n i a f)

pub member-le-total : (n i : ℕ) (f : ℕ → ℕ) → i < n → f i ≤ total n f
member-le-total zero i f h = absurd (omega arith)
member-le-total (suc n) i f h = ground (arith, member-le-total n i f)

pub update_self {ℓ} : {A : Type ℓ} (f : ℕ → A) (i : ℕ) (a : A) → update f i a i ≡ a
update_self f i a = let e : (i == i) ≡ true = ground arith in rw e refl

pub update_ne {ℓ} : {A : Type ℓ} (f : ℕ → A) (i j : ℕ) (a : A) → j ≢ i → update f i a j ≡ f j
update_ne f i j a h = let e : (j == i) ≡ false = ground arith in rw e refl

pub total-le : (n b : ℕ) (f : ℕ → ℕ) → ((i : ℕ) → f i ≤ b) → total n f ≤ b * n
total-le zero b f h = omega arith
total-le (suc n) b f h = grind (arith, total-le n b f h, h n)
