-- ===== src/Base/Bits.antt =====
-- `x & (2 ^ k - 1)`, the slot index of both rings, is the remainder of `x` by `2 ^ k`.
use Prim.Native.Nat.{
  ℕ, zero, suc, ◌+◌, ◌-◌, ◌*◌, ◌/◌, ◌%◌, ◌^◌, ◌≤◌, ◌<◌, min, bit_and, digits, bit_and-bitwise,
}
use mathlib.Core.Path.{◌≡◌, refl, ap}
use native.Mathlib.Omega.{arith}
use native.Mathlib.Nat.{pow-suc, one-le-pow}

-- The recursion that `bit_and` stands for; its first argument is fuel.
abbrev conj : ℕ → ℕ → ℕ → ℕ
conj = digits (λ b. zero) min

-- Any fuel that covers the first operand gives the same digits.
conj_enough : (n m a b : ℕ) → a ≤ n → a ≤ m → conj n a b ≡ conj m a b
conj_enough zero zero zero b p q = refl
conj_enough zero (suc m) zero b p q = refl
conj_enough (suc n) zero zero b p q = refl
conj_enough (suc n) (suc m) zero b p q = refl
conj_enough zero m (suc a) b p q = absurd (omega arith)
conj_enough (suc n) zero (suc a) b p q = absurd (omega arith)
conj_enough (suc n) (suc m) (suc a) b p q =
    omega (arith, conj_enough n m (suc a / 2) (b / 2) (omega arith) (omega arith))

-- The lowest digit of a conjunction, and the rest.
bit_and-halves : (a c : ℕ) → bit_and a c ≡ bit_and (a / 2) (c / 2) * 2 + min (a % 2) (c % 2)
bit_and-halves zero c = omega (arith, bit_and-bitwise 0 c, bit_and-bitwise 0 (c / 2))
bit_and-halves (suc a) c = omega (
  arith,
  bit_and-bitwise (suc a) c,
  bit_and-bitwise (suc a / 2) (c / 2),
  conj_enough a (suc a / 2) (suc a / 2) (c / 2) (omega arith) (omega arith),
)

bit_and-zero_below : (n a : ℕ) → a < n → bit_and a 0 ≡ 0
bit_and-zero_below zero a h = absurd (omega arith)
bit_and-zero_below (suc n) zero h = refl
bit_and-zero_below (suc n) (suc a) h =
    omega (arith, bit_and-halves (suc a) 0, bit_and-zero_below n (suc a / 2) (omega arith))

-- Masking by `q` ones, with the value split at bit `k`: `a = hi * 2 ^ k + lo`.
bit_and-split : (k hi lo : ℕ) → lo < 2 ^ k → bit_and (hi * 2 ^ k + lo) (2 ^ k - 1) ≡ lo
bit_and-split zero hi lo h = ground (arith, bit_and-zero_below (suc (hi * 1)) (hi * 1))
bit_and-split (suc k) hi lo h =
    let q : hi * 2 ^ suc k ≡ 2 * (hi * 2 ^ k) =
      omega (arith, ap (λ (t : ℕ). hi * t) (pow-suc 2 k)) in
    ground (
      arith,
      bit_and-halves (hi * 2 ^ suc k + lo) (2 ^ suc k - 1),
      pow-suc 2 k,
      one-le-pow k 2,
      bit_and-split k hi (lo / 2),
    )

pub bit_and-mask : (k a : ℕ) → bit_and a (2 ^ k - 1) ≡ a % 2 ^ k
bit_and-mask k a = ground (arith, one-le-pow k 2, bit_and-split k (a / 2 ^ k) (a % 2 ^ k))
