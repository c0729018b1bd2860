-- ===== src/Channel/Capacity.antt =====
-- What the capacity check of src/lib.rs lets through.
use native.Mathlib.Nat.{pow-suc, one-le-pow}
use ultima_rings.Base.{
  ℕ, zero, suc, ◌/◌, ◌^◌, ◌<◌, ◌≡◌, refl, true, arith, ◌==◌, ◌↔◌, Bool-cases, inl, inr, usize_bits,
}
use ultima_rings.Channel.{is_power_of_two_below, trailing_zeros_below, trailing_zeros, assert_cap}

is_power_of_two_below-exponent :
    (bits n : ℕ) → is_power_of_two_below bits n ≡ true → (k : ℕ) × (k < bits) × (n ≡ 2 ^ k)
unfolding is_power_of_two_below
is_power_of_two_below-exponent zero n h = absurd (ground arith)
is_power_of_two_below-exponent (suc b) n h = elim (Bool-cases (n == 2 ^ b)) [
  | inl e ↦ (b, ground arith, ground arith)
  | inr e ↦
      let (k, lt, p) = is_power_of_two_below-exponent b n (ground arith) in (k, omega arith, p)
]

is_power_of_two_below-pow : (bits k : ℕ) → k < bits → is_power_of_two_below bits (2 ^ k) ≡ true
unfolding is_power_of_two_below
is_power_of_two_below-pow zero k h = absurd (omega arith)
is_power_of_two_below-pow (suc b) k h = elim (Bool-cases (k == b)) [
  | inl e ↦ ground arith
  | inr e ↦ ground (arith, is_power_of_two_below-pow b k)
]

pub trailing_zeros_below-pow : (bits k : ℕ) → k < bits → trailing_zeros_below bits (2 ^ k) ≡ k
unfolding trailing_zeros_below
trailing_zeros_below-pow zero k h = absurd (omega arith)
trailing_zeros_below-pow (suc b) zero h = refl
trailing_zeros_below-pow (suc b) (suc k) h =
    let half : 2 ^ suc k / 2 ≡ 2 ^ k = omega (arith, pow-suc 2 k) in
    ground (arith, pow-suc 2 k, trailing_zeros_below-pow b k)

-- `assert_cap` accepts a capacity exactly when it is `2 ^ k` for a `k` below the word size.
pub assert_cap_iff :
    (cap : ℕ) → (assert_cap cap ≡ true) ↔ ((k : ℕ) × (k < usize_bits) × (cap ≡ 2 ^ k))
unfolding assert_cap
assert_cap_iff cap = (λ h. is_power_of_two_below-exponent usize_bits cap (ground arith), back)
  where
    back : ((k : ℕ) × (k < usize_bits) × (cap ≡ 2 ^ k)) → assert_cap cap ≡ true
    back (k, lt, e) = ground (arith, one-le-pow k 2, is_power_of_two_below-pow usize_bits k)

-- For an accepted capacity `1 << cap.trailing_zeros()` is the capacity.
pub pow-trailing_zeros : (cap : ℕ) → assert_cap cap ≡ true → 2 ^ trailing_zeros cap ≡ cap
unfolding trailing_zeros
pow-trailing_zeros cap h =
    let (k, lt, e) = (assert_cap_iff cap).0 h in
    ground (arith, trailing_zeros_below-pow usize_bits k)

pub trailing_zeros-lt : (cap : ℕ) → assert_cap cap ≡ true → trailing_zeros cap < usize_bits
unfolding trailing_zeros
trailing_zeros-lt cap h =
    let (k, lt, e) = (assert_cap_iff cap).0 h in
    rw e (rw (trailing_zeros_below-pow usize_bits k lt) lt)
