-- ===== src/Base/Capacity.antt =====
-- A capacity `2 ^ k` against the word size: it fits, and masking a wrapped counter gives the slot of
-- the total that the counter stands for.
use Prim.Native.Nat.{ℕ, zero, suc, ◌-◌, ◌%◌, ◌^◌, ◌≤◌, ◌<◌, ◌∣◌, bit_and}
use mathlib.Core.Path.{◌≡◌, ◌∙◌}
use native.Mathlib.Decide.{dec_lt}
use native.Mathlib.Nat.{
  pow-suc, one-le-pow, pow-le-pow_right, dvd_refl, dvd-mul_right_of_dvd, mod-mod_of_dvd,
}
use native.Mathlib.Omega.{arith}
use ultima_rings.Base.Bits.{bit_and-mask}
use ultima_rings.Base.Usize.{usize_bits, usize_mod, wrap}

pow-dvd-pow : (k n : ℕ) → k ≤ n → 2 ^ k ∣ 2 ^ n
pow-dvd-pow k zero h = let e : k ≡ 0 = omega arith in rw e (dvd_refl 1)
pow-dvd-pow k (suc n) h = elim (dec_lt k (suc n)) [
  | yes lt ↦ rw (pow-suc 2 n) (dvd-mul_right_of_dvd _ (pow-dvd-pow k n (omega arith)) 2)
  | no ge ↦ let e : k ≡ suc n = omega arith in rw e (dvd_refl _)
]

pub pow_bounds : (k : ℕ) → k < usize_bits → (0 < 2 ^ k) × (2 ^ k ≤ 2 ^ 63)
pow_bounds k h =
    (one-le-pow k 2 (omega arith), pow-le-pow_right {n = 2} (omega arith) {j = 63} (omega arith))

pub wrap-mod : (k n : ℕ) → k < usize_bits → wrap n % 2 ^ k ≡ n % 2 ^ k
wrap-mod k n h = mod-mod_of_dvd (2 ^ k) {b = usize_mod} n (pow-dvd-pow k usize_bits (omega arith))

pub bit_and-wrap : (k n : ℕ) → k < usize_bits → bit_and (wrap n) (2 ^ k - 1) ≡ n % 2 ^ k
bit_and-wrap k n h = bit_and-mask k (wrap n) ∙ wrap-mod k n h
