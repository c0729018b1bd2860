-- ===== src/Base/Usize.antt =====
-- `usize` of 64 bits, with the arithmetic of a release build: sums and differences wrap.
use Prim.Native.Nat.{ℕ, ◌+◌, ◌-◌, ◌%◌, ◌^◌, ◌≤◌, ◌<◌, min}
use mathlib.Core.Path.{◌≡◌}
use native.Mathlib.Omega.{arith}

abbrev pub usize_bits : ℕ
usize_bits = 64

abbrev pub usize_mod : ℕ
usize_mod = 2 ^ usize_bits

abbrev pub usize_max : ℕ
usize_max = usize_mod - 1

abbrev pub add_usize : ℕ → ℕ → ℕ
add_usize a b = (a + b) % usize_mod

abbrev pub sub_usize : ℕ → ℕ → ℕ
sub_usize a b = (a + usize_mod - b) % usize_mod

abbrev pub saturating_add : ℕ → ℕ → ℕ
saturating_add a b = min (a + b) usize_max

-- The counter that stands for a total of `n` events.
abbrev pub wrap : ℕ → ℕ
wrap n = n % usize_mod

pub sub_usize-wrap : (n m : ℕ) → m ≤ n → n < m + usize_mod → sub_usize (wrap n) (wrap m) ≡ n - m
sub_usize-wrap n m h k = omega arith

pub add_usize-wrap : (n : ℕ) → add_usize (wrap n) 1 ≡ wrap (n + 1)
add_usize-wrap n = omega arith

-- Counters that stand for totals less than a turn apart are equal only if the totals are.
pub wrap-injective : (n m : ℕ) → m ≤ n → n < m + usize_mod → wrap n ≡ wrap m → n ≡ m
wrap-injective n m h k e = omega arith
