-- ===== src/Mpsc/Config.antt =====
-- The constants of a ring of src/mpsc.rs that `channel` has built.
use ultima_rings.Base.{
  ℕ, ◌-◌, ◌/◌, ◌%◌, ◌^◌, ◌≤◌, ◌<◌, ◌≡◌, ap, ◌∙◌, sym, usize_bits, usize_mod, bit_and,
}
use native.Mathlib.Nat.{mod-eq_of_lt}
use ultima_rings.Base.Capacity.{pow_bounds, bit_and-wrap}
use ultima_rings.Mpsc.Defs.{Config, round_of}

pub record IsConfig (sh : Config) : Type 0 where
  pub fits : sh.shift < usize_bits
  pub power : sh.cap ≡ 2 ^ sh.shift
  pub ones : sh.mask ≡ sh.cap - 1

pub cap_bounds : {sh : Config} → IsConfig sh → (0 < sh.cap) × (sh.cap ≤ 2 ^ 63)
cap_bounds {sh} ok = rw ok.power (pow_bounds sh.shift ok.fits)

pub slot_index :
    {sh : Config} → IsConfig sh → (n : ℕ) → n < usize_mod → bit_and n sh.mask ≡ n % sh.cap
slot_index {sh} ok n h =
    ap (λ k. bit_and k sh.mask) (sym (mod-eq_of_lt h))
    ∙ rw (ok.ones, ok.power) (bit_and-wrap sh.shift n ok.fits)

pub round-div : {sh : Config} → IsConfig sh → (n : ℕ) → round_of sh n ≡ n / sh.cap
round-div ok n = rw ok.power
