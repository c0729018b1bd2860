-- ===== src/Spsc/Config.antt =====
-- The constants of a ring of src/spsc.rs that `channel` has built.
use ultima_rings.Base.{ℕ, ◌-◌, ◌%◌, ◌^◌, ◌≤◌, ◌<◌, ◌≡◌, usize_bits, wrap, bit_and}
use ultima_rings.Base.Capacity.{pow_bounds, bit_and-wrap}
use ultima_rings.Spsc.Defs.{Config}

pub record IsConfig (sh : Config) : Type 0 where
  pub exponent : ℕ
  pub fits : exponent < usize_bits
  pub power : sh.cap ≡ 2 ^ exponent
  pub ones : sh.mask ≡ sh.cap - 1

pub cap_bounds : {sh : Config} → IsConfig sh → (0 < sh.cap) × (sh.cap ≤ 2 ^ 63)
cap_bounds ok = rw ok.power (pow_bounds ok.exponent ok.fits)

-- The slot of a counter is the slot of the total that it stands for.
pub slot_index : {sh : Config} → IsConfig sh → (n : ℕ) → bit_and (wrap n) sh.mask ≡ n % sh.cap
slot_index ok n = rw (ok.ones, ok.power) (bit_and-wrap ok.exponent n ok.fits)
