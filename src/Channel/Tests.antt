-- ===== src/Channel/Tests.antt =====
-- The capacity check of src/lib.rs at concrete capacities.
use ultima_rings.Base.{◌^◌, ◌≡◌, refl}
use ultima_rings.Channel.{trailing_zeros, assert_cap}
use ultima_rings.Channel.Capacity.{pow-trailing_zeros}

pow-trailing_zeros_example : 2 ^ trailing_zeros 8 ≡ 8
unfolding assert_cap
pow-trailing_zeros_example = pow-trailing_zeros 8 refl
