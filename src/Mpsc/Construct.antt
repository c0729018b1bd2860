-- ===== src/Mpsc/Construct.antt =====
-- What `channel` of src/mpsc.rs hands out.
use ultima_rings.Base.{
  ℕ, ◌^◌, ◌<◌, true, false, Bool, ◌≡◌, refl, ap, subst, Option, some, none, usize_bits, arith,
  if◌then◌else◌, ◌∙◌, sym,
}
use ultima_rings.Channel.{assert_cap}
use ultima_rings.Channel.Capacity.{assert_cap_iff, pow-trailing_zeros, trailing_zeros-lt}
use ultima_rings.Wait.{WaitStrategy}
use ultima_rings.Mpsc.Config.{IsConfig}
use ultima_rings.Mpsc.Defs.{Config}
use ultima_rings.Mpsc.System.{System, Reach, config, init, channel}

config-IsConfig :
    (cap : ℕ) (strategy : WaitStrategy) → assert_cap cap ≡ true → IsConfig (config cap strategy)
unfolding config
config-IsConfig cap strategy e = record {
  fits = trailing_zeros-lt cap e;
  power = sym (pow-trailing_zeros cap e);
  ones = refl;
}

module _ {T : Type 0} (cap : ℕ) (strategy : WaitStrategy) (sh : Config) (y : System T) where
  handles : Option (Config × System T) → Config × System T
  handles none = (sh, y)
  handles (some p) = p

  built :
      (accepted : Bool)
      → assert_cap cap ≡ accepted
      → ◌≡◌ {A = Option (Config × System T)}
          (if accepted then some (config cap strategy, init cap) else none)
          (some (sh, y))
      → IsConfig sh × Reach sh y
  unfolding handles config
  built true e h =
      let same : config cap strategy ≡ sh = ap (λ o. (handles o).0) h in
      let there : init cap ≡ y = ap (λ o. (handles o).1) h in
      let size : cap ≡ sh.cap = ap (λ c. c.cap) same in
      (subst IsConfig same (config-IsConfig cap strategy e), Reach.start (sym there ∙ ap init size))
  built false e h = absurd (ground (arith, h))

-- If `channel` does not panic, the mask, the capacity and the shift that it fixes are those of a power
-- of two below the word size, and its two idle handles on an empty ring are a state from which the
-- reachable states begin. It does not panic for any such capacity.
pub channel-Reach :
    {T : Type 0} (cap : ℕ) (strategy : WaitStrategy)
    → ((sh : Config) (y : System T)
        → channel cap strategy ≡ some (sh, y)
        → IsConfig sh × Reach sh y)
      × ((k : ℕ)
          → k < usize_bits
          → cap ≡ 2 ^ k
          → channel {T = T} cap strategy ≡ some (config cap strategy, init cap))
unfolding channel
channel-Reach cap strategy = (
  λ sh y h. built cap strategy sh y (assert_cap cap) refl h,
  λ k lt p. rw ((assert_cap_iff cap).1 (k, lt, p)) refl,
)
