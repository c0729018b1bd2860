-- ===== src/Mpsc/Reachable.antt =====
-- The invariant of src/mpsc.rs in every reachable state.
use native.Mathlib.Nat.{mod-lt, div-eq_of_lt}
use ultima_rings.Base.{
  ℕ, zero, suc, ◌/◌, ◌%◌, ◌<◌, ◌≡◌, refl, sym, false, none, some, arith, length-replicate,
  replicate, get_elem?, Bool-cases, inl, inr, ◌==◌, usize_max,
}
use ultima_rings.Mpsc.Config.{IsConfig, cap_bounds}
use ultima_rings.Mpsc.Defs.{Config}
use ultima_rings.Mpsc.Inv.{Inv, unclaimed}
use ultima_rings.Mpsc.Sound.{Sound, Sound-Step}
use ultima_rings.Mpsc.State.{Slot}
use ultima_rings.Mpsc.System.{System, init, Reach, start, later}

abbrev empty_slot : {T : Type 0} → Slot T
empty_slot = record {
  content = none;
  stamp = 0;
  writes = 0;
  writer = 0;
  rounds = record { latest = 0; value = λ _. usize_max; clock = λ _. 0 };
}

empty_slots :
    {T : Type 0} (n i : ℕ)
    → i < n
    → get_elem? (replicate n (empty_slot {T = T})) i ≡ some empty_slot
empty_slots zero i h = absurd (omega arith)
empty_slots (suc n) zero h = refl
empty_slots (suc n) (suc i) h = empty_slots n i (omega arith)

module _ {T : Type 0} {sh : Config} (is : IsConfig sh) where
  init-Inv :
      Inv {T = T} sh.cap 1
        (init sh.cap).state
        (record { read = 0; released = 0; available = false; complete = false; all = 0 })
  unfolding init
  init-Inv = record {
    phase = λ _. unclaimed;
    size = length-replicate sh.cap _;
    counters = record {
      small = ground arith;
      versions = λ i le. (refl, ground arith);
      last = refl;
      behind = ground arith;
      order = ground arith;
      room = ground arith;
      knows = λ i. ground arith;
    };
    owners = record {
      ahead = λ n h. refl;
      taken = λ n h. absurd (omega (arith, h));
      done = λ n h. absurd (omega (arith, h));
      claims = λ i n e. absurd (ground (arith, e));
      fills = λ i n v e. absurd (ground (arith, e));
      claimed_own = λ i n e. absurd (ground (arith, e));
      filled_own = λ i n v e. absurd (ground (arith, e));
    };
    window = λ n lo hi.
        let turn : n / sh.cap ≡ 0 = div-eq_of_lt (omega (arith, hi)) in
        record {
          slot = empty_slot;
          here = empty_slots sh.cap (n % sh.cap) (mod-lt n (cap_bounds is).0);
          rounds = record { initial = refl; values = λ v h. absurd (omega (arith, h)) };
          seen_ge = rw turn (ground arith);
          seen_le = ground arith;
          holds = (refl, ground arith, sym turn, sym turn);
        };
    logs = record {
      count = refl;
      logged = λ n v e. absurd (ground (arith, e));
      logging = λ i n v e. absurd (ground (arith, e));
      fifo = λ n h. absurd (omega (arith, h));
    };
    sent = λ i. tt;
    rising = λ i. ground arith;
    holders = record {
      count = refl;
      few = λ i. ground arith;
      beyond = λ i h. ground (arith, h);
      idle = λ i h. refl;
      chain = refl;
    };
    certain = record {
      available = λ h. absurd (ground (arith, h));
      complete = λ h. absurd (ground (arith, h));
    };
  }

  Sound-init : Sound {T = T} is (init sh.cap)
  unfolding init
  Sound-init = record {
    pull = record { read = 0; released = 0; available = false; complete = false; all = 0 };
    few = ground arith;
    inv = init-Inv;
    senders_ok = λ i. elim (Bool-cases (i == 0)) [
      | inl e ↦ rw e (record { cached = ground arith; idle = refl; live = refl })
      | inr e ↦ rw e refl
    ];
    others_gone = λ i ge. let e : (i == 0) ≡ false = ground arith in rw e refl;
    receiver_ok = record { reads = record { head = refl; small = ground arith }; released = refl };
  }

  -- The invariant holds in every reachable state.
  pub Reach-Sound : {y : System T} → Reach sh y → Sound is y
  Reach-Sound (start e) = rw e Sound-init
  Reach-Sound (later r st) = Sound-Step is st (Reach-Sound r)
