-- ===== src/Notify/Parker.antt =====
-- `Parker` of src/notify.rs, which at most one thread waits on.
use ultima_rings.Base.{ℕ, Bool, true, false, Option, none, some, if◌then◌else◌}

pub record Parker : Type 0 where
  pub parked : Bool
  pub slot : Option ℕ  -- the registered thread

unfoldable pub new : Parker
new = record { parked = false; slot = none }

unfoldable pub prepare_park : ℕ → Parker → Parker
prepare_park current p = record { parked = true; slot = some current }

unfoldable pub cancel : Parker → Parker
cancel p = record p { parked = false }

-- What `park` does once `thread::park` has returned.
unfoldable pub unparked : Parker → Parker
unparked p = record p { parked = false }

-- The new state, and the thread that is unparked.
unfoldable pub wake : Parker → Parker × Option ℕ
wake p = if p.parked then (record { parked = false; slot = none }, p.slot) else (p, none)
