-- ===== src/Notify/WaiterList.antt =====
-- `WaiterList` of src/notify.rs, on which any number of threads wait.
use ultima_rings.Base.{
  ℕ, Bool, true, false, List, [], ◌∷◌, ◌++◌, if◌then◌else◌, ◌≡◌, arith, append-nil, append_assoc,
}

pub record WaiterList : Type 0 where
  pub waiting : Bool
  pub list : List ℕ  -- the registered threads

unfoldable pub new : WaiterList
new = record { waiting = false; list = [] }

unfoldable pub prepare_wait : ℕ → WaiterList → WaiterList
prepare_wait current w = record { waiting = true; list = w.list ++ (current ∷ []) }

-- The new state, and the threads that are unparked.
unfoldable pub wake_all : WaiterList → WaiterList × List ℕ
wake_all w = if w.waiting then (record { waiting = false; list = [] }, w.list) else (w, [])

-- The threads `ts` register one after another.
abbrev pub register : List ℕ → WaiterList → WaiterList
register [] w = w
register (t ∷ ts) w = register ts (prepare_wait t w)

register_lem :
    (ts : List ℕ) (w : WaiterList)
    → w.waiting ≡ true
    → register ts w ≡ record { waiting = true; list = w.list ++ ts }
unfolding prepare_wait
register_lem [] w e = ground (arith, append-nil w.list)
register_lem (t ∷ ts) w e =
    ground (arith, append_assoc w.list (t ∷ []) ts, register_lem ts (prepare_wait t w))

-- `wake_all` unparks the threads that have registered since the list was new, in the order of their
-- registrations and once for each; it leaves the list as new, so that a second one unparks nobody.
pub wake_all-register :
    (t : ℕ) (ts : List ℕ)
    → let (q, woken) = wake_all (register (t ∷ ts) new) in
      (woken ≡ t ∷ ts) × (q ≡ new) × (wake_all q ≡ (q, []))
unfolding wake_all new prepare_wait
wake_all-register t ts = ground (arith, register_lem ts (prepare_wait t new))
