-- ===== src/Notify/Tests.antt =====
-- The wait primitives of src/notify.rs at concrete waiters.
use ultima_rings.Base.{[], ◌∷◌, ◌≡◌}
use ultima_rings.Notify.WaiterList
use ultima_rings.Notify.WaiterList.{wake_all-register}

wake_all-register_example :
    let (q, woken) = WaiterList.wake_all (WaiterList.register (4 ∷ 5 ∷ 4 ∷ []) WaiterList.new) in
    (woken ≡ 4 ∷ 5 ∷ 4 ∷ []) × (q ≡ WaiterList.new) × (WaiterList.wake_all q ≡ (q, []))
wake_all-register_example = wake_all-register 4 (5 ∷ 4 ∷ [])
