-- ===== src/Notify/Park/Tests.antt =====
-- A run of a waiter and two wakers: the waiter's wait ends with the third change of the first
-- location, or the first of the second.
use ultima_rings.Base.{
  ℕ, ◌≡◌, ◌≢◌, ◌⊎◌, refl, Bool, false, List, [], ◌∷◌, some, ltb, ◌==◌, if◌then◌else◌,
}
use ultima_rings.Notify.Park.{thread_park, wait_once, signal, tail, disconnected}
use ultima_rings.Notify.Park.Memory.{State, access, fresh}
use ultima_rings.Notify.Park.Schedule.{Turn, waiter, waker, Run, run}
use ultima_rings.Notify.Park.Sound.{no_lost_wakeup}
use ultima_rings.Notify.Park.System.{init, idle}

abbrev ends : ℕ → ℕ → Bool
ends place n = if place == tail then ltb 2 n else ltb 0 n

-- The first waker makes two changes while the waiter registers and checks; the second waker has then
-- made the first change of the other location and not looked at the flag yet.
abbrev turns : List Turn
turns = waker 0 tail 5 ∷ waiter 3 ∷ waker 0 tail 2 ∷ waiter 3 ∷ waker 1 disconnected 2 ∷ []

abbrev there : Run ends
unfolding run wait_once signal access init fresh
there = run ends turns

no_lost_wakeup_example :
    ((s : State) × (access 0 0 there.last.state thread_park ≡ some (tt, s)))
    ⊎ ((i : ℕ) × (there.last.wakers i ≢ idle))
    ⊎ ((there.last.state.change_seen 0 tail ≡ there.last.state.changes tail)
        × (there.last.state.change_seen 0 disconnected ≡ there.last.state.changes disconnected)
        × (ends tail (there.last.state.changes tail) ≡ false)
        × (ends disconnected (there.last.state.changes disconnected) ≡ false))
unfolding run wait_once signal access init fresh
no_lost_wakeup_example = no_lost_wakeup ends there.last _ there.reach refl
