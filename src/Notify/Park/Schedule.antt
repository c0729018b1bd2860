-- ===== src/Notify/Park/Schedule.antt =====
-- Reachable states of a waiter and its wakers by evaluation: the threads take turns in a given order,
-- and each load reads the latest version.
use ultima_rings.Base.{ℕ, zero, suc, ◌≡◌, refl, Bool, Option, none, some, List, [], ◌∷◌}
use ultima_rings.Program.{ret, act}
use ultima_rings.Notify.Park.{Access, load_parked, check, Reply, Code}
use ultima_rings.Notify.Park.Memory.{State, access}
use ultima_rings.Notify.Park.System.{Thread, idle, busy, System, Step, Reach, init}

-- The next `n` steps of the waiter, or of the waker `i`: an idle thread begins a call, a waker for a
-- location.
pub data Turn : Type 0 where
  waiter : ℕ → Turn
  waker : ℕ → ℕ → ℕ → Turn

abbrev newest : State → Access → ℕ
newest s (load_parked _) = s.latest
newest s (check l) = s.changes l
newest s _ = 0

abbrev Next : (ℕ → ℕ → Bool) → System → Type 0
Next ends y = Option ((z : System) × Step ends y z)

module _ {ends : ℕ → ℕ → Bool} where
  access_wait :
      (y : System) (c : Access) (k : Reply c → Code (Unit {0}))
      → y.waiter ≡ busy (act c k)
      → (o : Option (Reply c × State)) → access 0 (newest y.state c) y.state c ≡ o
      → Next ends y
  access_wait y c k e none f = none
  access_wait y c k e (some (r, s)) f =
      some (_, Step.access_wait c k (newest y.state c) r s e f refl)

  next_wait : (y : System) (t : Thread) → y.waiter ≡ t → Next ends y
  unfolding access_wait
  next_wait y idle e = some (_, Step.wait e refl)
  next_wait y (busy (ret tt)) e = some (_, Step.return_wait e refl)
  next_wait y (busy (act c k)) e = access_wait y c k e _ refl

  access_signal :
      (y : System) (i : ℕ) (c : Access) (k : Reply c → Code (Unit {0}))
      → y.wakers i ≡ busy (act c k)
      → (o : Option (Reply c × State)) → access (suc i) (newest y.state c) y.state c ≡ o
      → Next ends y
  access_signal y i c k e none f = none
  access_signal y i c k e (some (r, s)) f =
      some (_, Step.access_signal i c k (newest y.state c) r s e f refl)

  next_signal : (y : System) (i place : ℕ) (t : Thread) → y.wakers i ≡ t → Next ends y
  unfolding access_signal
  next_signal y i place idle e = some (_, Step.begin i place e refl)
  next_signal y i place (busy (ret tt)) e = some (_, Step.return_signal i e refl)
  next_signal y i place (busy (act c k)) e = access_signal y i c k e _ refl

pub record Run (ends : ℕ → ℕ → Bool) : Type 0 where
  pub last : System
  pub reach : Reach ends last

module _ {ends : ℕ → ℕ → Bool} where
  go : (r : Run ends) → Next ends r.last → Run ends
  go r none = r
  go r (some (z, step)) = record { last = z; reach = Reach.later r.reach step }

  turn : Run ends → Turn → Run ends
  unfolding go next_wait next_signal
  turn r (waiter zero) = r
  turn r (waiter (suc n)) = turn (go r (next_wait r.last r.last.waiter refl)) (waiter n)
  turn r (waker i place zero) = r
  turn r (waker i place (suc n)) =
      turn (go r (next_signal r.last i place (r.last.wakers i) refl)) (waker i place n)

  turns : Run ends → List Turn → Run ends
  unfolding turn
  turns r [] = r
  turns r (t ∷ ts) = turns (turn r t) ts

unfoldable pub run : (ends : ℕ → ℕ → Bool) → List Turn → Run ends
unfolding turns
run ends ts = turns (record { last = init; reach = Reach.start refl }) ts
