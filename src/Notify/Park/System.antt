-- ===== src/Notify/Park/System.antt =====
-- A waiter and its wakers on threads of their own, which interleave at every access.
use ultima_rings.Base.{ℕ, suc, Bool, ◌≡◌, some, update}
use ultima_rings.Program.{act, ret}
use ultima_rings.Notify.Park.{Access, Reply, Code, wait_once, signal}
use ultima_rings.Notify.Park.Memory.{State, fresh, access}

pub data Thread : Type 0 where
  idle : Thread
  busy : Code (Unit {0}) → Thread

pub record System : Type 0 where
  pub state : State
  pub waiter : Thread
  pub wakers : ℕ → Thread

unfoldable pub init : System
unfolding fresh
init = record { state = fresh; waiter = idle; wakers = λ _. idle }

-- A thread begins, makes its next access, or is done. The waiter waits as often as it likes, and each
-- waker makes as many changes as it likes.
pub data Step (ends : ℕ → ℕ → Bool) (y z : System) : Type 0 where
  wait : y.waiter ≡ idle → z ≡ record y { waiter = busy (wait_once ends) } → Step ends y z
  access_wait :
      (c : Access) (k : Reply c → Code (Unit {0})) (choice : ℕ) (r : Reply c) (s : State)
      → y.waiter ≡ busy (act c k)
      → access 0 choice y.state c ≡ some (r, s)
      → z ≡ record y { state = s; waiter = busy (k r) }
      → Step ends y z
  return_wait : y.waiter ≡ busy (ret tt) → z ≡ record y { waiter = idle } → Step ends y z
  begin :
      (i place : ℕ)
      → y.wakers i ≡ idle
      → z ≡ record y { wakers = update y.wakers i (busy (signal place)) }
      → Step ends y z
  access_signal :
      (i : ℕ) (c : Access) (k : Reply c → Code (Unit {0})) (choice : ℕ) (r : Reply c) (s : State)
      → y.wakers i ≡ busy (act c k)
      → access (suc i) choice y.state c ≡ some (r, s)
      → z ≡ record y { state = s; wakers = update y.wakers i (busy (k r)) }
      → Step ends y z
  return_signal :
      (i : ℕ)
      → y.wakers i ≡ busy (ret tt)
      → z ≡ record y { wakers = update y.wakers i idle }
      → Step ends y z

pub data Reach (ends : ℕ → ℕ → Bool) : System → Type 0 where
  start : {y : System} → y ≡ init → Reach ends y
  later : {y z : System} → Reach ends y → Step ends y z → Reach ends z
