-- ===== src/Notify/Park.antt =====
-- The methods of `Parker` of src/notify.rs, access by access, and how the rings call them. The waiter
-- and any number of wakers share a parker and the locations that tell whether the wait has ended, of which
-- only the number of changes matters here.
pub mod Memory
pub mod Rules
pub mod Inv
pub mod System
pub mod Sound
mod Schedule
mod Tests
use ultima_rings.Base.{ℕ, Bool, true, false, if◌then◌else◌}
use ultima_rings.Program.{Program, act, ret, ◌>>=◌, ◌>>◌, MemoryOrdering, relaxed, seq_cst}

pub data Access : Type 0 where
  store_parked : MemoryOrdering → Bool → Access
  load_parked : MemoryOrdering → Access
  register : Access  -- `*self.slot.lock().unwrap() = Some(thread::current())`
  take : Access  -- `self.slot.lock().unwrap().take()`: whether there was a thread
  unpark : Access  -- of the thread that was taken
  thread_park : Access
  fence : MemoryOrdering → Access
  change : ℕ → Access  -- the caller's store that may end the wait, to a location
  check : ℕ → Access  -- the caller's load of a location: which change of it is read

abbrev pub Reply : Access → Type 0
Reply (Access.load_parked _) = Bool
Reply Access.take = Bool
Reply (Access.check _) = ℕ
Reply _ = Unit {0}

abbrev pub Code : Type 0 → Type 0
Code A = Program {C = Access} Reply A

abbrev pub get : (c : Access) → Code (Reply c)
get c = act c ret

unfoldable pub prepare_park : Code (Unit {0})
prepare_park = do get register; get (store_parked relaxed true)

unfoldable pub cancel : Code (Unit {0})
cancel = get (store_parked relaxed false)

unfoldable pub park : Code (Unit {0})
park = do get thread_park; get (store_parked relaxed false)

unfoldable pub wake : Code (Unit {0})
wake = do
  parked ← get (load_parked relaxed)
  if parked
      then (do
        get (store_parked relaxed false)
        there ← get take
        if there then get unpark else ret tt)
      else ret tt

-- What a receiver waits for: the sender's counter, and the flag that the sender is gone.
abbrev pub tail : ℕ
tail = 0

abbrev pub disconnected : ℕ
disconnected = 1

-- One wait of a receiver under `WaitStrategy::Park`: it parks unless a change that it reads ends the
-- wait, `ends` by location and number of the change.
unfoldable pub wait_once : (ℕ → ℕ → Bool) → Code (Unit {0})
unfolding prepare_park cancel park
wait_once ends = do
  prepare_park
  get (fence seq_cst)
  seen ← get (check tail)
  if ends tail seen
      then cancel
      else (do seen ← get (check disconnected); if ends disconnected seen then cancel else park)

-- What the other side does under `WaitStrategy::Park` after it has written a value, or when it is
-- dropped.
unfoldable pub signal : ℕ → Code (Unit {0})
unfolding wake
signal place = do get (change place); get (fence seq_cst); wake
