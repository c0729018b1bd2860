-- ===== src/Spsc/Defs.antt =====
-- src/spsc.rs: the two handles, the constants that the shared block fixes at construction, and the
-- accesses to what the two threads share.
use ultima_rings.Base.{ℕ, Bool}
use ultima_rings.Program.{Program, act, ret, MemoryOrdering, End}
use ultima_rings.Wait.{WaitStrategy, Pause}

-- The fields of `Shared` that never change.
pub record Config : Type 0 where
  pub mask : ℕ
  pub cap : ℕ
  pub strategy : WaitStrategy

pub record Sender : Type 0 where
  pub tail : ℕ
  pub cached_head : ℕ

pub record Receiver : Type 0 where
  pub head : ℕ
  pub cached_tail : ℕ

-- One access to the fields of `Shared` that do change, to a parker, or to the caller's closure.
pub data Access (T : Type 0) : Type 0 where
  load_tail load_head load_disconnected : MemoryOrdering → Access T
  store_tail store_head : MemoryOrdering → ℕ → Access T
  store_disconnected : MemoryOrdering → Access T  -- of `true`
  write_slot : ℕ → T → Access T  -- `(*p).write(v)`
  read_slot : ℕ → Access T  -- `(*p).assume_init_read()`
  fence : MemoryOrdering → Access T
  wake prepare_park cancel park : End → Access T  -- the methods of a parker
  pause : Pause → Access T
  apply : T → Access T  -- the closure of `drain`: true if it returned, false if it unwound

abbrev pub Reply : {T : Type 0} → Access T → Type 0
Reply (Access.load_tail _) = ℕ
Reply (Access.load_head _) = ℕ
Reply (Access.load_disconnected _) = Bool
Reply {T} (Access.read_slot _) = T
Reply (Access.apply _) = Bool
Reply _ = Unit {0}

abbrev pub Code : Type 0 → Type 0 → Type 0
Code T A = Program {C = Access T} Reply A

-- An access whose result the program goes on with.
abbrev pub get : {T : Type 0} → (c : Access T) → Code T (Reply c)
get c = act c ret
