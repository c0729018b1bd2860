-- ===== src/Channel.antt =====
-- src/lib.rs: the error types that both rings and the sharded channel return, their messages, and
-- the capacity check of the constructors. Panics are `none`.
pub mod Capacity
mod Tests
use Prim.Native.String.{String}
use ultima_rings.Base.{
  ℕ, zero, suc, ◌+◌, ◌/◌, ◌%◌, ◌^◌, Bool, false, true, ◌&&◌, ◌||◌, Option, none, some, ltb, ◌==◌,
  usize_bits, if◌then◌else◌,
}

-- `std::result::Result`
pub data Result {ℓ κ} (A : Type ℓ) (E : Type κ) : Type (ℓ ⊔ κ) where
  ok : A → Result A E
  err : E → Result A E

pub data TrySendError {ℓ} (T : Type ℓ) : Type ℓ where
  full : T → TrySendError T
  disconnected : T → TrySendError T

pub data SendError {ℓ} (T : Type ℓ) : Type ℓ where
  send_error : T → SendError T

pub data TryRecvError : Type 0 where
  empty disconnected : TryRecvError

pub data RecvError : Type 0 where
  recv_error : RecvError

-- The four `Display` implementations.
module _ {ℓ} {T : Type ℓ} where
  abbrev pub fmt_try_send_error : TrySendError T → String
  fmt_try_send_error (TrySendError.full _) = "ring is full"
  fmt_try_send_error (TrySendError.disconnected _) = "receiver disconnected"

  abbrev pub fmt_send_error : SendError T → String
  fmt_send_error (SendError.send_error _) = "receiver disconnected"

abbrev pub fmt_try_recv_error : TryRecvError → String
fmt_try_recv_error TryRecvError.empty = "ring is empty"
fmt_try_recv_error TryRecvError.disconnected = "senders disconnected"

abbrev pub fmt_recv_error : RecvError → String
fmt_recv_error RecvError.recv_error = "senders disconnected"

-- `n = 2 ^ k` for some `k < bits`.
pub is_power_of_two_below : ℕ → ℕ → Bool
is_power_of_two_below zero n = false
is_power_of_two_below (suc k) n = n == 2 ^ k || is_power_of_two_below k n

-- `usize::is_power_of_two`
pub is_power_of_two : ℕ → Bool
unfolding is_power_of_two_below
is_power_of_two n = is_power_of_two_below usize_bits n

-- `usize::trailing_zeros`, on `bits` bits.
pub trailing_zeros_below : ℕ → ℕ → ℕ
trailing_zeros_below zero n = 0
trailing_zeros_below (suc k) n =
    let rest = trailing_zeros_below k (n / 2) in if n % 2 == 1 then 0 else 1 + rest

unfoldable pub trailing_zeros : ℕ → ℕ
unfolding trailing_zeros_below
trailing_zeros n = trailing_zeros_below usize_bits n

-- `assert_cap`: false is the panic.
unfoldable pub assert_cap : ℕ → Bool
unfolding is_power_of_two
assert_cap cap = ltb 0 cap && is_power_of_two cap
