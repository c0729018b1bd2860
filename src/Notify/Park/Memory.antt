-- ===== src/Notify/Park/Memory.antt =====
-- The memory that a waiter and its wakers share, under the C++ memory model's coherence and
-- sequentially consistent fences: each thread has a lower bound on the versions that it may read of
-- each location, which a fence exchanges with a common bound.
use ultima_rings.Base.{
  ℕ, ◌+◌, max, Bool, true, false, ◌&&◌, Option, none, some, if◌then◌else◌, ltb, leb, update,
}
use ultima_rings.Program.{MemoryOrdering}
use ultima_rings.Notify.Park.{
  Access, store_parked, load_parked, register, take, unpark, thread_park, fence, change, check,
  Reply,
}

-- Version `i` of the flag holds `flag i`. The thread 0 is the waiter.
pub record State : Type 0 where
  pub latest : ℕ
  pub flag : ℕ → Bool
  pub changes : ℕ → ℕ
  pub slot : Bool  -- whether the waiter is registered
  pub token : Bool  -- of `thread::park`
  pub flag_seen : ℕ → ℕ
  pub change_seen : ℕ → ℕ → ℕ
  pub fence_flag : ℕ
  pub fence_changes : ℕ → ℕ

abbrev pub is_seq_cst : MemoryOrdering → Bool
is_seq_cst MemoryOrdering.seq_cst = true
is_seq_cst MemoryOrdering.relaxed = false
is_seq_cst MemoryOrdering.acquire = false
is_seq_cst MemoryOrdering.release = false
is_seq_cst MemoryOrdering.acq_rel = false

-- One access of the thread `me`; `choice` is the version that a load reads, and 0 for a `thread::park`
-- that does not wake up for no reason. `none` is a version that cannot be read, and a blocked thread.
unfoldable pub access : ℕ → ℕ → State → (c : Access) → Option (Reply c × State)
access me choice s (store_parked o b) = some (
  tt,
  record s {
    latest = s.latest + 1;
    flag = update s.flag (s.latest + 1) b;
    flag_seen = update s.flag_seen me (s.latest + 1);
  },
)
access me choice s (load_parked o) =
    if leb (s.flag_seen me) choice && leb choice s.latest
    then some (s.flag choice, record s { flag_seen = update s.flag_seen me choice })
    else none
access me choice s register = some (tt, record s { slot = true })
access me choice s take = some (s.slot, record s { slot = false })
access me choice s unpark = some (tt, record s { token = true })
access me choice s thread_park =
    if s.token
    then some (tt, record s { token = false })
    else if ltb 0 choice
    then some (tt, s)
    else none
access me choice s (fence o) =
    if is_seq_cst o
    then some (
      tt,
      record s {
        flag_seen = update s.flag_seen me (max (s.flag_seen me) s.fence_flag);
        change_seen = update s.change_seen me (λ l. max (s.change_seen me l) (s.fence_changes l));
        fence_flag = max (s.flag_seen me) s.fence_flag;
        fence_changes = λ l. max (s.change_seen me l) (s.fence_changes l);
      },
    )
    else some (tt, s)
access me choice s (change l) = some (
  tt,
  record s {
    changes = update s.changes l (s.changes l + 1);
    change_seen = update s.change_seen me (update (s.change_seen me) l (s.changes l + 1));
  },
)
access me choice s (check l) =
    if leb (s.change_seen me l) choice && leb choice (s.changes l)
    then some (
      choice,
      record s { change_seen = update s.change_seen me (update (s.change_seen me) l choice) },
    )
    else none

-- `Parker::new`.
unfoldable pub fresh : State
fresh = record {
  latest = 0;
  flag = λ _. false;
  changes = λ _. 0;
  slot = false;
  token = false;
  flag_seen = λ _. 0;
  change_seen = λ _ _. 0;
  fence_flag = 0;
  fence_changes = λ _. 0;
}
