-- ===== src/Memory.antt =====
-- Release and acquire of the C++ memory model, for an atomic that keeps all its values.
use ultima_rings.Base.{ℕ, ◌+◌, ◌≡◌, Bool, true, false, Option, some, ◌==◌, if◌then◌else◌}
use ultima_rings.Program.{MemoryOrdering}

abbrev pub acquires : MemoryOrdering → Bool
acquires MemoryOrdering.relaxed = false
acquires MemoryOrdering.release = false
acquires MemoryOrdering.acquire = true
acquires MemoryOrdering.acq_rel = true
acquires MemoryOrdering.seq_cst = true

abbrev pub releases : MemoryOrdering → Bool
releases MemoryOrdering.relaxed = false
releases MemoryOrdering.acquire = false
releases MemoryOrdering.release = true
releases MemoryOrdering.acq_rel = true
releases MemoryOrdering.seq_cst = true

-- An atomic that one thread writes: version number `i` holds `value i`, and its store released the
-- first `clock i` slot accesses of the writer.
pub record Timeline : Type 0 where
  pub latest : ℕ
  pub value : ℕ → ℕ
  pub clock : ℕ → ℕ

abbrev pub store : Timeline → ℕ → ℕ → Timeline
store l x accesses = record {
  latest = l.latest + 1;
  value = λ i. if i == l.latest + 1 then x else l.value i;
  clock = λ i. if i == l.latest + 1 then accesses else l.clock i;
}

-- Something comes back.
abbrev pub HasResult {ℓ} : {A : Type ℓ} → Option A → Type ℓ
HasResult {A = A} o = (a : A) × (o ≡ some a)
