-- ===== src/Program.antt =====
-- Programs over shared memory. An operation of the source is a tree of its accesses to shared
-- state, in program order; what an access returns selects how it goes on. A sequential run, the
-- interleaving of two threads and the proof rules each read the same tree.

pub mod Bounded

pub data Program {ℓ κ μ} {C : Type ℓ} (R : C → Type κ) (A : Type μ) : Type (ℓ ⊔ κ ⊔ μ) where
  ret : A → Program R A
  act : (c : C) → (R c → Program R A) → Program R A

module _ {ℓ κ} {C : Type ℓ} {R : C → Type κ} where
  infixl 5 ◌>>=◌ ◌>>◌
  abbrev pub ◌>>=◌ {μ ν} : {A : Type μ} {B : Type ν} → Program R A → (A → Program R B) → Program R B
  ret a >>= f = f a
  act c k >>= f = act c (λ r. k r >>= f)

  abbrev pub ◌>>◌ {ν} : {B : Type ν} → Program R (Unit {0}) → Program R B → Program R B
  m >> k = m >>= λ _. k

-- `std::sync::atomic::Ordering`
pub data MemoryOrdering : Type 0 where
  relaxed acquire release acq_rel seq_cst : MemoryOrdering

-- The two ends of a channel, which have a parker each.
pub data End : Type 0 where
  consumer producer : End
