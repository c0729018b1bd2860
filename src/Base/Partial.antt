-- ===== src/Base/Partial.antt =====
-- What a result that may be missing is, when it is there.
use mathlib.Core.Path.{◌≡◌, subst}
use mathlib.Core.Option.{Option, none, some}

abbrev pub Yields : {B : Type 0} → (B → Type 0) → Option B → Type 0
Yields P none = Unit
Yields P (some b) = P b

pub yields_some :
    {B : Type 0} (P : B → Type 0) {o : Option B} {b : B} → Yields P o → o ≡ some b → P b
yields_some P y e = subst (Yields P) e y
