-- ===== src/Base/Seq.antt =====
-- Histories that grow at the end, and slots that repeat with the capacity.
use Prim.Native.Nat.{ℕ, zero, suc, ◌+◌, ◌*◌, ◌/◌, ◌%◌, ◌≤◌, ◌<◌}
use mathlib.Core.Path.{◌≡◌, refl, ap, ◌∙◌}
use mathlib.Core.Logic.{◌≢◌}
use mathlib.Core.List.{List, [], ◌∷◌, ◌++◌, append-nil}
use mathlib.Core.Option.{some}
use native.Mathlib.Decide.{dec_lt}
use native.Mathlib.Nat.{div-add-mod, mul-le-mul_left, mul-suc}
use native.Mathlib.Omega.{arith}
use ultima_rings.Base.Lists.{length, get_elem?, take}

module _ {ℓ} {A : Type ℓ} where
  pub get_elem?_of_lt : (xs : List A) (i : ℕ) → i < length xs → (v : A) × (get_elem? xs i ≡ some v)
  get_elem?_of_lt [] i h = absurd (omega arith)
  get_elem?_of_lt (x ∷ xs) zero h = (x, refl)
  get_elem?_of_lt (x ∷ xs) (suc i) h = get_elem?_of_lt xs i (omega arith)

  pub get_elem?-append_left :
      (xs ys : List A) (i : ℕ) → i < length xs → get_elem? (xs ++ ys) i ≡ get_elem? xs i
  get_elem?-append_left [] ys i h = absurd (omega arith)
  get_elem?-append_left (x ∷ xs) ys zero h = refl
  get_elem?-append_left (x ∷ xs) ys (suc i) h = get_elem?-append_left xs ys i (omega arith)

  pub get_elem?-append_last :
      (xs : List A) (v : A) → get_elem? (xs ++ (v ∷ [])) (length xs) ≡ some v
  get_elem?-append_last [] v = refl
  get_elem?-append_last (x ∷ xs) v = get_elem?-append_last xs v

  pub take-append_left : (n : ℕ) (xs ys : List A) → n ≤ length xs → take n (xs ++ ys) ≡ take n xs
  take-append_left zero xs ys h = refl
  take-append_left (suc n) [] ys h = absurd (omega arith)
  take-append_left (suc n) (x ∷ xs) ys h = ap (λ l. x ∷ l) (take-append_left n xs ys (omega arith))

  pub take-suc :
      (n : ℕ) (xs : List A) {v : A}
      → get_elem? xs n ≡ some v
      → take (suc n) xs ≡ take n xs ++ (v ∷ [])
  take-suc n [] h = absurd (ground arith)
  take-suc zero (x ∷ xs) h = ground arith
  take-suc (suc n) (x ∷ xs) h = ap (λ l. x ∷ l) (take-suc n xs h)

  pub take-length : (xs : List A) → take (length xs) xs ≡ xs
  take-length [] = refl
  take-length (x ∷ xs) = ap (λ l. x ∷ l) (take-length xs)

-- A history to which nothing has been added has its length.
pub unchanged {ℓ} :
    {A : Type ℓ} (before out : List A) {l : List A} {began : ℕ}
    → length before ≡ began
    → l ≡ before ++ out
    → out ≡ []
    → length l ≡ began
unchanged before out b g n = ap length (g ∙ ap (λ l. before ++ l) n ∙ append-nil before) ∙ b

-- Two totals less than a capacity apart have different slots.
pub mod-ne_of_near : (c i j : ℕ) → i < j → j < i + c → i % c ≢ j % c
mod-ne_of_near c i j lt near e = elim (dec_lt (i / c) (j / c)) [
  | yes more ↦
      omega (
        arith,
        div-add-mod i c,
        div-add-mod j c,
        turns (suc (i / c)) (j / c) more,
        mul-suc c (i / c),
      )
  | no less ↦ omega (arith, div-add-mod i c, div-add-mod j c, turns (j / c) (i / c) (omega arith))
]
  where
    turns : (a b : ℕ) → a ≤ b → c * a ≤ c * b
    turns a b h = mul-le-mul_left c h

pub mod-add_self : (c i : ℕ) → 0 < c → (i + c) % c ≡ i % c
mod-add_self c i h = grind arith

pub div-add_self : (c i : ℕ) → 0 < c → (i + c) / c ≡ suc (i / c)
div-add_self c i h = grind arith
