-- ===== src/Prelude/Lists.antt =====
-- Lists measured by native numbers, and predicates over their members.
use Prim.Native.Nat.{ℕ, suc, ◌+◌}
use mathlib.Core.Path.{◌≡◌}
use mathlib.Core.Bool.{Bool, false, ◌||◌}
use mathlib.Core.List.{List, [], ◌∷◌, ◌++◌}
use mathlib.Core.Option.{Option, none, some}
use native.Mathlib.Omega.{arith}
use deptoflex_back.Prelude.Tests.{◌==◌}

module _ {ℓ} {A : Type ℓ} where
  abbrev pub length : List A → ℕ
  length [] = 0
  length (x ∷ xs) = suc (length xs)

  pub length-append : (xs ys : List A) → length (xs ++ ys) ≡ length xs + length ys
  length-append [] ys = omega arith
  length-append (x ∷ xs) ys = omega (arith, length-append xs ys)

  -- The sum of a measure over the rows.
  abbrev pub sum_of : (A → ℕ) → List A → ℕ
  sum_of f [] = 0
  sum_of f (x ∷ xs) = f x + sum_of f xs

  pub sum_of-append : (f : A → ℕ) (xs ys : List A) → sum_of f (xs ++ ys) ≡ sum_of f xs + sum_of f ys
  sum_of-append f [] ys = omega arith
  sum_of-append f (x ∷ xs) ys = omega (arith, sum_of-append f xs ys)

-- `list.includes(a)`
abbrev pub includes : List ℕ → ℕ → Bool
includes [] a = false
includes (x ∷ xs) a = x == a || includes xs a

module _ {ℓ κ} {A : Type ℓ} (P : A → Type κ) where
  abbrev pub All : List A → Type κ
  All [] = Unit
  All (x ∷ xs) = P x × All xs

module _ {ℓ κ} {A : Type ℓ} (P : A → Type κ) where
  pub All-append : (xs ys : List A) → All P xs → All P ys → All P (xs ++ ys)
  All-append [] ys hx hy = hy
  All-append (x ∷ xs) ys hx hy = (hx.0, All-append xs ys hx.1 hy)

module _ {ℓ κ μ} {A : Type ℓ} (P : A → Type κ) (Q : A → Type μ) where
  pub All-mono : ((x : A) → P x → Q x) → (xs : List A) → All P xs → All Q xs
  All-mono f [] h = tt
  All-mono f (x ∷ xs) h = (f x h.0, All-mono f xs h.1)

module _ {ℓ κ μ ν} {A : Type ℓ} (P : A → Type κ) (Q : A → Type μ) (R : A → Type ν) where
  pub All-zip : ((x : A) → P x → Q x → R x) → (xs : List A) → All P xs → All Q xs → All R xs
  All-zip f [] h k = tt
  All-zip f (x ∷ xs) h k = (f x h.0 k.0, All-zip f xs h.1 k.1)

-- Two lists of the same length whose members are related one by one.
module _ {A : Type 0} (R : A → A → Type 0) where
  abbrev pub Forall₂ : List A → List A → Type 0
  Forall₂ [] [] = Unit
  Forall₂ [] (y ∷ ys) = ⊥
  Forall₂ (x ∷ xs) [] = ⊥
  Forall₂ (x ∷ xs) (y ∷ ys) = R x y × Forall₂ xs ys

-- `list[0]`
abbrev pub first {ℓ} : {A : Type ℓ} → List A → Option A
first [] = none
first (x ∷ xs) = some x

-- Every row of the first list has its row in the second, in the same place; the second may go on.
module _ {A : Type 0} (R : A → A → Type 0) where
  abbrev pub Extends : List A → List A → Type 0
  Extends [] ys = Unit
  Extends (x ∷ xs) [] = ⊥
  Extends (x ∷ xs) (y ∷ ys) = R x y × Extends xs ys

  pub Extends-self : ((x : A) → R x x) → (xs : List A) → Extends xs xs
  Extends-self r [] = tt
  Extends-self r (x ∷ xs) = (r x, Extends-self r xs)

  pub Extends-create : (z : A) (xs ys : List A) → Extends xs ys → Extends xs (ys ++ (z ∷ []))
  Extends-create z [] ys e = tt
  Extends-create z (x ∷ xs) [] e = absurd e
  Extends-create z (x ∷ xs) (y ∷ ys) e = (e.0, Extends-create z xs ys e.1)

module _ {A : Type 0} (R S T : A → A → Type 0) (f : (x y z : A) → R x y → S y z → T x z) where
  pub Extends-trans : (xs ys zs : List A) → Extends R xs ys → Extends S ys zs → Extends T xs zs
  Extends-trans [] ys zs r s = tt
  Extends-trans (x ∷ xs) [] zs r s = absurd r
  Extends-trans (x ∷ xs) (y ∷ ys) [] r s = absurd s
  Extends-trans (x ∷ xs) (y ∷ ys) (z ∷ zs) r s = (f x y z r.0 s.0, Extends-trans xs ys zs r.1 s.1)
