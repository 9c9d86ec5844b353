-- ===== src/Prelude/Table/Laws.antt =====
-- What the queries find after a table was changed.
use Prim.Native.Nat.{ℕ}
use mathlib.Core.Path.{◌≡◌, refl, subst}
use mathlib.Core.Logic.{inl, inr}
use mathlib.Core.Bool.{Bool, true, false, ◌||◌, ◌&&◌}
use mathlib.Core.Option
use mathlib.Core.Option.{Option, none, some}
use mathlib.Core.List.{List, [], ◌∷◌, map}
use native.Mathlib.Omega.{arith}
use deptoflex_back.Prelude.Tests.{==_self, Bool-cases, if◌then◌else◌, is_some, ◌==◌}
use deptoflex_back.Prelude.Lists.{All, Extends, Forall₂, includes}
use deptoflex_back.Prelude.Table.{create, delete_many, exists, find_first, find_many, update_many}

module _ {A : Type 0} where
  -- A row that is found meets the test, and with it whatever holds of all rows.
  pub find_first-test : (p : A → Bool) (xs : List A) {x : A} → find_first p xs ≡ some x → p x ≡ true
  unfolding find_first
  find_first-test p [] e = cc
  find_first-test p (y ∷ ys) {x} e = ground (arith, find_first-test p ys {x = x})

  pub find_first-exists : (p : A → Bool) (xs : List A) → is_some (find_first p xs) ≡ exists p xs
  unfolding find_first exists
  find_first-exists p [] = refl
  find_first-exists p (y ∷ ys) = ground (arith, find_first-exists p ys)

  pub find_first-absent :
      (p : A → Bool) (xs : List A) → exists p xs ≡ false → find_first p xs ≡ none
  unfolding find_first exists
  find_first-absent p [] e = refl
  find_first-absent p (y ∷ ys) e = ground (arith, find_first-absent p ys)

  -- Where no row meets a test, none meets a stronger one.
  pub exists_narrow :
      (p q : A → Bool) (xs : List A) → exists p xs ≡ false → exists (λ x. p x && q x) xs ≡ false
  unfolding exists
  exists_narrow p q [] e = refl
  exists_narrow p q (y ∷ ys) e = ground (arith, exists_narrow p q ys)

  pub exists_mono :
      (p q : A → Bool) (xs : List A)
      → ((x : A) → p x ≡ true → q x ≡ true)
      → exists p xs ≡ true
      → exists q xs ≡ true
  unfolding exists
  exists_mono p q [] h e = cc
  exists_mono p q (x ∷ xs) h e = ground (arith, h x, exists_mono p q xs h)

  pub exists-find_first :
      (p q : A → Bool) (xs : List A) {x : A}
      → ((x : A) → p x ≡ true → q x ≡ true)
      → find_first p xs ≡ some x
      → exists q xs ≡ true
  exists-find_first p q xs h e = exists_mono p q xs h (rw (← find_first-exists p xs, e) refl)

module _ {A : Type 0} (P : A → Type 0) where
  pub find_first-All :
      (p : A → Bool) (xs : List A) {x : A} → All P xs → find_first p xs ≡ some x → P x
  unfolding find_first
  find_first-All p [] h e = cc
  find_first-All p (y ∷ ys) h e = elim (Bool-cases (p y)) [
    | inl t ↦ subst P (cc) h.0
    | inr f ↦ find_first-All p ys h.1 (cc)
  ]

module _ {A : Type 0} (P Q : A → Type 0) where
  -- An update changes each row by itself.
  pub All-update_many :
      (p : A → Bool) (f : A → A) (xs : List A)
      → ((x : A) → P x → Q (if p x then f x else x))
      → All P xs
      → All Q (update_many p f xs)
  unfolding update_many
  All-update_many p f [] k h = tt
  All-update_many p f (x ∷ xs) k h = (k x h.0, All-update_many p f xs k h.1)

  pub All-delete_many :
      (p : A → Bool) (xs : List A)
      → ((x : A) → P x → p x ≡ false → Q x)
      → All P xs
      → All Q (delete_many p xs)
  unfolding delete_many
  All-delete_many p [] k h = tt
  All-delete_many p (x ∷ xs) k h = elim (Bool-cases (p x)) [
    | inl t ↦ rw t (All-delete_many p xs k h.1)
    | inr f ↦ rw f (k x h.0 f, All-delete_many p xs k h.1)
  ]

  -- The rows that a query returns are rows of the table that meet its test.
  pub All-find_many :
      (p : A → Bool) (xs : List A)
      → ((x : A) → P x → p x ≡ true → Q x)
      → All P xs
      → All Q (find_many p xs)
  unfolding find_many
  All-find_many p [] k h = tt
  All-find_many p (x ∷ xs) k h = elim (Bool-cases (p x)) [
    | inl t ↦ rw t (k x h.0 t, All-find_many p xs k h.1)
    | inr f ↦ rw f (All-find_many p xs k h.1)
  ]

-- The rows are related to what an update makes of them, one by one.
module _ {A : Type 0} (R : A → A → Type 0) where
  pub Forall₂-update_many :
      (p : A → Bool) (f : A → A) (xs : List A)
      → ((x : A) → R x (if p x then f x else x))
      → Forall₂ R xs (update_many p f xs)
  unfolding update_many
  Forall₂-update_many p f [] k = tt
  Forall₂-update_many p f (x ∷ xs) k = (k x, Forall₂-update_many p f xs k)

module _ {A : Type 0} where
  -- A column that an update leaves alone keeps its values.
  pub map-update_many :
      {B : Type 0} (g : A → B) (p : A → Bool) (f : A → A) (xs : List A)
      → ((x : A) → g (f x) ≡ g x)
      → map g (update_many p f xs) ≡ map g xs
  unfolding update_many
  map-update_many g p f [] k = refl
  map-update_many g p f (x ∷ xs) k = elim (Bool-cases (p x)) [
    | inl t ↦ rw (t, k x, map-update_many g p f xs k) refl
    | inr u ↦ rw (u, map-update_many g p f xs k) refl
  ]

  pub exists-update_many :
      (q p : A → Bool) (f : A → A) (xs : List A)
      → ((x : A) → q (f x) ≡ q x)
      → exists q (update_many p f xs) ≡ exists q xs
  unfolding exists update_many
  exists-update_many q p f [] k = refl
  exists-update_many q p f (x ∷ xs) k = ground (arith, k x, exists-update_many q p f xs k)

  pub find_first-update_many :
      (q p : A → Bool) (f : A → A) (xs : List A)
      → ((x : A) → q (f x) ≡ q x)
      → find_first q (update_many p f xs)
        ≡ Option.map (λ x. if p x then f x else x) (find_first q xs)
  unfolding find_first update_many
  find_first-update_many q p f [] k = refl
  find_first-update_many q p f (x ∷ xs) k = ground (arith, k x, find_first-update_many q p f xs k)

  pub exists-create :
      (q : A → Bool) (x : A) (xs : List A) → exists q (create x xs) ≡ (exists q xs || q x)
  unfolding exists
  exists-create q x [] = ground arith
  exists-create q x (y ∷ ys) = ground (arith, exists-create q x ys)

  pub exists-created :
      (q : A → Bool) (x : A) (xs : List A) → q x ≡ true → exists q (create x xs) ≡ true
  exists-created q x xs t = rw (exists-create q x xs) (ground (arith, t))

  pub find_first-create :
      (q : A → Bool) (x : A) (xs : List A)
      → find_first q (create x xs)
        ≡ elim (find_first q xs) [ some y ↦ some y | none ↦ if q x then some x else none ]
  unfolding find_first
  find_first-create q x [] = ground arith
  find_first-create q x (y ∷ ys) = ground (arith, find_first-create q x ys)

-- `includes` over a column is `exists` over the rows.
pub includes-map :
    {A : Type 0} (g : A → ℕ) (xs : List A) (id : ℕ)
    → includes (map g xs) id ≡ exists (λ x. g x == id) xs
unfolding exists
includes-map g [] id = refl
includes-map g (x ∷ xs) id = rw (includes-map g xs id)

module _ {A : Type 0} where
  pub All_of_not_exists :
      (p : A → Bool) (xs : List A) → exists p xs ≡ false → All (λ x. p x ≡ false) xs
  unfolding exists
  All_of_not_exists p [] e = tt
  All_of_not_exists p (x ∷ xs) e = (ground arith, All_of_not_exists p xs (ground arith))

  -- A row that is found is there under its own id.
  pub find_first-exists_id :
      (key : A → ℕ) (p : A → Bool) (xs : List A) {x : A}
      → find_first p xs ≡ some x
      → exists (λ y. key y == key x) xs ≡ true
  unfolding find_first exists
  find_first-exists_id key p [] e = cc
  find_first-exists_id key p (y ∷ ys) {x} e = elim (Bool-cases (p y)) [
    | inl t ↦ let same : y ≡ x = ground arith in rw (same, ==_self (key x)) refl
    | inr f ↦ ground (arith, find_first-exists_id key p ys {x = x} (ground arith))
  ]

-- An update that each row's past allows
module _ {A : Type 0} (R : A → A → Type 0) (p : A → Bool) (f : A → A)
    (step : (x y : A) → R x y → p y ≡ true → R x (f y)) where
  stepped : (x y : A) → R x y → R x (if p y then f y else y)
  stepped x y r = elim (Bool-cases (p y)) [ inl t ↦ rw t (step x y r t) | inr n ↦ rw n r ]

  pub Extends-update_many : (xs ys : List A) → Extends R xs ys → Extends R xs (update_many p f ys)
  unfolding update_many
  Extends-update_many [] ys e = tt
  Extends-update_many (x ∷ xs) [] e = absurd e
  Extends-update_many (x ∷ xs) (y ∷ ys) e = (stepped x y e.0, Extends-update_many xs ys e.1)
