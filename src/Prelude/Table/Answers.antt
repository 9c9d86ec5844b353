-- ===== src/Prelude/Table/Answers.antt =====
-- What `findMany` answers, and which rows an update, a deletion or a creation leaves to find.
use Prim.Native.Nat.{◌+◌, ℕ}
use mathlib.Core.Path.{ap, ◌≡◌, refl}
use mathlib.Core.Logic.{inl, inr}
use mathlib.Core.Bool.{◌&&◌, Bool, true, false}
use mathlib.Core.Option.{Option, none, some}
use mathlib.Core.List.{map, List, [], ◌∷◌}
use native.Mathlib.Omega.{arith}
use deptoflex_back.Prelude.Tests.{==_iff, ==_self, Bool-cases, if◌then◌else◌, ◌==?◌, ◌==◌}
use deptoflex_back.Prelude.Lists.{All, All-mono, length}
use deptoflex_back.Prelude.Table.{create, delete_many, exists, find_first, find_many, update_many}

module _ {A : Type 0} where
  -- Every row of the answer meets the test.
  pub find_many-All : (p : A → Bool) (xs : List A) → All (λ x. p x ≡ true) (find_many p xs)
  unfolding find_many
  find_many-All p [] = tt
  find_many-All p (x ∷ xs) = elim (Bool-cases (p x)) [
    | inl t ↦ rw t (t, find_many-All p xs)
    | inr f ↦ rw f (find_many-All p xs)
  ]

  pub find_many-find_many :
      (q p : A → Bool) (xs : List A) → find_many q (find_many p xs) ≡ find_many (λ x. p x && q x) xs
  unfolding find_many
  find_many-find_many q p [] = refl
  find_many-find_many q p (x ∷ xs) = elim (Bool-cases (p x)) [
    | inl t ↦ rw t (rw (find_many-find_many q p xs))
    | inr f ↦ rw f (find_many-find_many q p xs)
  ]

  -- No row of the answer is left where no row meets the test.
  pub find_many-none :
      (p : A → Bool) (xs : List A) → All (λ x. p x ≡ false) xs → find_many p xs ≡ []
  unfolding find_many
  find_many-none p [] h = refl
  find_many-none p (x ∷ xs) h = rw (h.0, find_many-none p xs h.1)

  -- The answer has every row that meets the test, by its id.
  pub find_many-covers :
      (g : A → ℕ) (p : A → Bool) (xs : List A)
      → All (λ x. p x ≡ true → exists (λ y. g y == g x) (find_many p xs) ≡ true) xs
  unfolding find_many exists
  find_many-covers g p [] = tt
  find_many-covers g p (x ∷ xs) = (
    λ e. rw (e, ==_self (g x)),
    All-mono (λ z. p z ≡ true → exists (λ y. g y == g z) (find_many p xs) ≡ true)
        (λ z. p z ≡ true → exists (λ y. g y == g z) (find_many p (x ∷ xs)) ≡ true)
        (λ z k e. elim (Bool-cases (p x)) [
          | inl t ↦ rw t (ground (arith, k e))
          | inr f ↦ rw f (k e)
        ])
        xs (find_many-covers g p xs),
  )

  pub exists-find_many :
      (q p : A → Bool) (xs : List A) → exists q (find_many p xs) ≡ exists (λ x. p x && q x) xs
  unfolding find_many exists
  exists-find_many q p [] = refl
  exists-find_many q p (x ∷ xs) = ground (arith, exists-find_many q p xs)

module _ {A : Type 0} where
  pub find_many-empty : (p : A → Bool) (xs : List A) → find_many p xs ≡ [] → exists p xs ≡ false
  unfolding find_many exists
  find_many-empty p [] e = refl
  find_many-empty p (x ∷ xs) e = ground (arith, e, find_many-empty p xs)

  chosen :
      (P : A → Type 0) (x : A) (xs : List A) (b : Bool)
      → All P (if b then x ∷ xs else xs)
      → b ≡ true
      → P x
  chosen P x xs true h e = h.0
  chosen P x xs false h e = ground arith

  others :
      (P : A → Type 0) (x : A) (xs : List A) (b : Bool)
      → All P (if b then x ∷ xs else xs)
      → All P xs
  others P x xs true h = h.1
  others P x xs false h = h

  -- What holds of every row of the answer holds of every row that meets the test.
  pub find_many-back :
      (P : A → Type 0) (p : A → Bool) (xs : List A)
      → All P (find_many p xs)
      → All (λ x. p x ≡ true → P x) xs
  unfolding find_many
  find_many-back P p [] h = tt
  find_many-back P p (x ∷ xs) h =
      (chosen P x _ (p x) h, find_many-back P p xs (others P x _ (p x) h))

module _ {A : Type 0} where
  -- No row that is deleted is left.
  pub exists-delete_many_self : (p : A → Bool) (xs : List A) → exists p (delete_many p xs) ≡ false
  unfolding exists delete_many
  exists-delete_many_self p [] = refl
  exists-delete_many_self p (x ∷ xs) = ground (arith, exists-delete_many_self p xs)

module _ {A : Type 0} where
  -- How a new row counts in an answer.
  pub length-find_many-create :
      (p : A → Bool) (x : A) (xs : List A)
      → length (find_many p (create x xs)) ≡ length (find_many p xs) + (if p x then 1 else 0)
  unfolding find_many
  length-find_many-create p x [] = ground arith
  length-find_many-create p x (y ∷ ys) = ground (arith, length-find_many-create p x ys)

module _ {A : Type 0} (Q : A → Type 0) (p : A → Bool) (f : A → A) (done : (x : A) → Q (f x)) where
  -- The rows that are updated are as the update leaves them.
  pub update_many-done : (xs : List A) → All (λ x. p x ≡ true → Q x) (update_many p f xs)
  unfolding update_many
  update_many-done [] = tt
  update_many-done (x ∷ xs) = (updated x (p x) refl, update_many-done xs)
    where
      updated :
          (x : A) (b : Bool) → p x ≡ b → p (if b then f x else x) ≡ true → Q (if b then f x else x)
      updated x true e k = done x
      updated x false e k = ground (arith, e, k)

module _ {A : Type 0} (Q : A → Type 0) (p : A → Bool) (f : A → A) where
  pub update_many-All :
      ((x : A) → Q (if p x then f x else x)) → (xs : List A) → All Q (update_many p f xs)
  unfolding update_many
  update_many-All h [] = tt
  update_many-All h (x ∷ xs) = (h x, update_many-All h xs)

-- A row that an update finds is found again, updated.
pub find_first-update_self :
    {A : Type 0} (p : A → Bool) (f : A → A) (xs : List A)
    → ((x : A) → p (f x) ≡ p x)
    → exists p xs ≡ true
    → (a : A) × (find_first p (update_many p f xs) ≡ some (f a))
unfolding find_first update_many exists
find_first-update_self p f [] k e = ground arith
find_first-update_self p f (x ∷ xs) k e = elim (Bool-cases (p x)) [
  | inl t ↦ (x, rw t (rw (k x, t)))
  | inr n ↦
      let rest = find_first-update_self p f xs k (ground (arith, n)) in (rest.0, rw n (rw n rest.1))
]

-- A column that equals an id holds it.
pub ==?_lem : (column : Option ℕ) (id : ℕ) → (column ==? id) ≡ true → column ≡ some id
==?_lem none id e = ground arith
==?_lem (some a) id e = ap (λ (i : ℕ). some i) ((==_iff a id).0 e)

pub find_many-cong :
    {A : Type 0} (p q : A → Bool) (xs : List A)
    → ((x : A) → p x ≡ q x)
    → find_many p xs ≡ find_many q xs
unfolding find_many
find_many-cong p q [] e = refl
find_many-cong p q (x ∷ xs) e = rw (e x, find_many-cong p q xs e) refl

pub map-cong_All :
    {A B : Type 0} (f g : A → B) (xs : List A) → All (λ x. f x ≡ g x) xs → map f xs ≡ map g xs
map-cong_All f g [] e = refl
map-cong_All f g (x ∷ xs) e = rw (e.0, map-cong_All f g xs e.1) refl
