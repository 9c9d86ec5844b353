-- ===== src/Prelude/Table.antt =====
-- Tables as lists of rows, and the queries of the Prisma client that the services make: a `where`
-- is a test on rows, a `data` a change of a row. The order of the list is the order in which the
-- database returns the rows, so a fact about every table covers every such order.
pub mod Laws
pub mod Answers
use mathlib.Core.Bool.{Bool, false, ◌||◌}
use mathlib.Core.Option.{Option, none, some}
use mathlib.Core.List.{List, [], ◌∷◌, ◌++◌}
use deptoflex_back.Prelude.Tests.{if◌then◌else◌}

module _ {A : Type 0} where
  -- `findFirst({ where })`, `findUnique({ where })`
  unfoldable pub find_first : (A → Bool) → List A → Option A
  find_first p [] = none
  find_first p (x ∷ xs) = if p x then some x else find_first p xs

  -- `findMany({ where })`
  unfoldable pub find_many : (A → Bool) → List A → List A
  find_many p [] = []
  find_many p (x ∷ xs) = let rest = find_many p xs in if p x then x ∷ rest else rest

  -- `updateMany({ where, data })`
  unfoldable pub update_many : (A → Bool) → (A → A) → List A → List A
  update_many p f [] = []
  update_many p f (x ∷ xs) = (if p x then f x else x) ∷ update_many p f xs

  -- `deleteMany({ where })`
  unfoldable pub delete_many : (A → Bool) → List A → List A
  delete_many p [] = []
  delete_many p (x ∷ xs) = let rest = delete_many p xs in if p x then rest else x ∷ rest

  -- `create({ data })`: the new row is the last one.
  abbrev pub create : A → List A → List A
  create x xs = xs ++ (x ∷ [])

  -- Some row meets the test.
  unfoldable pub exists : (A → Bool) → List A → Bool
  exists p [] = false
  exists p (x ∷ xs) = p x || exists p xs
