-- ===== src/Prelude/Tests.antt =====
-- Boolean tests on the native numbers and on enumerations, the conditional, and optional values.
use Prim.Native.Nat.{ℕ, ◌*◌, ◌/◌, ◌≤◌, ◌<◌, compare, Ordering}
use mathlib.Core.Path.{◌≡◌, refl}
use mathlib.Core.Logic.{◌↔◌, ◌⊎◌, inl, inr}
use mathlib.Core.Bool.{Bool, true, false}
use mathlib.Core.Option.{Option, none, some}
use native.Mathlib.Omega.{arith}

abbrev pub ltb : ℕ → ℕ → Bool
ltb a b = elim (compare a b) [ Ordering.lt ↦ true | _ ↦ false ]

abbrev pub leb : ℕ → ℕ → Bool
leb a b = elim (compare a b) [ Ordering.gt ↦ false | _ ↦ true ]

-- What a column `@db.Date` keeps of a time in milliseconds: the midnight before it (UTC). A condition
-- on such a column compares with this, too.
unfoldable pub date_of : ℕ → ℕ
date_of time = time / 86400000 * 86400000

infix 50 ◌==◌ ◌===◌ ◌==?◌
abbrev pub ◌==◌ : ℕ → ℕ → Bool
a == b = elim (compare a b) [ Ordering.eq ↦ true | _ ↦ false ]

infix 1 if◌then◌else◌
abbrev pub if◌then◌else◌ {ℓ} : {A : Type ℓ} → Bool → A → A → A
if true then x else y = x
if false then x else y = y

-- An enumeration of the schema is compared by the position of its member.
pub record Enum (A : Type 0) : Type 0 where
  pub code : A → ℕ

abbrev pub ◌===◌ : {A : Type 0} ⦃e : Enum A⦄ → A → A → Bool
◌===◌ ⦃e⦄ a b = e.code a == e.code b

-- `column === id`, for a column that may be null.
abbrev pub ◌==?◌ : Option ℕ → ℕ → Bool
none ==? b = false
some a ==? b = a == b

module _ {ℓ} {A : Type ℓ} where
  abbrev pub is_some : Option A → Bool
  is_some none = false
  is_some (some a) = true

  abbrev pub is_none : Option A → Bool
  is_none none = true
  is_none (some a) = false

  -- `value ?? other`
  infixr 30 ◌otherwise◌ ◌or_else◌
  abbrev pub ◌otherwise◌ : Option A → A → A
  none otherwise b = b
  some a otherwise b = a

  -- `value ?? other`, where the other may be null too
  abbrev pub ◌or_else◌ : Option A → Option A → Option A
  none or_else b = b
  some a or_else b = some a

  pub Option-cases : (o : Option A) → (o ≡ none) ⊎ ((a : A) × (o ≡ some a))
  Option-cases none = inl refl
  Option-cases (some a) = inr (a, refl)

pub ltb→lt : (a b : ℕ) → ltb a b ≡ true → a < b
ltb→lt a b h = ground arith

pub lt→ltb : (a b : ℕ) → a < b → ltb a b ≡ true
lt→ltb a b h = ground arith

pub leb→le : (a b : ℕ) → leb a b ≡ true → a ≤ b
leb→le a b h = ground arith

pub ==_iff : (a b : ℕ) → ((a == b) ≡ true) ↔ (a ≡ b)
==_iff a b = ground arith

pub ==_self : (a : ℕ) → (a == a) ≡ true
==_self a = ground arith

pub Bool-cases : (b : Bool) → (b ≡ true) ⊎ (b ≡ false)
Bool-cases true = inl refl
Bool-cases false = inr refl
