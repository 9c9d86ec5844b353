-- ===== src/Store/Invariant.antt =====
-- An invariant that every part of an action keeps, whether it returns or throws: the rules of Hoare
-- with one predicate in every place.
use deptoflex_back.Prelude.{Bool, Option}
use deptoflex_back.Store.Hoare.{
  Triple, Triple-bind, Triple-gets, Triple-modify, Triple-or_throw, Triple-pure, Triple-throw_if,
  Triple-transaction, Triple-weaken_error,
}
use deptoflex_back.Store.Monad.{
  Action, Db, Error, gets, modify, or_throw, pure, throw_if, transaction, ◌>>=◌,
}

module _ (I : Db → Type 0) where
  abbrev pub Keeps : {A : Type 0} → Action A → Type 0
  Keeps m = Triple I I m (λ _. I)

  module _ {A B : Type 0} where
    pub Keeps-bind :
        (m : Action A) (k : A → Action B) → Keeps m → ((a : A) → Keeps (k a)) → Keeps (m >>= k)
    Keeps-bind m k t u = Triple-bind (λ _. I) m k t u

    pub Keeps-gets :
        (g : Db → A) (k : A → Action B) → ((a : A) → Keeps (k a)) → Keeps (gets g >>= k)
    Keeps-gets g k u = Triple-bind (λ _. I) _ _ (Triple-gets g (λ _ i. i)) u

    pub Keeps-or_throw :
        (o : Option A) (e : Error) (k : A → Action B)
        → ((a : A) → Keeps (k a))
        → Keeps (or_throw o e >>= k)
    Keeps-or_throw o e k u =
        Triple-bind (λ _. I) _ _ (Triple-or_throw o e (λ _ i. i) (λ _ _ _ i. i)) u

  module _ {A : Type 0} where
    pub Keeps-throw_if :
        (c : Bool) (e : Error) (k : Unit {0} → Action A) → Keeps (k tt) → Keeps (throw_if c e >>= k)
    Keeps-throw_if c e k u =
        Triple-bind (λ _. I) _ _ (Triple-throw_if c e (λ _ i. i) (λ _ _ i. i)) (λ _. u)

    pub Keeps-modify :
        (f : Db → Db) (k : Unit {0} → Action A)
        → ((s : Db) → I s → I (f s))
        → Keeps (k tt)
        → Keeps (modify f >>= k)
    Keeps-modify f k h u = Triple-bind (λ _. I) _ _ (Triple-modify f h) (λ _. u)

    pub Keeps-pure : (a : A) → Keeps (pure a)
    Keeps-pure a = Triple-pure a (λ _ i. i)

    pub Keeps-transaction : (m : Action A) → Keeps m → Keeps (transaction m)
    Keeps-transaction m t =
        Triple-transaction m (λ _ i. i)
          (Triple-weaken_error I (λ _. Unit {0}) (λ _. I) I m (λ _ _. tt) t)
