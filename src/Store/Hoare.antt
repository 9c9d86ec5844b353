-- ===== src/Store/Hoare.antt =====
-- Triples: what an action does from every database that meets a precondition, whether it returns
-- or throws, with one rule for each way to build an action.
use deptoflex_back.Prelude.{Bool, Option, arith, false, none, refl, some, true, ◌≡◌}
use deptoflex_back.Store.Monad.{
  Action, Db, Error, Result, branch, continue, err, gets, modify, ok, or_throw, pure, roll_back,
  throw, throw_if, transaction, when, ◌>>=◌,
}

module _ {A : Type 0} where
  -- `E` holds where the action throws, `Q` of the result where it returns.
  abbrev pub Post : (Db → Type 0) → (A → Db → Type 0) → Result A × Db → Type 0
  Post E Q (ok a, s) = Q a s
  Post E Q (err e, s) = E s

  pub record Triple (E : Db → Type 0) (P : Db → Type 0) (m : Action A) (Q : A → Db → Type 0)
      : Type 0 where
    pub at : (s : Db) → P s → Post E Q (m s)

  Post-final :
      (E I : Db → Type 0) (Q : A → Db → Type 0) (r : Result A × Db)
      → ((s : Db) → E s → I s)
      → ((a : A) (s : Db) → Q a s → I s)
      → Post E Q r
      → I r.1
  Post-final E I Q (ok a, s) e q h = q a s h
  Post-final E I Q (err x, s) e q h = e s h

  -- An invariant that holds however the action ends, holds of the database that it leaves.
  pub Triple-final :
      (P I : Db → Type 0) (m : Action A) (s : Db) → Triple I P m (λ _. I) → P s → I (m s).1
  Triple-final P I m s t p = Post-final I I (λ _. I) (m s) (λ _ h. h) (λ _ _ h. h) (t.at s p)

  roll_back_rule :
      (E : Db → Type 0) (Q : A → Db → Type 0) (s : Db) (r : Result A × Db)
      → E s
      → Post (λ _. Unit {0}) Q r
      → Post E Q (roll_back s r)
  roll_back_rule E Q s (ok a, s') h q = q
  roll_back_rule E Q s (err x, s') h q = h

  Post-invariant : (I : Db → Type 0) (r : Result A × Db) → I r.1 → Post I (λ _. I) r
  Post-invariant I (ok a, s) i = i
  Post-invariant I (err e, s) i = i

  -- A fact that the action's last database inherits from its first.
  pub Triple-invariant :
      (I : Db → Type 0) (m : Action A) → ((s : Db) → I s → I (m s).1) → Triple I I m (λ _. I)
  Triple-invariant I m h = record { at = λ s i. Post-invariant I (m s) (h s i) }

module _ {A B : Type 0} where
  -- After an exception nothing more is done.
  pub continue-err :
      (r : Result A × Db) (e : Error) (f : A → Action B) → r.0 ≡ err e → continue f r ≡ (err e, r.1)
  continue-err (ok a, s) e f h = cc
  continue-err (err x, s) e f h = ground (arith, h)

  pub continue-ok :
      (r : Result A × Db) (a : A) (f : A → Action B) → r.0 ≡ ok a → continue f r ≡ f a r.1
  continue-ok (ok b, s) a f h = ground (arith, h)
  continue-ok (err x, s) a f h = cc

  -- What follows an action and only reads leaves its database.
  pub continue-reads :
      (r : Result A × Db) (f : A → Action B)
      → ((a : A) (s : Db) → (f a s).1 ≡ s)
      → (continue f r).1 ≡ r.1
  continue-reads (ok a, s) f h = h a s
  continue-reads (err x, s) f h = refl

  continue_rule :
      (E : Db → Type 0) (Q : B → Db → Type 0) (R : A → Db → Type 0) (r : Result A × Db)
      (f : A → Action B)
      → Post E R r
      → ((a : A) → Triple E (R a) (f a) Q)
      → Post E Q (continue f r)
  continue_rule E Q R (ok a, s) f h k = (k a).at s h
  continue_rule E Q R (err e, s) f h k = h

module _ {A B : Type 0} {E P : Db → Type 0} {Q : B → Db → Type 0} where
  pub Triple-bind :
      (R : A → Db → Type 0) (m : Action A) (f : A → Action B)
      → Triple E P m R
      → ((a : A) → Triple E (R a) (f a) Q)
      → Triple E P (m >>= f) Q
  unfolding ◌>>=◌
  Triple-bind R m f t k = record { at = λ s p. continue_rule E Q R (m s) f (t.at s p) k }

module _ {A : Type 0} {E P : Db → Type 0} {Q : A → Db → Type 0} where
  pub Triple-pure : (a : A) → ((s : Db) → P s → Q a s) → Triple E P (pure a) Q
  unfolding pure
  Triple-pure a h = record { at = h }

  pub Triple-gets : (f : Db → A) → ((s : Db) → P s → Q (f s) s) → Triple E P (gets f) Q
  unfolding gets
  Triple-gets f h = record { at = h }

  pub Triple-throw : (e : Error) → ((s : Db) → P s → E s) → Triple E P (throw e) Q
  unfolding throw
  Triple-throw e h = record { at = h }

  pub Triple-or_throw :
      (o : Option A) (e : Error)
      → ((s : Db) → P s → E s)
      → ((a : A) → o ≡ some a → (s : Db) → P s → Q a s)
      → Triple E P (or_throw o e) Q
  unfolding or_throw
  Triple-or_throw none e h k = record { at = h }
  Triple-or_throw (some a) e h k = record { at = k a refl }

  -- A transaction that throws leaves the database as it was.
  pub Triple-transaction :
      (m : Action A)
      → ((s : Db) → P s → E s)
      → Triple (λ _. Unit) P m Q
      → Triple E P (transaction m) Q
  unfolding transaction
  Triple-transaction m h t = record { at = λ s p. roll_back_rule E Q s (m s) (h s p) (t.at s p) }

  pub Triple-branch :
      (c : Bool) (m n : Action A)
      → (c ≡ true → Triple E P m Q)
      → (c ≡ false → Triple E P n Q)
      → Triple E P (branch c m n) Q
  unfolding branch
  Triple-branch true m n h k = record { at = (h refl).at }
  Triple-branch false m n h k = record { at = (k refl).at }

  pub Triple-weaken :
      (R : Db → Type 0) (m : Action A) → ((s : Db) → P s → R s) → Triple E R m Q → Triple E P m Q
  Triple-weaken R m h t = record { at = λ s p. t.at s (h s p) }

module _ {A : Type 0} (E E' : Db → Type 0) (Q : A → Db → Type 0) where
  Post-weaken_error : (r : Result A × Db) → ((s : Db) → E s → E' s) → Post E Q r → Post E' Q r
  Post-weaken_error (ok a, s) h q = q
  Post-weaken_error (err e, s) h q = h s q

  pub Triple-weaken_error :
      (P : Db → Type 0) (m : Action A) → ((s : Db) → E s → E' s) → Triple E P m Q → Triple E' P m Q
  Triple-weaken_error P m h t = record { at = λ s p. Post-weaken_error (m s) h (t.at s p) }

module _ {E P : Db → Type 0} {Q : Unit {0} → Db → Type 0} where
  pub Triple-throw_if :
      (c : Bool) (e : Error)
      → ((s : Db) → P s → E s)
      → (c ≡ false → (s : Db) → P s → Q tt s)
      → Triple E P (throw_if c e) Q
  unfolding throw_if
  Triple-throw_if true e h k = record { at = h }
  Triple-throw_if false e h k = record { at = k refl }

  pub Triple-modify : (f : Db → Db) → ((s : Db) → P s → Q tt (f s)) → Triple E P (modify f) Q
  unfolding modify
  Triple-modify f h = record { at = h }

  pub Triple-when :
      (c : Bool) (m : Action (Unit {0}))
      → (c ≡ true → Triple E P m Q)
      → ((s : Db) → P s → Q tt s)
      → Triple E P (when c m) Q
  unfolding when
  Triple-when true m h k = record { at = (h refl).at }
  Triple-when false m h k = record { at = k }
