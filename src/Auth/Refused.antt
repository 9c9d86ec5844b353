-- ===== src/Auth/Refused.antt =====
-- A refresh token that is spent: its session is revoked, and the methods of
-- src/modules/auth/token.service.ts keep it so.
use deptoflex_back.Prelude.{
  ==_self, Bool, Bool-cases, List, arith, create, exists, false, find_first, if◌then◌else◌, inl,
  inr, is_none, is_some, refl, some, true, update_many, ℕ, ◌&&◌, ◌==◌, ◌≡◌,
}
use deptoflex_back.Prelude.Table.Laws.{
  find_first-create, find_first-exists_id, find_first-update_many,
}
use deptoflex_back.Store.{Db, Env, Session}
use deptoflex_back.Auth.Tokens.{
  Meta, Security, create_session, revoke, revoke_all_user_sessions, revoke_session,
  rotate_refresh_token, rotate_session, update_session,
}
use deptoflex_back.Store.Hoare.{
  Triple, Triple-bind, Triple-branch, Triple-gets, Triple-modify, Triple-or_throw, Triple-pure,
  Triple-throw, Triple-throw_if,
}

-- The session found by the hash is one of the user, and it is revoked.
unfoldable pub IsRefused : ℕ → ℕ → List Session → Type 0
IsRefused h u xs =
    (y : Session) × (find_first (λ x. x.refresh_token == h) xs ≡ some y)
    × (y.user_id ≡ u)
    × (is_some y.revoked_at ≡ true)

module _ (h u : ℕ) where
  abbrev pub Refuses : Db → Type 0
  Refuses s = IsRefused h u s.sessions

  pub IsRefused-create :
      (x : Session) (xs : List Session) → IsRefused h u xs → IsRefused h u (create x xs)
  unfolding IsRefused
  IsRefused-create x xs (y, e, i, r) =
      (y, rw (find_first-create (λ x. x.refresh_token == h) x xs, e) refl, i, r)

  -- Revoking sessions, whichever they are, keeps the token refused.
  pub IsRefused-update_many :
      (env : Env) (p : Session → Bool) (xs : List Session)
      → IsRefused h u xs
      → IsRefused h u (update_many p (revoke env) xs)
  unfolding IsRefused
  IsRefused-update_many env p xs (y, e, i, r) = (
    (if p y then revoke env y else y),
    rw (find_first-update_many (λ x. x.refresh_token == h) p (revoke env) xs (λ x. refl), e) refl,
    ground (arith, i),
    ground (arith, r),
  )

  -- Revoking the sessions that a test picks, the token's among them, makes it refused.
  pub revoked-IsRefused :
      (env : Env) (p : Session → Bool) (xs : List Session) (x : Session)
      → find_first (λ y. y.refresh_token == h) xs ≡ some x
      → x.user_id ≡ u
      → (is_some x.revoked_at ≡ false → p x ≡ true)
      → IsRefused h u (update_many p (revoke env) xs)
  unfolding IsRefused
  revoked-IsRefused env p xs x e i t = (
    (if p x then revoke env x else x),
    rw (find_first-update_many (λ y. y.refresh_token == h) p (revoke env) xs (λ y. refl), e) refl,
    ground (arith, i),
    elim (Bool-cases (is_some x.revoked_at)) [
      | inl r ↦ ground (arith, r)
      | inr f ↦ ground (arith, t f)
    ],
  )

  pub create_session_rule :
      (env : Env) (sec : Security) (user : ℕ) (agent : Meta)
      → Triple Refuses Refuses (create_session env sec user agent) (λ _. Refuses)
  unfolding create_session
  create_session_rule env sec user agent =
      Triple-bind (λ _. Refuses) _ _ (Triple-gets _ (λ _ r. r))
        λ taken.
          Triple-bind (λ _. Refuses) _ _ (Triple-throw_if _ _ (λ _ r. r) (λ _ _ r. r))
            λ _.
              Triple-bind (λ _. Refuses) _ _
                (Triple-modify _ (λ s r. IsRefused-create _ s.sessions r))
                λ _. Triple-pure _ (λ _ r. r)

  pub revoke_all_rule :
      (env : Env) (user : ℕ)
      → Triple Refuses Refuses (revoke_all_user_sessions env user) (λ _. Refuses)
  unfolding revoke_all_user_sessions
  revoke_all_rule env user = Triple-modify _ (λ s r. IsRefused-update_many env _ s.sessions r)

  pub revoke_session_rule :
      (env : Env) (sec : Security) (raw : ℕ)
      → Triple Refuses Refuses (revoke_session env sec raw) (λ _. Refuses)
  unfolding revoke_session
  revoke_session_rule env sec raw =
      Triple-modify _ (λ s r. IsRefused-update_many env _ s.sessions r)

  update_session_rule :
      (env : Env) (id : ℕ) → Triple Refuses Refuses (update_session id (revoke env)) (λ _. Refuses)
  unfolding update_session
  update_session_rule env id = record {
    at = λ s r. elim (Bool-cases (exists (λ x. x.id == id) s.sessions)) [
      | inl t ↦ rw t (IsRefused-update_many env _ s.sessions r)
      | inr f ↦ rw f r
    ];
  }

  -- Revoking the session that was found under the token.
  revoke_found_rule :
      (env : Env) (x : Session)
      → x.user_id ≡ u
      → Triple Refuses
          (λ s. find_first (λ y. y.refresh_token == h) s.sessions ≡ some x)
          (update_session x.id (revoke env))
          (λ _. Refuses)
  unfolding update_session
  revoke_found_rule env x i = record {
    at = λ s e.
        rw (find_first-exists_id (λ y. y.id) (λ y. y.refresh_token == h) s.sessions e)
          (revoked-IsRefused env (λ y. y.id == x.id) s.sessions x e i (λ _. ==_self x.id));
  }

  -- A rotation leaves the token that it was given refused.
  pub rotate_session_rule :
      (env : Env) (sec : Security) (agent : Meta) (x : Session)
      → x.user_id ≡ u
      → Triple Refuses
          (λ s. find_first (λ y. y.refresh_token == h) s.sessions ≡ some x)
          (rotate_session env sec agent x)
          (λ _. Refuses)
  unfolding rotate_session revoke_all_user_sessions
  rotate_session_rule env sec agent x i =
      Triple-branch _ _ _
        (λ t.
          Triple-bind (λ _. Refuses) _ _
            (Triple-modify _ (λ s e.
              revoked-IsRefused env (λ y. y.user_id == x.user_id && is_none y.revoked_at) s.sessions
                x e i (λ n. ground (arith, n))))
            λ _. Triple-throw _ (λ _ r. r))
        λ f.
          Triple-bind (λ _. Refuses) _ _ (revoke_found_rule env x i)
            λ _.
              Triple-bind (λ _. Refuses) _ _ (create_session_rule env sec x.user_id agent)
                λ _. Triple-pure _ (λ _ r. r)

  pub rotate_rule :
      (env : Env) (sec : Security) (raw : ℕ) (agent : Meta)
      → Triple Refuses Refuses (rotate_refresh_token env sec raw agent) (λ _. Refuses)
  unfolding rotate_refresh_token rotate_session
  rotate_rule env sec raw agent =
      Triple-bind (λ _. Refuses) _ _ (Triple-gets _ (λ _ r. r))
        λ found.
          Triple-bind (λ _. Refuses) _ _ (Triple-or_throw found _ (λ _ r. r) (λ _ _ _ r. r))
            λ x.
              Triple-branch _ _ _
                (λ _.
                  Triple-bind (λ _. Refuses) _ _ (revoke_all_rule env x.user_id)
                    λ _. Triple-throw _ (λ _ r. r))
                λ _.
                  Triple-bind (λ _. Refuses) _ _ (update_session_rule env x.id)
                    λ _.
                      Triple-bind (λ _. Refuses) _ _ (create_session_rule env sec x.user_id agent)
                        λ _. Triple-pure _ (λ _ r. r)
