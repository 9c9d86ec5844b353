-- ===== src/Auth/Reset.antt =====
-- src/modules/auth/auth.service.ts: what a password reset leaves.
use deptoflex_back.Auth.Service.{
  LogIn, ResetPassword, find_token, find_user, is_void, login, open_session, reset_password,
  update_user, use_token,
}
use deptoflex_back.Auth.Tokens.{Meta, Security, create_session, revoke, revoke_all_user_sessions}
use deptoflex_back.Prelude.{
  ==_self, All, String, arith, exists, false, is_none, is_some, refl, same_text, some, sym, true,
  update_many, ℕ, ◌&&◌, ◌==◌, ◌≡◌,
}
use deptoflex_back.Prelude.Table.Laws.{
  exists-update_many, find_first-exists_id, find_first-update_many,
}
use deptoflex_back.Store.{
  Db, Env, Session, TokenType, User, VerificationToken, bad_request, err, is_ok, ok, ◌>>=◌,
}
use deptoflex_back.Prelude.Table.Answers.{update_many-All}

module _ (env : Env) (sec : Security) (dto : ResetPassword) (t : VerificationToken) where
  abbrev use_up : VerificationToken → VerificationToken
  use_up o = record o { used_at = some env.now }

  abbrev new_password : User → User
  new_password u = record u { password_hash = sec.argon2_hash dto.password }

  -- The database after a reset
  abbrev after_reset : Db → Db
  after_reset s = record s {
    verification_tokens = update_many (λ o. o.id == t.id) use_up s.verification_tokens;
    users = update_many (λ u. u.id == t.user_id) new_password s.users;
    sessions =
        update_many (λ x. x.user_id == t.user_id && is_none x.revoked_at) (revoke env) s.sessions;
  }

  reset_password-done :
      (s : Db)
      → find_token dto.token s ≡ some t
      → is_void env TokenType.password_reset t ≡ false
      → exists (λ u. u.id == t.user_id) s.users ≡ true
      → reset_password env sec dto s ≡ (ok tt, after_reset s)
  unfolding reset_password use_token update_user find_token revoke_all_user_sessions ◌>>=◌
  reset_password-done s e v u =
      rw
        (
          e,
          v,
          find_first-exists_id (λ o. o.id) (λ o. o.token == dto.token) s.verification_tokens e,
          u,
        )
        refl

  -- The token that was used is found again, used.
  find_token-after_reset :
      (s : Db)
      → find_token dto.token s ≡ some t
      → find_token dto.token (after_reset s) ≡ some (use_up t)
  unfolding find_token
  find_token-after_reset s e =
      rw
        (
          find_first-update_many (λ o. o.token == dto.token) (λ o. o.id == t.id) use_up
              s.verification_tokens (λ o. refl),
          e,
          ==_self t.id,
        )
        refl

  find_user-after_reset :
      (s : Db) (u : User)
      → find_user u.email s ≡ some u
      → u.id ≡ t.user_id
      → find_user u.email (after_reset s) ≡ some (new_password u)
  unfolding find_user
  find_user-after_reset s u e i =
      rw
        (
          find_first-update_many (λ v. same_text v.email u.email && is_none v.deleted_at)
              (λ v. v.id == t.user_id) new_password s.users (λ v. refl),
          e,
          i,
          ==_self t.user_id,
        )
        refl

  used_is_void : (env' : Env) → is_void env' TokenType.password_reset (use_up t) ≡ true
  unfolding is_void
  used_is_void env' = ground arith

  again-refused :
      (env' : Env) (sec' : Security) (password : String) (s : Db)
      → find_token dto.token s ≡ some t
      → (reset_password env' sec'
          (record { token = dto.token; password = password })
          (after_reset s)).0
        ≡ err bad_request
  unfolding reset_password ◌>>=◌
  again-refused env' sec' password s e = rw (find_token-after_reset s e, used_is_void env') refl

pub login-ok :
    (env : Env) (sec : Security) (dto : LogIn) (agent : Meta) (s : Db) (u : User)
    → find_user dto.email s ≡ some u
    → sec.argon2_verify u.password_hash dto.password ≡ true
    → u.email_verified ≡ true
    → u.is_active ≡ true
    → exists (λ x. x.refresh_token == sec.sha256 sec.random_token) s.sessions ≡ false
    → is_ok (login env sec dto agent s).0 ≡ true
unfolding login open_session create_session find_user ◌>>=◌
login-ok env sec dto agent s u e p v a f = rw (e, p, v, a, f) refl

owner_exists :
    (s : Db) (email : String) (id : ℕ) (u : User)
    → find_user email s ≡ some u
    → u.id ≡ id
    → exists (λ v. v.id == id) s.users ≡ true
unfolding find_user
owner_exists s email id u f i = rw (sym i) (find_first-exists_id (λ v. v.id) _ s.users f)

-- A password reset with a token that is unused, not expired and of a user who is verified and active
-- succeeds; then the same token is refused with `bad_request`, every session of the user is revoked,
-- and the user logs in with the new password, given that its hash verifies it and that the login
-- draws a refresh token whose hash is not in use.
pub reset_password-recovers :
    (env env' : Env) (sec sec' : Security) (dto : ResetPassword) (password : String) (agent : Meta)
    (s : Db) (t : VerificationToken) (u : User)
    → find_token dto.token s ≡ some t
    → is_void env TokenType.password_reset t ≡ false
    → find_user u.email s ≡ some u
    → u.id ≡ t.user_id
    → u.email_verified ≡ true
    → u.is_active ≡ true
    → sec'.argon2_verify (sec.argon2_hash dto.password) dto.password ≡ true
    → exists (λ x. x.refresh_token == sec'.sha256 sec'.random_token) s.sessions ≡ false
    → let r = reset_password env sec dto s in
      (r.0 ≡ ok tt)
      × ((reset_password env' sec' (record { token = dto.token; password = password }) r.1).0
          ≡ err bad_request)
      × All (λ (x : Session). (x.user_id == u.id) ≡ true → is_some x.revoked_at ≡ true) r.1.sessions
      × (is_ok (login env' sec' (record { email = u.email; password = dto.password }) agent r.1).0
          ≡ true)
reset_password-recovers env env' sec sec' dto password agent s t u e v f i w a h n =
    rw (reset_password-done env sec dto t s e v (owner_exists s u.email t.user_id u f i)) (
      refl,
      again-refused env sec dto t env' sec' password s e,
      update_many-All (λ x. (x.user_id == u.id) ≡ true → is_some x.revoked_at ≡ true)
          (λ x. x.user_id == t.user_id && is_none x.revoked_at) (revoke env)
          (λ x. ground (arith, i)) s.sessions,
      login-ok env' sec' (record { email = u.email; password = dto.password }) agent _
          (new_password env sec dto t u) (find_user-after_reset env sec dto t s u f i) h w a
          (rw
            (exists-update_many (λ x. x.refresh_token == sec'.sha256 sec'.random_token)
              (λ x. x.user_id == t.user_id && is_none x.revoked_at) (revoke env) s.sessions
              (λ x. refl))
            n),
    )
