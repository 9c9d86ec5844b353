-- ===== src/Auth/Reuse.antt =====
-- src/modules/auth/token.service.ts: a refresh token that is used again.
use deptoflex_back.Auth.Refused.{IsRefused, Refuses, rotate_session_rule}
use deptoflex_back.Auth.Tokens.{
  Meta, Security, find_session, is_spent, revoke, revoke_all_user_sessions, rotate_refresh_token,
  rotate_session,
}
use deptoflex_back.Prelude.{All, arith, is_none, is_some, refl, some, true, ℕ, ◌&&◌, ◌==◌, ◌≡◌}
use deptoflex_back.Store.{Db, Env, Session, err, unauthorized, ◌>>=◌}
use deptoflex_back.Store.Hoare.{Triple-final, continue-err, continue-reads}
use deptoflex_back.Auth.Service.{refresh}
use deptoflex_back.Prelude.Table.Answers.{update_many-All}

module _ (env : Env) (sec : Security) (raw : ℕ) (agent : Meta) where
  pub rotate_refresh_token-IsRefused :
      (s : Db) (x : Session)
      → find_session sec raw s ≡ some x
      → IsRefused (sec.sha256 raw) x.user_id (rotate_refresh_token env sec raw agent s).1.sessions
  unfolding rotate_refresh_token find_session ◌>>=◌
  rotate_refresh_token-IsRefused s x e = rw e (
      Triple-final _ (Refuses (sec.sha256 raw) x.user_id) (rotate_session env sec agent x) s
        (rotate_session_rule (sec.sha256 raw) x.user_id env sec agent x refl) e)

  pub rotate_refresh_token-refuses :
      (u : ℕ) (s : Db)
      → IsRefused (sec.sha256 raw) u s.sessions
      → let r = rotate_refresh_token env sec raw agent s in
        (r.0 ≡ err unauthorized)
        × All (λ (y : Session). (y.user_id == u) ≡ true → is_some y.revoked_at ≡ true) r.1.sessions
  unfolding rotate_refresh_token rotate_session find_session IsRefused is_spent ◌>>=◌
      revoke_all_user_sessions
  rotate_refresh_token-refuses u s (y, e, i, r) =
      rw (e, r, i)
        (
          refl,
          update_many-All (λ x. (x.user_id == u) ≡ true → is_some x.revoked_at ≡ true)
              (λ x. x.user_id == u && is_none x.revoked_at) (revoke env) (λ x. ground arith)
              s.sessions,
        )

  refresh-reads :
      (s : Db) → (refresh env sec raw agent s).1 ≡ (rotate_refresh_token env sec raw agent s).1
  unfolding refresh ◌>>=◌
  refresh-reads s =
      continue-reads (rotate_refresh_token env sec raw agent s) _ (λ a t. ground arith)

  -- A spent token is refused, and every session of its user is revoked.
  pub refresh-refuses :
      (u : ℕ) (s : Db)
      → IsRefused (sec.sha256 raw) u s.sessions
      → let r = refresh env sec raw agent s in
        (r.0 ≡ err unauthorized)
        × All (λ (y : Session). (y.user_id == u) ≡ true → is_some y.revoked_at ≡ true) r.1.sessions
  unfolding refresh ◌>>=◌
  refresh-refuses u s h =
      let r = rotate_refresh_token-refuses u s h in
      rw (continue-err (rotate_refresh_token env sec raw agent s) unauthorized _ r.0) (refl, r.1)

  pub refresh-IsRefused :
      (s : Db) (x : Session)
      → find_session sec raw s ≡ some x
      → IsRefused (sec.sha256 raw) x.user_id (refresh env sec raw agent s).1.sessions
  refresh-IsRefused s x e = rw (refresh-reads s) (rotate_refresh_token-IsRefused s x e)

-- A refresh token that belongs to a session and is sent twice, at any two times, is refused the
-- second time with `unauthorized`, and then every session of its user is revoked; the two requests
-- give the token the same hash.
pub refresh-revokes_reuse :
    (env env' : Env) (sec sec' : Security) (raw : ℕ) (agent agent' : Meta) (s : Db) (x : Session)
    → sec'.sha256 raw ≡ sec.sha256 raw
    → find_session sec raw s ≡ some x
    → let r = refresh env' sec' raw agent' (refresh env sec raw agent s).1 in
      (r.0 ≡ err unauthorized)
      × All
          (λ (y : Session). (y.user_id == x.user_id) ≡ true → is_some y.revoked_at ≡ true)
          r.1.sessions
refresh-revokes_reuse env env' sec sec' raw agent agent' s x h e =
    refresh-refuses env' sec' raw agent' x.user_id (refresh env sec raw agent s).1
      (rw h (refresh-IsRefused env sec raw agent s x e))
