-- ===== src/Auth/Tokens.antt =====
-- src/modules/auth/token.service.ts: a session per refresh token, kept by the token's hash.
use deptoflex_back.Prelude.{
  Bool, List, Option, String, create, exists, find_first, if◌then◌else◌, is_none, is_some, ltb, map,
  none, some, update_many, ℕ, ◌&&◌, ◌*◌, ◌+◌, ◌==◌, ◌||◌,
}
use deptoflex_back.Store.{
  Action, Db, Env, Role, Session, branch, database, err, gets, modify, ok, or_throw, pure, throw,
  throw_if, unauthorized, ◌>>=◌, ◌>>◌,
}

-- What a request takes from the packages `crypto`, `argon2`, `@nestjs/jwt` and
-- `google-auth-library`: the random bytes that it draws, hashes, signed tokens and the payload of a
-- Google token; and the configured life of a session in days.
pub record GooglePayload : Type 0 where
  pub email : Option String
  pub given_name : Option String
  pub family_name : Option String

pub record Security : Type 0 where
  pub random_token : ℕ
  pub random_password : String
  pub sha256 : ℕ → ℕ
  pub argon2_hash : String → ℕ
  pub argon2_verify : ℕ → String → Bool
  pub sign : ℕ → String → List Role → ℕ
  pub google_payload : ℕ → Option GooglePayload
  pub refresh_days : ℕ

pub record Meta : Type 0 where
  pub user_agent : Option String
  pub ip_address : Option String

-- What `createSession` answers.
pub record IssuedToken : Type 0 where
  pub refresh_token : ℕ
  pub expires_at : ℕ

-- `generateAccessToken`
unfoldable pub generate_access_token : Security → ℕ → String → List Role → ℕ
generate_access_token sec sub email roles = sec.sign sub email roles

abbrev pub day : ℕ
day = 86400000

unfoldable pub new_session : Env → Security → ℕ → Meta → List Session → Session
new_session env sec user_id agent rows = record {
  id = env.fresh (map (λ x. x.id) rows);
  user_id = user_id;
  refresh_token = sec.sha256 sec.random_token;
  user_agent = agent.user_agent;
  ip_address = agent.ip_address;
  expires_at = env.now + sec.refresh_days * day;
  revoked_at = none;
}

-- `createSession`: the column `refreshToken` is unique.
unfoldable pub create_session : Env → Security → ℕ → Meta → Action IssuedToken
unfolding new_session
create_session env sec user_id agent = do
  throw_if (← gets (λ s. exists (λ x. x.refresh_token == sec.sha256 sec.random_token) s.sessions))
      database
  modify
      λ s. record s { sessions = create (new_session env sec user_id agent s.sessions) s.sessions }
  pure (record { refresh_token = sec.random_token; expires_at = env.now + sec.refresh_days * day })

abbrev pub revoke : Env → Session → Session
revoke env x = record x { revoked_at = some env.now }

-- `revokeAllUserSessions`, and the same call in `rotateRefreshToken`
unfoldable pub revoke_all_user_sessions : Env → ℕ → Action (Unit {0})
revoke_all_user_sessions env user_id = modify λ s. record s {
  sessions =
      update_many (λ x. x.user_id == user_id && is_none x.revoked_at) (revoke env) s.sessions;
}

-- `revokeSession`
unfoldable pub revoke_session : Env → Security → ℕ → Action (Unit {0})
revoke_session env sec raw_token = modify λ s. record s {
  sessions =
      update_many (λ x. x.refresh_token == sec.sha256 raw_token && is_none x.revoked_at)
        (revoke env) s.sessions;
}

-- `session.revokedAt || session.expiresAt < new Date()`
unfoldable pub is_spent : Env → Session → Bool
is_spent env x = is_some x.revoked_at || ltb x.expires_at env.now

unfoldable pub update_session : ℕ → (Session → Session) → Action (Unit {0})
update_session id f s =
    if exists (λ x. x.id == id) s.sessions
    then (ok tt, record s { sessions = update_many (λ x. x.id == id) f s.sessions })
    else (err database, s)

-- What `rotateRefreshToken` does with the session that it found.
unfoldable pub rotate_session : Env → Security → Meta → Session → Action (IssuedToken × ℕ)
unfolding revoke_all_user_sessions is_spent update_session create_session
rotate_session env sec agent x =
    branch (is_spent env x) (revoke_all_user_sessions env x.user_id >> throw unauthorized) do
      update_session x.id (revoke env)
      issued ← create_session env sec x.user_id agent
      pure (issued, x.user_id)

unfoldable pub find_session : Security → ℕ → Db → Option Session
find_session sec raw_token s = find_first (λ x. x.refresh_token == sec.sha256 raw_token) s.sessions

-- `rotateRefreshToken`, with the user of the session
unfoldable pub rotate_refresh_token : Env → Security → ℕ → Meta → Action (IssuedToken × ℕ)
unfolding rotate_session find_session
rotate_refresh_token env sec raw_token agent = do
  session ← gets (find_session sec raw_token)
  session ← or_throw session unauthorized
  rotate_session env sec agent session
