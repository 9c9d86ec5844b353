-- ===== src/Auth/Service.antt =====
-- src/modules/auth/auth.service.ts.
use deptoflex_back.Access.{link_agency_team_member_on_register}
use deptoflex_back.Auth.Tokens.{
  GooglePayload, IssuedToken, Meta, Security, create_session, generate_access_token,
  revoke_all_user_sessions, revoke_session, rotate_refresh_token,
}
use deptoflex_back.Prelude.{
  Bool, List, Option, String, create, delete_many, exists, false, find_first, find_many,
  if◌then◌else◌, is_none, is_some, ltb, map, none, not, same_text, some, true, update_many, ℕ, ◌&&◌,
  ◌*◌, ◌+◌, ◌===◌, ◌==◌, ◌otherwise◌, ◌||◌,
}
use deptoflex_back.Store.{
  Action, Db, Env, Message, ProfessionalProfile, ProfessionalStatus, Role, TokenType, User,
  VerificationToken, bad_request, conflict, database, err, forbidden, gets, modify, ok, or_throw,
  professional_status_enum, pure, send, throw_if, token_type_enum, transaction, unauthorized, when,
  ◌>>=◌, ◌>>◌,
}

pub record Register : Type 0 where
  pub email : String
  pub password : String
  pub first_name : String
  pub last_name : String
  pub phone : Option String

pub record LogIn : Type 0 where
  pub email : String
  pub password : String

pub record ResetPassword : Type 0 where
  pub token : ℕ
  pub password : String

-- What `login`, `googleLogin` and `refresh` answer with.
pub record Access : Type 0 where
  pub access_token : ℕ
  pub issued : IssuedToken

unfoldable pub new_token : Env → Security → ℕ → TokenType → ℕ → Db → VerificationToken
new_token env sec user_id type ttl_seconds s = record {
  id = env.fresh (map (λ t. t.id) s.verification_tokens);
  user_id = user_id;
  token = sec.random_token;
  token_type = type;
  expires_at = env.now + ttl_seconds * 1000;
  used_at = none;
}

-- `createVerificationToken`: the column `token` is unique.
unfoldable pub create_verification_token : Env → Security → ℕ → TokenType → ℕ → Action ℕ
unfolding new_token
create_verification_token env sec user_id type ttl_seconds = do
  throw_if (← gets (λ s. exists (λ t. t.token == sec.random_token) s.verification_tokens)) database
  modify λ s. record s {
    verification_tokens =
        create (new_token env sec user_id type ttl_seconds s) s.verification_tokens;
  }
  pure sec.random_token

unfoldable pub new_user : Env → Security → Register → List User → User
new_user env sec dto rows = record {
  id = env.fresh (map (λ u. u.id) rows);
  email = dto.email;
  password_hash = sec.argon2_hash dto.password;
  first_name = some dto.first_name;
  last_name = some dto.last_name;
  phone = dto.phone;
  email_verified = false;
  email_verified_at = none;
  terms_accepted_at = some env.now;
  is_active = true;
  deleted_at = none;
}

unfoldable pub new_profile : Env → ℕ → List ProfessionalProfile → ProfessionalProfile
new_profile env user_id rows = record {
  id = env.fresh (map (λ p. p.id) rows);
  user_id = user_id;
  is_company = false;
  is_verified = false;
  status = ProfessionalStatus.pending;
  default_commission_rate = 0;
  verified_at = none;
  ambassador_requested_at = none;
}

-- `user.create` with its nested rows: the role USER and an empty profile
unfoldable pub add_user : Env → User → Db → Db
unfolding new_profile
add_user env u s = record s {
  users = create u s.users;
  user_roles = create (record { user_id = u.id; role = Role.client }) s.user_roles;
  profiles = create (new_profile env u.id s.profiles) s.profiles;
}

-- `register`
unfoldable pub register_user : Env → Security → Register → Action ℕ
unfolding new_user add_user create_verification_token
register_user env sec dto = do
  throw_if (← gets (λ s. exists (λ u. same_text u.email dto.email) s.users)) conflict
  user ← gets (λ s. new_user env sec dto s.users)
  modify (add_user env user)
  token ← create_verification_token env sec user.id TokenType.email_verification 86400
  send (Message.verification_mail user.email token)
  link_agency_team_member_on_register user.id user.email
  pure user.id

-- A user that is not deleted, by the address.
unfoldable pub find_user : String → Db → Option User
find_user email s = find_first (λ u. same_text u.email email && is_none u.deleted_at) s.users

unfoldable pub live_user : ℕ → Db → Option User
live_user id s = find_first (λ u. u.id == id && is_none u.deleted_at) s.users

unfoldable pub roles_of : ℕ → Db → List Role
roles_of user_id s = map (λ r. r.role) (find_many (λ r. r.user_id == user_id) s.user_roles)

-- The end of `login` and of `googleLogin`
unfoldable pub open_session : Env → Security → User → Meta → Action Access
unfolding roles_of generate_access_token create_session
open_session env sec user agent = do
  throw_if (not user.is_active) forbidden
  roles ← gets (roles_of user.id)
  issued ← create_session env sec user.id agent
  pure (record {
    access_token = generate_access_token sec user.id user.email roles;
    issued = issued;
  })

-- `login`
unfoldable pub login : Env → Security → LogIn → Meta → Action Access
unfolding find_user open_session
login env sec dto agent = do
  user ← gets (find_user dto.email)
  user ← or_throw user unauthorized
  throw_if (not (sec.argon2_verify user.password_hash dto.password)) unauthorized
  throw_if (not user.email_verified) forbidden
  open_session env sec user agent

unfoldable pub google_user : Env → Security → String → GooglePayload → List User → User
google_user env sec email payload rows = record {
  id = env.fresh (map (λ u. u.id) rows);
  email = email;
  password_hash = sec.argon2_hash sec.random_password;
  first_name = some (payload.given_name otherwise "");
  last_name = some (payload.family_name otherwise "");
  phone = none;
  email_verified = true;
  email_verified_at = some env.now;
  terms_accepted_at = none;
  is_active = true;
  deleted_at = none;
}

-- The user of the address, created where there is none; the address of a deleted user is taken.
unfoldable pub find_or_add_user :
    Env → Security → String → GooglePayload → Option User → Action User
unfolding google_user add_user
find_or_add_user env sec email payload (some u) = pure u
find_or_add_user env sec email payload none = do
  throw_if (← gets (λ s. exists (λ u. same_text u.email email) s.users)) database
  user ← gets (λ s. google_user env sec email payload s.users)
  modify (add_user env user)
  pure user

-- `googleLogin`
unfoldable pub google_login : Env → Security → ℕ → Meta → Action Access
unfolding find_or_add_user find_user live_user open_session
google_login env sec token agent = do
  payload ← or_throw (sec.google_payload token) unauthorized
  email ← or_throw payload.email unauthorized
  found ← gets (find_user email)
  user ← find_or_add_user env sec email payload found
  link_agency_team_member_on_register user.id user.email
  user ← gets (live_user user.id)
  user ← or_throw user database
  open_session env sec user agent

-- `refresh`
unfoldable pub refresh : Env → Security → ℕ → Meta → Action Access
unfolding rotate_refresh_token live_user roles_of generate_access_token
refresh env sec raw_token agent = do
  rotated ← rotate_refresh_token env sec raw_token agent
  user ←
      gets (λ s. find_first (λ u. u.id == rotated.1 && is_none u.deleted_at && u.is_active) s.users)
  user ← or_throw user unauthorized
  roles ← gets (roles_of user.id)
  pure (record {
    access_token = generate_access_token sec user.id user.email roles;
    issued = rotated.0;
  })

-- `logout`
unfoldable pub logout : Env → Security → ℕ → Action (Unit {0})
unfolding revoke_session
logout env sec raw_token = revoke_session env sec raw_token

-- `record.type !== type || record.usedAt || record.expiresAt < new Date()`
unfoldable pub is_void : Env → TokenType → VerificationToken → Bool
is_void env type t = not (t.token_type === type) || is_some t.used_at || ltb t.expires_at env.now

unfoldable pub find_token : ℕ → Db → Option VerificationToken
find_token token s = find_first (λ t. t.token == token) s.verification_tokens

unfoldable pub update_user : ℕ → (User → User) → Action (Unit {0})
update_user id f s =
    if exists (λ u. u.id == id) s.users
    then (ok tt, record s { users = update_many (λ u. u.id == id) f s.users })
    else (err database, s)

-- The transaction that uses a token up and changes its user
unfoldable pub use_token : Env → VerificationToken → (User → User) → Action (Unit {0})
unfolding update_user
use_token env t f = transaction do
  throw_if (not (← gets (λ s. exists (λ o. o.id == t.id) s.verification_tokens))) database
  modify λ s. record s {
    verification_tokens =
        update_many (λ o. o.id == t.id) (λ o. record o { used_at = some env.now })
          s.verification_tokens;
  }
  update_user t.user_id f

-- `verifyEmail`
unfoldable pub verify_email : Env → Option ℕ → Action (Unit {0})
unfolding find_token is_void use_token
verify_email env token = do
  token ← or_throw token bad_request
  row ← gets (find_token token)
  row ← or_throw row bad_request
  throw_if (is_void env TokenType.email_verification row) bad_request
  use_token env row (λ u. record u { email_verified = true; email_verified_at = some env.now })

-- The new link of `resendVerification`, which takes the place of the unused ones
unfoldable pub renew_link : Env → Security → User → Action (Unit {0})
unfolding create_verification_token
renew_link env sec u = do
  modify λ s. record s {
    verification_tokens =
        delete_many
          (λ t.
            t.user_id == u.id && t.token_type === TokenType.email_verification && is_none t.used_at)
          s.verification_tokens;
  }
  token ← create_verification_token env sec u.id TokenType.email_verification 86400
  send (Message.verification_mail u.email token)

unfoldable pub resend_to : Env → Security → Option User → Action (Unit {0})
unfolding renew_link
resend_to env sec none = pure tt
resend_to env sec (some u) = when (not u.email_verified) (renew_link env sec u)

-- `resendVerification`
unfoldable pub resend_verification : Env → Security → String → Action (Unit {0})
unfolding find_user resend_to
resend_verification env sec email = do user ← gets (find_user email); resend_to env sec user

unfoldable pub send_reset : Env → Security → Option User → Action (Unit {0})
unfolding create_verification_token
send_reset env sec none = pure tt
send_reset env sec (some u) = do
  token ← create_verification_token env sec u.id TokenType.password_reset 3600
  send (Message.password_reset_mail u.email token)

-- `forgotPassword`
unfoldable pub forgot_password : Env → Security → String → Action (Unit {0})
unfolding find_user send_reset
forgot_password env sec email = do user ← gets (find_user email); send_reset env sec user

-- `resetPassword`
unfoldable pub reset_password : Env → Security → ResetPassword → Action (Unit {0})
unfolding find_token is_void use_token revoke_all_user_sessions
reset_password env sec dto = do
  row ← gets (find_token dto.token)
  row ← or_throw row bad_request
  throw_if (is_void env TokenType.password_reset row) bad_request
  use_token env row (λ u. record u { password_hash = sec.argon2_hash dto.password })
  revoke_all_user_sessions env row.user_id
