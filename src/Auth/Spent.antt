-- ===== src/Auth/Spent.antt =====
-- src/modules/auth/auth.service.ts: a spent refresh token stays spent whatever the service is asked.
use deptoflex_back.Access.{
  grant_ambassador_role, join_company, link_agency_team_member_on_register, link_member,
}
use deptoflex_back.Auth.Refused.{
  IsRefused, Refuses, create_session_rule, revoke_all_rule, revoke_session_rule, rotate_rule,
}
use deptoflex_back.Auth.Requests.{AuthRequest, run_auth, serve_auth}
use deptoflex_back.Auth.Reuse.{refresh-refuses}
use deptoflex_back.Auth.Service.{
  LogIn, Register, ResetPassword, add_user, create_verification_token, find_or_add_user,
  forgot_password, google_login, login, logout, open_session, refresh, register_user, renew_link,
  resend_to, resend_verification, reset_password, send_reset, update_user, use_token, verify_email,
}
use deptoflex_back.Auth.Tokens.{GooglePayload, Meta, Security, find_session}
use deptoflex_back.Prelude.{
  List, Option, String, [], arith, is_some, none, refl, some, true, ℕ, ◌∷◌, ◌≡◌,
}
use deptoflex_back.Store.{
  Action, AgencyTeamMember, Db, Env, ProfessionalProfile, Session, TokenType, User,
  VerificationToken, err, send, unauthorized, ◌>>=◌,
}
use deptoflex_back.Store.Hoare.{Triple-final, Triple-invariant, Triple-modify}
use deptoflex_back.Store.Invariant.{
  Keeps, Keeps-bind, Keeps-gets, Keeps-or_throw, Keeps-pure, Keeps-throw_if,
}

module _ {A : Type 0} (m : Action A) where
  abbrev SameSessions : Type 0
  SameSessions = (s : Db) → (m s).1.sessions ≡ s.sessions

join_company-sessions :
    (id : ℕ) (company : Option ℕ) (p : Option ProfessionalProfile) (s : Db)
    → (join_company id company p s).sessions ≡ s.sessions
unfolding join_company
join_company-sessions id none p s = refl
join_company-sessions id (some c) none s = refl
join_company-sessions id (some c) (some p) s = ground arith

link_member-SameSessions : (id : ℕ) (o : Option AgencyTeamMember) → SameSessions (link_member id o)
unfolding link_member grant_ambassador_role ◌>>=◌
link_member-SameSessions id none s = refl
link_member-SameSessions id (some m) s = grind (arith, join_company-sessions)

link-SameSessions :
    (id : ℕ) (email : String) → SameSessions (link_agency_team_member_on_register id email)
unfolding link_agency_team_member_on_register ◌>>=◌
link-SameSessions id email s = link_member-SameSessions id _ s

create_token-SameSessions :
    (env : Env) (sec : Security) (user : ℕ) (type : TokenType) (ttl : ℕ)
    → SameSessions (create_verification_token env sec user type ttl)
unfolding create_verification_token ◌>>=◌
create_token-SameSessions env sec user type ttl s = ground arith

use_token-SameSessions :
    (env : Env) (t : VerificationToken) (f : User → User) → SameSessions (use_token env t f)
unfolding use_token update_user ◌>>=◌
use_token-SameSessions env t f s = ground arith

module _ (h u : ℕ) where
  same_rule : {A : Type 0} (m : Action A) → SameSessions m → Keeps (Refuses h u) m
  same_rule m e = Triple-invariant (Refuses h u) m (λ s r. rw (e s) r)

  open_session_rule :
      (env : Env) (sec : Security) (user : User) (agent : Meta)
      → Keeps (Refuses h u) (open_session env sec user agent)
  unfolding open_session
  open_session_rule env sec user agent = Keeps-throw_if (Refuses h u) _ _ _ (
      Keeps-gets (Refuses h u) _ _ λ roles.
        Keeps-bind (Refuses h u) _ _ (create_session_rule h u env sec user.id agent)
          λ _. Keeps-pure (Refuses h u) _)

  login_rule :
      (env : Env) (sec : Security) (dto : LogIn) (agent : Meta)
      → Keeps (Refuses h u) (login env sec dto agent)
  unfolding login
  login_rule env sec dto agent = Keeps-gets (Refuses h u) _ _ λ found.
      Keeps-or_throw (Refuses h u) found _ _ λ user.
        Keeps-throw_if (Refuses h u) _ _ _
          (Keeps-throw_if (Refuses h u) _ _ _ (open_session_rule env sec user agent))

  find_or_add_user_rule :
      (env : Env) (sec : Security) (email : String) (payload : GooglePayload) (found : Option User)
      → Keeps (Refuses h u) (find_or_add_user env sec email payload found)
  unfolding find_or_add_user add_user ◌>>=◌
  find_or_add_user_rule env sec email payload (some user) = Keeps-pure (Refuses h u) _
  find_or_add_user_rule env sec email payload none = same_rule _ (λ s. ground arith)

  google_login_rule :
      (env : Env) (sec : Security) (token : ℕ) (agent : Meta)
      → Keeps (Refuses h u) (google_login env sec token agent)
  unfolding google_login
  google_login_rule env sec token agent = Keeps-or_throw (Refuses h u) _ _ _ λ payload.
      Keeps-or_throw (Refuses h u) _ _ _ λ email. Keeps-gets (Refuses h u) _ _ λ found.
        Keeps-bind (Refuses h u) _ _ (find_or_add_user_rule env sec email payload found) λ user.
          Keeps-bind (Refuses h u) _ _ (same_rule _ (link-SameSessions user.id user.email)) λ _.
            Keeps-gets (Refuses h u) _ _ λ again.
              Keeps-or_throw (Refuses h u) _ _ _ λ user. open_session_rule env sec user agent

  register_rule :
      (env : Env) (sec : Security) (dto : Register)
      → Keeps (Refuses h u) (register_user env sec dto)
  unfolding register_user add_user send
  register_rule env sec dto = Keeps-gets (Refuses h u) _ _ λ taken.
      Keeps-throw_if (Refuses h u) _ _ _ (
        Keeps-gets (Refuses h u) _ _ λ user.
          Keeps-bind (Refuses h u) _ _ (Triple-modify _ (λ _ r. r)) λ _.
            Keeps-bind (Refuses h u) _ _
              (same_rule _
                (create_token-SameSessions env sec user.id TokenType.email_verification 86400))
              λ token. Keeps-bind (Refuses h u) _ _ (Triple-modify _ (λ _ r. r)) λ _.
                Keeps-bind (Refuses h u) _ _ (same_rule _ (link-SameSessions user.id user.email))
                  λ _. Keeps-pure (Refuses h u) _)

  refresh_rule :
      (env : Env) (sec : Security) (raw : ℕ) (agent : Meta)
      → Keeps (Refuses h u) (refresh env sec raw agent)
  unfolding refresh
  refresh_rule env sec raw agent =
      Keeps-bind (Refuses h u) _ _ (rotate_rule h u env sec raw agent) λ rotated.
        Keeps-gets (Refuses h u) _ _ λ found.
          Keeps-or_throw (Refuses h u) found _ _
            λ user. Keeps-gets (Refuses h u) _ _ λ roles. Keeps-pure (Refuses h u) _

  reset_password_rule :
      (env : Env) (sec : Security) (dto : ResetPassword)
      → Keeps (Refuses h u) (reset_password env sec dto)
  unfolding reset_password
  reset_password_rule env sec dto = Keeps-gets (Refuses h u) _ _ λ found.
      Keeps-or_throw (Refuses h u) found _ _ λ t. Keeps-throw_if (Refuses h u) _ _ _ (
        Keeps-bind (Refuses h u) _ _ (same_rule _ (use_token-SameSessions env t _))
          λ _. revoke_all_rule h u env t.user_id)

resend-SameSessions :
    (env : Env) (sec : Security) (email : String) → SameSessions (resend_verification env sec email)
unfolding resend_verification resend_to renew_link create_verification_token ◌>>=◌
resend-SameSessions env sec email s = ground arith

forgot-SameSessions :
    (env : Env) (sec : Security) (email : String) → SameSessions (forgot_password env sec email)
unfolding forgot_password send_reset create_verification_token ◌>>=◌
forgot-SameSessions env sec email s = ground arith

verify-SameSessions : (env : Env) (token : Option ℕ) → SameSessions (verify_email env token)
unfolding verify_email use_token update_user ◌>>=◌
verify-SameSessions env token s = ground arith

serve_auth-IsRefused :
    (h u : ℕ) (env : Env) (sec : Security) (r : AuthRequest) (s : Db)
    → IsRefused h u s.sessions
    → IsRefused h u (serve_auth env sec r s).sessions
unfolding serve_auth logout
serve_auth-IsRefused h u env sec (AuthRequest.sign_up dto) s i =
    Triple-final _ (Refuses h u) _ s (register_rule h u env sec dto) i
serve_auth-IsRefused h u env sec (AuthRequest.log_in dto agent) s i =
    Triple-final _ (Refuses h u) _ s (login_rule h u env sec dto agent) i
serve_auth-IsRefused h u env sec (AuthRequest.log_in_with_google token agent) s i =
    Triple-final _ (Refuses h u) _ s (google_login_rule h u env sec token agent) i
serve_auth-IsRefused h u env sec (AuthRequest.renew raw agent) s i =
    Triple-final _ (Refuses h u) _ s (refresh_rule h u env sec raw agent) i
serve_auth-IsRefused h u env sec (AuthRequest.log_out raw) s i =
    Triple-final _ (Refuses h u) _ s (revoke_session_rule h u env sec raw) i
serve_auth-IsRefused h u env sec (AuthRequest.verify_address token) s i =
    rw (verify-SameSessions env token s) i
serve_auth-IsRefused h u env sec (AuthRequest.resend email) s i =
    rw (resend-SameSessions env sec email s) i
serve_auth-IsRefused h u env sec (AuthRequest.forgot email) s i =
    rw (forgot-SameSessions env sec email s) i
serve_auth-IsRefused h u env sec (AuthRequest.reset dto) s i =
    Triple-final _ (Refuses h u) _ s (reset_password_rule h u env sec dto) i

run_auth-IsRefused :
    (h u : ℕ) (rs : List (Env × Security × AuthRequest)) (s : Db)
    → IsRefused h u s.sessions
    → IsRefused h u (run_auth rs s).sessions
unfolding run_auth
run_auth-IsRefused h u [] s i = i
run_auth-IsRefused h u ((env, sec, r) ∷ rs) s i =
    run_auth-IsRefused h u rs (serve_auth env sec r s) (serve_auth-IsRefused h u env sec r s i)

-- A refresh token whose session is revoked is refused with `unauthorized` after any sequence of
-- registrations, logins, refreshes, logouts, verifications and password resets.
pub run_auth-refuses :
    (rs : List (Env × Security × AuthRequest)) (env : Env) (sec : Security) (raw : ℕ) (agent : Meta)
    (s : Db) (x : Session)
    → find_session sec raw s ≡ some x
    → is_some x.revoked_at ≡ true
    → (refresh env sec raw agent (run_auth rs s)).0 ≡ err unauthorized
unfolding find_session IsRefused
run_auth-refuses rs env sec raw agent s x e r =
    (refresh-refuses env sec raw agent x.user_id (run_auth rs s)
      (run_auth-IsRefused (sec.sha256 raw) x.user_id rs s (x, e, refl, r))).0
