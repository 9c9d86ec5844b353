-- ===== src/Auth/Enrolment.antt =====
-- src/modules/auth/auth.service.ts: from a registration to the first login.
use deptoflex_back.Access.{
  grant_ambassador_role, join_company, link_agency_team_member_on_register, link_member,
}
use deptoflex_back.Auth.Service.{
  Register, add_user, create_verification_token, find_token, find_user, is_void, login, new_token,
  new_user, register_user, update_user, use_token, verify_email,
}
use deptoflex_back.Auth.Tokens.{Meta, Security}
use deptoflex_back.Prelude.{
  ==_self, Option, String, arith, create, exists, false, is_none, map, none, refl, same_text,
  same_text_self, some, true, update_many, ℕ, ◌&&◌, ◌+◌, ◌==?◌, ◌==◌, ◌≡◌, ◌≤◌,
}
use deptoflex_back.Store.{
  Action, AgencyTeamMember, Db, Env, Message, ProfessionalProfile, TokenType, User,
  VerificationToken, is_ok, ok, ◌>>=◌,
}
use deptoflex_back.Prelude.Table.Laws.{
  exists-created, exists_narrow, find_first-absent, find_first-create, find_first-exists_id,
  find_first-update_many,
}
use deptoflex_back.Store.Hoare.{continue-ok}
use deptoflex_back.Auth.Reset.{login-ok}

-- What linking an account to its team leaves alone.
abbrev KeepsAccounts : {A : Type 0} → Action A → Type 0
KeepsAccounts m =
    (s : Db)
    → ((m s).1.users ≡ s.users)
      × ((m s).1.verification_tokens ≡ s.verification_tokens)
      × ((m s).1.sessions ≡ s.sessions)

join_company-keeps :
    (id : ℕ) (company : Option ℕ) (p : Option ProfessionalProfile) (s : Db)
    → ((join_company id company p s).users ≡ s.users)
      × ((join_company id company p s).verification_tokens ≡ s.verification_tokens)
      × ((join_company id company p s).sessions ≡ s.sessions)
unfolding join_company
join_company-keeps id none p s = (refl, refl, refl)
join_company-keeps id (some c) none s = (refl, refl, refl)
join_company-keeps id (some c) (some p) s = (ground arith, ground arith, ground arith)

link_member-KeepsAccounts :
    (id : ℕ) (o : Option AgencyTeamMember) → KeepsAccounts (link_member id o)
unfolding link_member grant_ambassador_role ◌>>=◌
link_member-KeepsAccounts id none s = (refl, refl, refl)
link_member-KeepsAccounts id (some m) s = (
  grind (arith, join_company-keeps),
  grind (arith, join_company-keeps),
  grind (arith, join_company-keeps),
)

-- A user who is in no team can be linked.
link_member-ok :
    (id : ℕ) (o : Option AgencyTeamMember) (s : Db)
    → exists (λ m. m.user_id ==? id) s.team_members ≡ false
    → (link_member id o s).0 ≡ ok tt
unfolding link_member ◌>>=◌
link_member-ok id none s f = refl
link_member-ok id (some m) s f = rw f (ground arith)

link-KeepsAccounts :
    (id : ℕ) (email : String) → KeepsAccounts (link_agency_team_member_on_register id email)
unfolding link_agency_team_member_on_register ◌>>=◌
link-KeepsAccounts id email s = link_member-KeepsAccounts id _ s

link-ok :
    (id : ℕ) (email : String) (s : Db)
    → exists (λ m. m.user_id ==? id) s.team_members ≡ false
    → (link_agency_team_member_on_register id email s).0 ≡ ok tt
unfolding link_agency_team_member_on_register ◌>>=◌
link-ok id email s f = link_member-ok id _ s f

module _ (env : Env) (sec : Security) (dto : Register) (s : Db) where
  abbrev user : User
  user = new_user env sec dto s.users

  abbrev mailed : VerificationToken
  mailed = new_token env sec user.id TokenType.email_verification 86400 (add_user env user s)

  -- The database when `register` links the account
  abbrev before_link : Db
  before_link = record (add_user env user s) {
    verification_tokens = create mailed s.verification_tokens;
    outbox = create (Message.verification_mail dto.email sec.random_token) s.outbox;
  }

  abbrev linking : Action (Unit {0})
  linking = link_agency_team_member_on_register user.id dto.email

  register_user-done :
      exists (λ u. same_text u.email dto.email) s.users ≡ false
      → exists (λ t. t.token == sec.random_token) s.verification_tokens ≡ false
      → exists (λ m. m.user_id ==? user.id) s.team_members ≡ false
      → register_user env sec dto s ≡ (ok user.id, (linking before_link).1)
  unfolding register_user new_user add_user new_token create_verification_token ◌>>=◌
  register_user-done e t m =
      rw (e, t) (continue-ok (linking before_link) tt _ (link-ok user.id dto.email before_link m))

  -- The mailed token is found, and the account is the one of the address.
  find_token-mailed :
      exists (λ t. t.token == sec.random_token) s.verification_tokens ≡ false
      → find_token sec.random_token (linking before_link).1 ≡ some mailed
  unfolding find_token new_token
  find_token-mailed t =
      rw
        (
          (link-KeepsAccounts user.id dto.email before_link).1,
          find_first-create (λ o. o.token == sec.random_token) mailed s.verification_tokens,
          find_first-absent (λ o. o.token == sec.random_token) s.verification_tokens t,
          ==_self sec.random_token,
        )
        refl

  abbrev verified : Env → User
  verified at = record user { email_verified = true; email_verified_at = some at.now }

  abbrev mark_verified : Env → User → User
  mark_verified at u = record u { email_verified = true; email_verified_at = some at.now }

  is_void-mailed :
      (at : Env)
      → at.now ≤ env.now + 86400000
      → is_void at TokenType.email_verification mailed ≡ false
  unfolding is_void new_token
  is_void-mailed at l = ground (arith, l)

  abbrev after_verify : Env → Db → Db
  after_verify at t = record t {
    verification_tokens =
        update_many (λ o. o.id == mailed.id) (λ o. record o { used_at = some at.now })
          t.verification_tokens;
    users = update_many (λ u. u.id == user.id) (mark_verified at) t.users;
  }

  verify_email-done :
      (at : Env) (t : Db)
      → find_token sec.random_token t ≡ some mailed
      → exists (λ u. u.id == user.id) t.users ≡ true
      → at.now ≤ env.now + 86400000
      → verify_email at (some sec.random_token) t ≡ (ok tt, after_verify at t)
  unfolding verify_email new_token use_token update_user find_token ◌>>=◌
  verify_email-done at t e u l =
      rw
        (
          e,
          is_void-mailed at l,
          find_first-exists_id (λ o. o.id) (λ o. o.token == sec.random_token) t.verification_tokens
              e,
          u,
        )
        refl

  find_user-verified :
      (at : Env) (t : Db)
      → exists (λ u. same_text u.email dto.email) s.users ≡ false
      → t.users ≡ create user s.users
      → find_user dto.email (after_verify at t) ≡ some (mark_verified at user)
  unfolding find_user new_user
  find_user-verified at t f e =
      rw
        (
          e,
          find_first-update_many (λ u. same_text u.email dto.email && is_none u.deleted_at)
              (λ u. u.id == user.id) (mark_verified at) (create user s.users) (λ u. refl),
          find_first-create (λ u. same_text u.email dto.email && is_none u.deleted_at) user s.users,
          find_first-absent (λ u. same_text u.email dto.email && is_none u.deleted_at) s.users
              (exists_narrow (λ u. same_text u.email dto.email) (λ u. is_none u.deleted_at) s.users
                f),
          same_text_self dto.email,
          ==_self (env.fresh (map (λ u. u.id) s.users)),
        )
        refl

-- An address that no account has is registered, given that the drawn token is in use by no other row
-- and that the new id is of no team member. The link mailed to it verifies the account within a day,
-- and then the account logs in with its password, given that the password's hash verifies it and
-- that the login draws a refresh token whose hash is not in use.
pub register_user-logs_in :
    (env at env' : Env) (sec sec' : Security) (dto : Register) (agent : Meta) (s : Db)
    → exists (λ u. same_text u.email dto.email) s.users ≡ false
    → exists (λ t. t.token == sec.random_token) s.verification_tokens ≡ false
    → exists (λ m. m.user_id ==? env.fresh (map (λ u. u.id) s.users)) s.team_members ≡ false
    → at.now ≤ env.now + 86400000
    → sec'.argon2_verify (sec.argon2_hash dto.password) dto.password ≡ true
    → exists (λ x. x.refresh_token == sec'.sha256 sec'.random_token) s.sessions ≡ false
    → let r = register_user env sec dto s in
      let v = verify_email at (some sec.random_token) r.1 in
      (is_ok r.0 ≡ true)
      × (v.0 ≡ ok tt)
      × (is_ok (login env' sec' (record { email = dto.email; password = dto.password }) agent v.1).0
          ≡ true)
unfolding new_user add_user
register_user-logs_in env at env' sec sec' dto agent s e t m l h n =
    let t' = (linking env sec dto s (before_link env sec dto s)).1 in
    let keeps = link-KeepsAccounts (user env sec dto s).id dto.email (before_link env sec dto s) in
    rw
      (
        register_user-done env sec dto s e t m,
        verify_email-done env sec dto s at t' (find_token-mailed env sec dto s t)
            (rw keeps.0 (
              exists-created (λ u. u.id == (user env sec dto s).id) (user env sec dto s) s.users
                (==_self (user env sec dto s).id)))
            l,
      )
      (
        refl,
        refl,
        login-ok env' sec' (record { email = dto.email; password = dto.password }) agent
            (after_verify env sec dto s at t') (mark_verified env sec dto s at (user env sec dto s))
            (find_user-verified env sec dto s at t' e keeps.0) h refl refl (rw keeps.2 n),
      )
