-- ===== src/Professionals/ShutOut.antt =====
-- `deactivateTeamMember` (agency-team.service.ts) beside the accounts of src/modules/auth and the
-- ambassadors of src/common/services/ambassador-access.service.ts.
use deptoflex_back.Access.{assert_can_operate_as_ambassador, revoke_ambassador_role}
use deptoflex_back.Auth.{
  LogIn, Meta, Security, find_session, find_user, login, open_session, refresh, revoke,
  revoke_all_user_sessions,
}
use deptoflex_back.Auth.Refused.{revoked-IsRefused}
use deptoflex_back.Auth.Reuse.{refresh-refuses}
use deptoflex_back.Prelude.{
  ==_self, All, Bool-cases, ap, arith, exists, false, inl, inr, is_none, is_some, refl, same_text,
  some, sym, true, ℕ, ◌&&◌, ◌==◌, ◌≡◌,
}
use deptoflex_back.Prelude.Table.Answers.{update_many-All}
use deptoflex_back.Professionals.Team.{
  OwnerContext, close_account, deactivate, deactivate_team_member, get_agency_owner_context,
  member_of, set_user_active, shut_out, update_member,
}
use deptoflex_back.Store.{
  AgencyTeamMember, Db, Env, Result, Session, User, err, forbidden, is_ok, modify, ok, unauthorized,
  ◌>>=◌,
}
use deptoflex_back.Access.Roles.{revoke-revoked, without_role}
use deptoflex_back.Prelude.Table.Laws.{find_first-exists_id, find_first-update_many}

-- The database after a member with an account is deactivated
abbrev shut : Env → ℕ → ℕ → Db → Db
shut env member_id user s = revoke_ambassador_role user (
    (revoke_all_user_sessions env user
      (set_user_active false user (update_member member_id (deactivate env) s))).1)

deactivate-done :
    (env : Env) (owner member_id user : ℕ) (context : OwnerContext) (m : AgencyTeamMember) (s : Db)
    → get_agency_owner_context owner s ≡ (ok context, s)
    → member_of context.profile.id member_id s ≡ some m
    → m.is_active ≡ true
    → m.user_id ≡ some user
    → exists (λ u. u.id == user) s.users ≡ true
    → deactivate_team_member env owner member_id s ≡ (ok tt, shut env member_id user s)
unfolding deactivate_team_member close_account shut_out revoke_all_user_sessions
    revoke_ambassador_role ◌>>=◌
deactivate-done env owner member_id user context m s c f a l u = rw (c, f, a, l, u) refl

-- An account that is not active is refused.
login-refused :
    (env : Env) (sec : Security) (dto : LogIn) (agent : Meta) (s : Db) (x : User)
    → find_user dto.email s ≡ some x
    → x.is_active ≡ false
    → is_ok (login env sec dto agent s).0 ≡ false
unfolding login open_session ◌>>=◌
login-refused env sec dto agent s x f i =
    elim (Bool-cases (sec.argon2_verify x.password_hash dto.password)) [
      | inl t ↦ elim (Bool-cases x.email_verified) [
        | inl v ↦ rw (f, i, t, v) refl
        | inr w ↦ rw (f, i, t, w) refl
      ]
      | inr n ↦ rw (f, i, n) refl
    ]

-- The owner of an approved agency deactivates an active member who has an account: then every
-- session of the account is revoked, its logins are refused whatever the password, a refresh token
-- of it is refused with `unauthorized`, and it is refused as an ambassador.
pub deactivate_team_member-shuts_out :
    (env env' : Env) (sec : Security) (owner member_id user raw : ℕ) (agent : Meta) (dto : LogIn)
    (context : OwnerContext) (m : AgencyTeamMember) (x : User) (y : Session) (s : Db)
    → get_agency_owner_context owner s ≡ (ok context, s)
    → member_of context.profile.id member_id s ≡ some m
    → m.is_active ≡ true
    → m.user_id ≡ some user
    → find_user dto.email s ≡ some x
    → x.id ≡ user
    → find_session sec raw s ≡ some y
    → y.user_id ≡ user
    → let r = deactivate_team_member env owner member_id s in
      (r.0 ≡ ok tt)
      × All (λ (z : Session). (z.user_id == user) ≡ true → is_some z.revoked_at ≡ true) r.1.sessions
      × (is_ok (login env' sec dto agent r.1).0 ≡ false)
      × ((refresh env' sec raw agent r.1).0 ≡ err unauthorized)
      × ((assert_can_operate_as_ambassador user r.1).0 ≡ err forbidden)
unfolding find_user find_session revoke_all_user_sessions revoke_ambassador_role modify
deactivate_team_member-shuts_out env env' sec owner member_id user raw agent dto context m x y s c f
      a l e i g j =
    rw
      (deactivate-done env owner member_id user context m s c f a l
        (rw (sym i) (find_first-exists_id (λ v. v.id) _ s.users e)))
      (
        refl,
        update_many-All (λ z. (z.user_id == user) ≡ true → is_some z.revoked_at ≡ true)
            (λ z. z.user_id == user && is_none z.revoked_at) (revoke env) (λ z. ground arith)
            s.sessions,
        login-refused env' sec dto agent (shut env member_id user s)
            (record x { is_active = false })
            (rw
              (
                find_first-update_many (λ v. same_text v.email dto.email && is_none v.deleted_at)
                    (λ v. v.id == user) (λ v. record v { is_active = false }) s.users (λ v. refl),
                e,
                i,
                ==_self user,
              )
              refl)
            refl,
        (refresh-refuses env' sec raw agent user (shut env member_id user s) (
            revoked-IsRefused (sec.sha256 raw) user env
              (λ z. z.user_id == user && is_none z.revoked_at) s.sessions y g j
              (λ n. ground (arith, j, n)))).0,
        ap (λ (a : Result ℕ × Db). a.0)
            (without_role user (shut env member_id user s) (
              revoke-revoked user
                (revoke_all_user_sessions env user
                  (set_user_active false user (update_member member_id (deactivate env) s))).1)),
      )
