-- ===== src/Professionals/Team.antt =====
-- src/modules/professionals/agency-team.service.ts.
use mathlib.Core.Option
use deptoflex_back.Access.{grant_ambassador_role, has_ambassador_role, revoke_ambassador_role}
use deptoflex_back.Auth.{revoke_all_user_sessions}
use deptoflex_back.Prelude.{
  Bool, List, Option, String, create, delete_many, exists, false, find_first, is_none, is_some, map,
  none, not, same_text, some, to_lower_case, trim, true, update_many, ℕ, ◌&&◌, ◌===◌, ◌==◌,
}
use deptoflex_back.Store.{
  Action, AgencyTeamMember, CompanyProfile, Db, Env, Message, ProfessionalProfile,
  ProfessionalStatus, bad_request, conflict, database, forbidden, gets, modify, not_found, or_throw,
  professional_status_enum, pure, send, throw_if, transaction, unavailable, ◌>>=◌, ◌>>◌,
}

-- `AgencyTeamMemberDto`
pub record TeamMember : Type 0 where
  pub first_name : String
  pub last_name : String
  pub dni : String
  pub phone : String
  pub email : String
  pub role_in_company : String

-- The form in which the address of a member is stored: `trim().toLowerCase()`
abbrev pub normalize_email : String → String
normalize_email email = to_lower_case (trim email)

-- What `getAgencyOwnerContext` answers: the profile and the company
pub record OwnerContext : Type 0 where
  pub profile : ProfessionalProfile
  pub company : CompanyProfile

abbrev pub owned_company : ℕ → Db → Option CompanyProfile
owned_company profile s =
    Option.bind
      (find_first (λ m. m.professional_profile_id == profile && m.is_owner) s.company_memberships)
      (λ m. find_first (λ c. c.id == m.company_profile_id) s.company_profiles)

-- `getAgencyOwnerContext`
unfoldable pub get_agency_owner_context : ℕ → Action OwnerContext
get_agency_owner_context user_id = do
  profile ← gets (λ s. find_first (λ p. p.user_id == user_id) s.profiles)
  profile ← or_throw profile not_found
  throw_if (not profile.is_company) forbidden
  throw_if (not (profile.status === ProfessionalStatus.active && profile.is_verified)) forbidden
  company ← gets (owned_company profile.id)
  company ← or_throw company forbidden
  throw_if (not (← gets (has_ambassador_role user_id))) forbidden
  pure (record { profile = profile; company = company })

abbrev pub update_member : ℕ → (AgencyTeamMember → AgencyTeamMember) → Db → Db
update_member id f s = record s { team_members = update_many (λ m. m.id == id) f s.team_members }

unfoldable pub renew_member : Env → TeamMember → String → AgencyTeamMember → AgencyTeamMember
renew_member env dto email m = record m {
  first_name = dto.first_name;
  last_name = dto.last_name;
  dni = dto.dni;
  phone = dto.phone;
  email = email;
  role_in_company = dto.role_in_company;
  is_active = true;
  deactivated_at = none;
  invited_at = some env.now;
  user_id = none;
}

unfoldable pub new_member :
    Env → OwnerContext → TeamMember → String → List AgencyTeamMember → AgencyTeamMember
new_member env context dto email rows = record {
  id = env.fresh (map (λ m. m.id) rows);
  agency_profile_id = context.profile.id;
  company_profile_id = some context.company.id;
  user_id = none;
  email = email;
  first_name = dto.first_name;
  last_name = dto.last_name;
  dni = dto.dni;
  phone = dto.phone;
  role_in_company = dto.role_in_company;
  is_active = true;
  invited_at = some env.now;
  deactivated_at = none;
}

-- The member is invited again, or for the first time.
unfoldable pub put_member :
    Env → OwnerContext → TeamMember → String → Option AgencyTeamMember → Db → Db
unfolding renew_member new_member
put_member env context dto email (some m) s = update_member m.id (renew_member env dto email) s
put_member env context dto email none s = record s {
  team_members = create (new_member env context dto email s.team_members) s.team_members;
}

abbrev pub is_current : Option AgencyTeamMember → Bool
is_current none = false
is_current (some m) = m.is_active && is_none m.deactivated_at

-- An account that is not deleted has the address.
abbrev pub has_account : String → Db → Bool
has_account email s = exists (λ u. same_text u.email email && is_none u.deleted_at) s.users

-- The owner's account, which `profile.user` joins
abbrev pub owner_email_is : ℕ → String → Db → Bool
owner_email_is user_id email s =
    exists (λ u. u.id == user_id && same_text email (to_lower_case u.email)) s.users

-- `addTeamMember`
unfoldable pub add_team_member : Env → ℕ → TeamMember → Action (Unit {0})
unfolding get_agency_owner_context put_member
add_team_member env user_id dto = do
  context ← get_agency_owner_context user_id
  let email = normalize_email dto.email
  throw_if (← gets (owner_email_is user_id email)) bad_request
  throw_if (← gets (has_account email)) conflict
  existing ← gets (λ s.
      find_first
        (λ m.
          m.agency_profile_id == context.profile.id
          && same_text (to_lower_case m.email) (to_lower_case email))
        s.team_members)
  throw_if (is_current existing) conflict
  modify (put_member env context dto email existing)
  send (Message.agency_invitation_mail email context.company.name)

abbrev pub member_of : ℕ → ℕ → Db → Option AgencyTeamMember
member_of agency id s = find_first (λ m. m.id == id && m.agency_profile_id == agency) s.team_members

abbrev pub set_user_active : Bool → ℕ → Db → Db
set_user_active active id s = record s {
  users = update_many (λ u. u.id == id) (λ u. record u { is_active = active }) s.users;
}

-- `tx.user.update({ where: { id: linkedUserId } })`, for a member who has an account
unfoldable pub close_account : Option ℕ → Action (Unit {0})
close_account none = pure tt
close_account (some user) = do
  throw_if (not (← gets (λ s. exists (λ u. u.id == user) s.users))) database
  modify (set_user_active false user)

-- What follows the transaction of `deactivateTeamMember`
unfoldable pub shut_out : Env → Option ℕ → Action (Unit {0})
unfolding revoke_all_user_sessions revoke_ambassador_role
shut_out env none = pure tt
shut_out env (some user) = do
  revoke_all_user_sessions env user
  modify (revoke_ambassador_role user)

abbrev pub deactivate : Env → AgencyTeamMember → AgencyTeamMember
deactivate env m = record m { is_active = false; deactivated_at = some env.now }

-- `deactivateTeamMember`
unfoldable pub deactivate_team_member : Env → ℕ → ℕ → Action (Unit {0})
unfolding get_agency_owner_context close_account shut_out
deactivate_team_member env user_id member_id = do
  context ← get_agency_owner_context user_id
  member ← gets (member_of context.profile.id member_id)
  member ← or_throw member not_found
  throw_if (not member.is_active) bad_request
  transaction do modify (update_member member_id (deactivate env)); close_account member.user_id
  shut_out env member.user_id

-- The account of a member who is active again, or another invitation
unfoldable pub reopen : OwnerContext → AgencyTeamMember → Option ℕ → Action (Unit {0})
unfolding grant_ambassador_role
reopen context m none = send (Message.agency_invitation_mail m.email context.company.name)
reopen context m (some user) = do
  throw_if (not (← gets (λ s. exists (λ u. u.id == user) s.users))) database
  modify (set_user_active true user)
  modify (grant_ambassador_role user)

abbrev pub activate : AgencyTeamMember → AgencyTeamMember
activate m = record m { is_active = true; deactivated_at = none }

-- `activateTeamMember`
unfoldable pub activate_team_member : ℕ → ℕ → Action (Unit {0})
unfolding get_agency_owner_context reopen
activate_team_member user_id member_id = do
  context ← get_agency_owner_context user_id
  member ← gets (member_of context.profile.id member_id)
  member ← or_throw member not_found
  throw_if (member.is_active && is_none member.deactivated_at) bad_request
  modify (update_member member_id activate)
  reopen context member member.user_id

-- The answer of the mail service to an invitation: was it sent?
abbrev pub Mailer : Type 0
Mailer = String → Bool

abbrev pub invited : Env → AgencyTeamMember → AgencyTeamMember
invited env m = record m { invited_at = some env.now }

-- `resendInvitation`
unfoldable pub resend_invitation : Env → Mailer → ℕ → ℕ → Action (Unit {0})
unfolding get_agency_owner_context
resend_invitation env mailer user_id member_id = do
  context ← get_agency_owner_context user_id
  member ← gets (member_of context.profile.id member_id)
  member ← or_throw member not_found
  throw_if (is_some member.user_id) bad_request
  throw_if (not member.is_active) bad_request
  throw_if (← gets (has_account member.email)) conflict
  send (Message.agency_invitation_mail member.email context.company.name)
  throw_if (not (mailer member.email)) unavailable
  modify (update_member member_id (invited env))

-- `removeTeamMember`
unfoldable pub remove_team_member : ℕ → ℕ → Action (Unit {0})
unfolding get_agency_owner_context
remove_team_member user_id member_id = do
  context ← get_agency_owner_context user_id
  member ← gets (member_of context.profile.id member_id)
  member ← or_throw member not_found
  throw_if (is_some member.user_id) bad_request
  modify λ s. record s { team_members = delete_many (λ m. m.id == member_id) s.team_members }
