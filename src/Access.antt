-- ===== src/Access.antt =====
-- src/common/services/ambassador-access.service.ts: who may operate as an ambassador, and the role
-- that agencies grant and revoke.
pub mod Roles
use mathlib.Core.Option
use deptoflex_back.Prelude.{
  Bool, List, Option, String, [], create, delete_many, exists, false, find_first, find_many,
  if◌then◌else◌, is_none, is_some, none, not, same_text, some, to_lower_case, trim, true,
  update_many, ℕ, ◌&&◌, ◌===◌, ◌==?◌, ◌==◌, ◌∷◌,
}
use deptoflex_back.Store.{
  Action, AgencyTeamMember, Db, ProfessionalProfile, ProfessionalStatus, Role, UserRole, database,
  forbidden, gets, modify, or_throw, professional_status_enum, pure, throw_if, transaction, when,
  ◌>>=◌, ◌>>◌,
}

-- The caller of a method: `CurrentUserPayload`.
pub record CurrentUser : Type 0 where
  pub id : ℕ
  pub roles : List Role

abbrev pub is_staff_role : Role → Bool
is_staff_role Role.admin = true
is_staff_role Role.operator = true
is_staff_role Role.ambassador = false
is_staff_role Role.client = false

abbrev pub is_ambassador : Role → Bool
is_ambassador Role.ambassador = true
is_ambassador Role.admin = false
is_ambassador Role.operator = false
is_ambassador Role.client = false

-- `user.roles?.some((r) => ['ADMIN', 'OPERATOR'].includes(r))`
unfoldable pub is_staff : CurrentUser → Bool
is_staff u = exists is_staff_role u.roles

-- `isApprovedAgencyProfile`
unfoldable pub is_approved_agency : ProfessionalProfile → Bool
is_approved_agency p = p.is_company && p.status === ProfessionalStatus.active && p.is_verified

unfoldable pub is_ambassador_of : ℕ → UserRole → Bool
is_ambassador_of user_id r = r.user_id == user_id && is_ambassador r.role

unfoldable pub has_ambassador_role : ℕ → Db → Bool
unfolding is_ambassador_of
has_ambassador_role user_id s = exists (is_ambassador_of user_id) s.user_roles

-- The agency of the active membership, if there is one.
unfoldable pub agency_of : ℕ → Db → Option ProfessionalProfile
agency_of user_id s =
    Option.bind (find_first (λ m. m.user_id ==? user_id && m.is_active) s.team_members)
      (λ m. find_first (λ p. p.id == m.agency_profile_id) s.profiles)

abbrev pub agency_approves : Option ProfessionalProfile → Bool
agency_approves none = false
agency_approves (some p) = is_approved_agency p

-- `assertCanOperateAsAmbassador`, which returns the id of the caller's profile
unfoldable pub assert_can_operate_as_ambassador : ℕ → Action ℕ
unfolding has_ambassador_role agency_of
assert_can_operate_as_ambassador user_id = do
  profile ← gets (λ s. find_first (λ p. p.user_id == user_id) s.profiles)
  profile ← or_throw profile forbidden
  throw_if (not (← gets (has_ambassador_role user_id))) forbidden
  approved_agency ← gets (λ s. agency_approves (agency_of user_id s))
  throw_if
      (not (profile.status === ProfessionalStatus.active && profile.is_verified)
        && not approved_agency)
      forbidden
  pure profile.id

-- `grantAmbassadorRole`: an upsert on the key (user, role)
unfoldable pub grant_ambassador_role : ℕ → Db → Db
unfolding has_ambassador_role
grant_ambassador_role user_id s = if has_ambassador_role user_id s then s else record s {
  user_roles = create (record { user_id = user_id; role = Role.ambassador }) s.user_roles;
}

-- `revokeAmbassadorRole`
unfoldable pub revoke_ambassador_role : ℕ → Db → Db
revoke_ambassador_role user_id s = record s {
  user_roles = delete_many (is_ambassador_of user_id) s.user_roles;
}

unfoldable pub for_users : (ℕ → Db → Db) → List AgencyTeamMember → Db → Db
for_users f [] s = s
for_users f (m ∷ ms) s = for_users f ms (elim m.user_id [ none ↦ s | some user_id ↦ f user_id s ])

-- `grantAmbassadorRolesForLinkedTeamMembers`
unfoldable pub grant_ambassador_roles_for_linked_team_members : ℕ → Db → Db
grant_ambassador_roles_for_linked_team_members agency s =
    for_users grant_ambassador_role
      (find_many (λ m. m.agency_profile_id == agency && m.is_active && is_some m.user_id)
        s.team_members)
      s

-- `revokeAgencyAccess`
unfoldable pub revoke_agency_access : ℕ → ℕ → Db → Db
revoke_agency_access agency owner s =
    for_users revoke_ambassador_role
      (find_many (λ m. m.agency_profile_id == agency && is_some m.user_id) s.team_members)
      (revoke_ambassador_role owner s)

-- The invitation that a new account answers: same address, still free, and active.
unfoldable pub is_invitation : String → AgencyTeamMember → Bool
is_invitation email m =
    same_text (to_lower_case m.email) (to_lower_case (trim email))
    && is_none m.user_id
    && m.is_active

-- The upsert of a company membership, where the invitation names a company and the user has a
-- profile
unfoldable pub join_company : ℕ → Option ℕ → Option ProfessionalProfile → Db → Db
join_company user_id none profile s = s
join_company user_id (some company) none s = s
join_company user_id (some company) (some p) s =
    if exists (λ c. c.professional_profile_id == p.id && c.company_profile_id == company)
      s.company_memberships
    then s
    else record s {
      company_memberships =
          create
            (record {
              professional_profile_id = p.id;
              company_profile_id = company;
              is_owner = false;
            })
            s.company_memberships;
    }

-- The transaction of `linkAgencyTeamMemberOnRegister`: a user is in one team at most.
unfoldable pub link_member : ℕ → Option AgencyTeamMember → Action (Unit {0})
unfolding join_company
link_member user_id none = pure tt
link_member user_id (some m) = do
  approved ← gets (λ s. agency_approves (find_first (λ p. p.id == m.agency_profile_id) s.profiles))
  transaction do
    throw_if (← gets (λ s. exists (λ o. o.user_id ==? user_id) s.team_members)) database
    modify λ s. record s {
      team_members =
          update_many (λ o. o.id == m.id) (λ o. record o { user_id = some user_id }) s.team_members;
    }
    profile ← gets (λ s. find_first (λ p. p.user_id == user_id) s.profiles)
    modify (join_company user_id m.company_profile_id profile)
    when approved (modify (grant_ambassador_role user_id))

-- `linkAgencyTeamMemberOnRegister`
unfoldable pub link_agency_team_member_on_register : ℕ → String → Action (Unit {0})
unfolding is_invitation link_member
link_agency_team_member_on_register user_id email = do
  member ← gets (λ s. find_first (is_invitation email) s.team_members)
  link_member user_id member
