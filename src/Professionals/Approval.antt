-- ===== src/Professionals/Approval.antt =====
-- src/modules/professionals/professionals.service.ts: how a request to be an ambassador ends.
use deptoflex_back.Access.{
  grant_ambassador_role, grant_ambassador_roles_for_linked_team_members, revoke_agency_access,
}
use deptoflex_back.Bookings.{complete}
use deptoflex_back.Prelude.{
  Bool, List, Option, [], create, delete_many, exists, false, find_first, find_many, if◌then◌else◌,
  is_none, none, not, some, true, update_many, ℕ, ◌&&◌, ◌===◌, ◌==◌, ◌||◌, ◌∷◌,
}
use deptoflex_back.Professionals.Team.{Mailer, has_account, invited, owned_company, update_member}
use deptoflex_back.Store.{
  Action, AgencyTeamMember, CompanyMembership, CompanyProfile, Db, DocumentType, Env, Message,
  ProfessionalProfile, ProfessionalStatus, bad_request, gets, modify, not_found, or_throw,
  professional_status_enum, send, throw_if, when, ◌>>=◌, ◌>>◌,
}

-- `inviteAllPendingMembers`: one member
unfoldable pub invite_member : Env → Mailer → CompanyProfile → AgencyTeamMember → Db → Db
invite_member env mailer company m s =
    if has_account m.email s
    then s
    else let sent = record s {
      outbox = create (Message.agency_invitation_mail m.email company.name) s.outbox;
    } in
      if mailer m.email then update_member m.id (invited env) sent else sent

unfoldable pub invite_members : Env → Mailer → CompanyProfile → List AgencyTeamMember → Db → Db
unfolding invite_member
invite_members env mailer company [] s = s
invite_members env mailer company (m ∷ ms) s =
    invite_members env mailer company ms (invite_member env mailer company m s)

unfoldable pub invite_team : Env → Mailer → ℕ → Option CompanyProfile → Db → Db
unfolding invite_members
invite_team env mailer agency none s = s
invite_team env mailer agency (some company) s =
    invite_members env mailer company
      (find_many (λ m. m.agency_profile_id == agency && is_none m.user_id && m.is_active)
        s.team_members)
      s

-- `inviteAllPendingMembers`, for a company
unfoldable pub invite_all_pending_members : Env → Mailer → ℕ → Db → Db
unfolding invite_team
invite_all_pending_members env mailer agency s =
    invite_team env mailer agency (owned_company agency s) s

abbrev document_code : DocumentType → ℕ
document_code DocumentType.dni_front = 0
document_code DocumentType.dni_back = 1
document_code DocumentType.selfie = 2
document_code DocumentType.cuit_certificate = 3
document_code DocumentType.founding_document = 4

abbrev pub required_docs : Bool → List DocumentType
required_docs true = DocumentType.cuit_certificate ∷ DocumentType.founding_document ∷ []
required_docs false = DocumentType.dni_front ∷ DocumentType.dni_back ∷ DocumentType.selfie ∷ []

-- The profile has a document of the type.
unfoldable pub has_document : ℕ → Db → DocumentType → Bool
has_document profile s t =
    exists
      (λ d.
        d.professional_profile_id == profile && document_code d.document_type == document_code t)
      s.ambassador_documents

unfoldable pub has_all : (DocumentType → Bool) → List DocumentType → Bool
has_all p [] = true
has_all p (t ∷ ts) = p t && has_all p ts

abbrev pub profile_by_id : ℕ → Db → Option ProfessionalProfile
profile_by_id id s = find_first (λ p. p.id == id) s.profiles

abbrev pub as_approved : Env → ProfessionalProfile → ProfessionalProfile
as_approved env p = record p {
  is_verified = true;
  verified_at = some env.now;
  status = ProfessionalStatus.active;
}

abbrev pub update_profile : ℕ → (ProfessionalProfile → ProfessionalProfile) → Db → Db
update_profile id f s = record s { profiles = update_many (λ p. p.id == id) f s.profiles }

-- `verify`
unfoldable pub verify : Env → Mailer → ℕ → Action (Unit {0})
unfolding has_document has_all invite_all_pending_members grant_ambassador_role
    grant_ambassador_roles_for_linked_team_members
verify env mailer id = do
  profile ← gets (profile_by_id id)
  profile ← or_throw profile not_found
  throw_if
      (not (profile.status === ProfessionalStatus.pending)
        || is_none profile.ambassador_requested_at)
      bad_request
  complete ← gets (λ s. has_all (has_document id s) (required_docs profile.is_company))
  throw_if (not complete) bad_request
  team ← gets (λ s. exists (λ m. m.agency_profile_id == id) s.team_members)
  throw_if (profile.is_company && not team) bad_request
  modify λ s. grant_ambassador_role profile.user_id (update_profile id (as_approved env) s)
  modify (grant_ambassador_roles_for_linked_team_members id)
  when profile.is_company (modify (invite_all_pending_members env mailer id))
  send (Message.ambassador_approved id)

abbrev pub as_rejected : ProfessionalProfile → ProfessionalProfile
as_rejected p = record p {
  status = ProfessionalStatus.rejected;
  ambassador_requested_at = none;
  is_verified = false;
  verified_at = none;
}

-- The company of the profile goes where no other profile is a member of it.
unfoldable pub drop_company : ℕ → Option CompanyMembership → Db → Db
drop_company id none s = s
drop_company id (some m) s =
    if exists
      (λ o. o.company_profile_id == m.company_profile_id && not (o.professional_profile_id == id))
      s.company_memberships
    then s
    else record s {
      company_profiles = delete_many (λ c. c.id == m.company_profile_id) s.company_profiles;
    }

-- `reject`
unfoldable pub reject : ℕ → Action (Unit {0})
unfolding drop_company revoke_agency_access
reject id = do
  profile ← gets (profile_by_id id)
  profile ← or_throw profile not_found
  throw_if (not (profile.status === ProfessionalStatus.pending)) bad_request
  owned ←
      gets
        (λ s. find_first (λ m. m.professional_profile_id == id && m.is_owner) s.company_memberships)
  modify (revoke_agency_access id profile.user_id)
  modify λ s. record s {
    team_members = delete_many (λ m. m.agency_profile_id == id) s.team_members;
    company_memberships = delete_many (λ m. m.professional_profile_id == id) s.company_memberships;
  }
  modify (drop_company id owned)
  modify (update_profile id as_rejected)
  send (Message.ambassador_rejected id)

abbrev pub as_suspended : ProfessionalProfile → ProfessionalProfile
as_suspended p = record p {
  status = ProfessionalStatus.suspended;
  ambassador_requested_at = none;
  is_verified = false;
}

-- `suspend`
unfoldable pub suspend : ℕ → Action (Unit {0})
unfolding revoke_agency_access
suspend id = do
  profile ← gets (profile_by_id id)
  profile ← or_throw profile not_found
  throw_if (not (profile.status === ProfessionalStatus.active)) bad_request
  modify (revoke_agency_access id profile.user_id)
  modify (update_profile id as_suspended)
  send (Message.ambassador_suspended id)
