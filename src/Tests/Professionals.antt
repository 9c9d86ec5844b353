-- ===== src/Tests/Professionals.antt =====
-- The theorems about profiles and agency teams, at an agency with one member.
use mathlib.Core.Option
use deptoflex_back.Tests.{env, office, team_member}
use deptoflex_back.Access.{assert_can_operate_as_ambassador, has_ambassador_role}
use deptoflex_back.Auth.{LogIn, Meta, Security, find_session, find_user, login, refresh}
use deptoflex_back.Prelude.{
  All, Bool, List, String, [], codes, exists, false, find_first, first, if◌then◌else◌, is_some,
  none, not, refl, same_codes, same_text, some, to_lower_case, trim, true, ℕ, ◌&&◌, ◌+◌, ◌==◌, ◌∷◌,
  ◌≡◌,
}
use deptoflex_back.Professionals.{
  TeamMember, as_approved, as_suspended, deactivate_team_member, get_agency_owner_context, has_all,
  has_document, normalize_email, normalize_member, normalize_members, normalize_team_members,
  profile_by_id, suspend, verify,
}
use deptoflex_back.Professionals.Approved.{verify-lets_operate}
use deptoflex_back.Professionals.Distinct.{
  all_distinct, emails, emails_of, normalize_team_members-accepts,
}
use deptoflex_back.Professionals.ShutOut.{deactivate_team_member-shuts_out}
use deptoflex_back.Professionals.Suspended.{suspend-forbids}
use deptoflex_back.Store.{
  AmbassadorDocument, CompanyProfile, Db, DocumentType, ProfessionalProfile, ProfessionalStatus,
  Role, Session, User, bad_request, err, forbidden, is_ok, ok, unauthorized, ◌>>=◌,
}

abbrev agency : ProfessionalStatus → Bool → Bool → ProfessionalProfile
agency status company verified = record {
  id = 7;
  user_id = 11;
  is_company = company;
  is_verified = verified;
  status = status;
  default_commission_rate = 500;
  verified_at = none;
  ambassador_requested_at = some 5;
}

abbrev account : ℕ → String → User
account id email = record {
  id = id;
  email = email;
  password_hash = 5;
  first_name = none;
  last_name = none;
  phone = none;
  email_verified = true;
  email_verified_at = some 1;
  terms_accepted_at = some 1;
  is_active = true;
  deleted_at = none;
}

abbrev company : CompanyProfile
company = record { id = 3; name = "Agency" }

abbrev open_login : Session
open_login = record {
  id = 1;
  user_id = 10;
  refresh_token = 41;
  user_agent = none;
  ip_address = none;
  expires_at = 2000;
  revoked_at = none;
}

-- Ana, with an open session, is a member of the team of agency 7, which account 11 owns.
abbrev agencies : Db
agencies = record office {
  profiles = agency ProfessionalStatus.active true true ∷ [];
  user_roles =
      record { user_id = 11; role = Role.ambassador }
      ∷ record { user_id = 10; role = Role.ambassador }
      ∷ [];
  users = account 10 "ana@example.org" ∷ account 11 "eva@example.org" ∷ [];
  sessions = open_login ∷ [];
  company_profiles = company ∷ [];
  company_memberships =
      record { professional_profile_id = 7; company_profile_id = 3; is_owner = true } ∷ [];
}

abbrev plain_security : Security
plain_security = record {
  random_token = 60;
  random_password = "x";
  sha256 = λ token. token + 1;
  argon2_hash = λ _. 7;
  argon2_verify = λ hash _. hash == 5;
  sign = λ id _ _. id;
  google_payload = λ _. none;
  refresh_days = 7;
}

abbrev no_meta : Meta
no_meta = record { user_agent = none; ip_address = none }

abbrev log_in : LogIn
log_in = record { email = "ana@example.org"; password = "secret" }

deactivate_team_member-shuts_out_example :
    let r = deactivate_team_member env 11 1 agencies in
    (r.0 ≡ ok tt)
    × All (λ (z : Session). (z.user_id == 10) ≡ true → is_some z.revoked_at ≡ true) r.1.sessions
    × (is_ok (login env plain_security log_in no_meta r.1).0 ≡ false)
    × ((refresh env plain_security 40 no_meta r.1).0 ≡ err unauthorized)
    × ((assert_can_operate_as_ambassador 10 r.1).0 ≡ err forbidden)
unfolding find_user find_session find_first get_agency_owner_context has_ambassador_role exists
    ◌>>=◌ Option.bind same_text
deactivate_team_member-shuts_out_example =
    deactivate_team_member-shuts_out env env plain_security 11 1 10 40 no_meta log_in
      (record { profile = agency ProfessionalStatus.active true true; company = company })
      team_member (account 10 "ana@example.org") open_login agencies refl refl refl refl refl refl
      refl refl

suspend-forbids_example :
    let r = suspend 7 agencies in
    (r.0 ≡ ok tt)
    × (profile_by_id 7 r.1 ≡ some (as_suspended (agency ProfessionalStatus.active true true)))
    × ((assert_can_operate_as_ambassador 10 r.1).0 ≡ err forbidden)
    × ((suspend 7 r.1).0 ≡ err bad_request)
unfolding find_first exists
suspend-forbids_example =
    suspend-forbids 7 10 (agency ProfessionalStatus.active true true) agencies refl refl refl

abbrev paper : DocumentType → AmbassadorDocument
paper t = record { professional_profile_id = 7; document_type = t }

-- The owner of agency 7 has asked to be an ambassador, with all documents.
abbrev requested : Db
requested = record agencies {
  profiles = agency ProfessionalStatus.pending true false ∷ [];
  user_roles = [];
  ambassador_documents =
      paper DocumentType.cuit_certificate ∷ paper DocumentType.founding_document ∷ [];
}

verify-lets_operate_example :
    let r = verify env (λ _. true) 7 requested in
    (r.0 ≡ ok tt)
    × (profile_by_id 7 r.1 ≡ some (as_approved env (agency ProfessionalStatus.pending true false)))
    × (assert_can_operate_as_ambassador 11 r.1 ≡ (ok 7, r.1))
unfolding find_first exists has_all has_document
verify-lets_operate_example =
    verify-lets_operate env (λ _. true) 7 (agency ProfessionalStatus.pending true false) requested
      refl refl refl refl refl refl

abbrev colleague : String → TeamMember
colleague email = record {
  first_name = " Leo ";
  last_name = "";
  dni = "1";
  phone = "2";
  email = email;
  role_in_company = "Agent";
}

abbrev team : List TeamMember
team = colleague " Leo@example.org" ∷ colleague "ida@example.org " ∷ []

normalize_team_members-accepts_example :
    emails_of (normalize_team_members team "Eva@example.org") ≡ (
      if is_some (first team)
        && not (exists (λ e. same_text e (normalize_email "Eva@example.org")) (emails team))
        && all_distinct (emails team)
      then some (emails team)
      else none)
normalize_team_members-accepts_example = normalize_team_members-accepts team "Eva@example.org"

accepted :
    emails_of (normalize_team_members team "Eva@example.org")
    ≡ some ("leo@example.org" ∷ "ida@example.org" ∷ [])
unfolding normalize_team_members normalize_members normalize_member emails_of exists same_text codes
    same_codes trim to_lower_case
accepted = refl

repeated :
    emails_of (normalize_team_members (colleague "LEO@example.org" ∷ team) "eva@example.org") ≡ none
unfolding normalize_team_members normalize_members normalize_member emails_of exists same_text codes
    same_codes trim to_lower_case
repeated = refl
