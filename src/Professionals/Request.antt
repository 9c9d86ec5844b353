-- ===== src/Professionals/Request.antt =====
-- src/modules/professionals/professionals.service.ts: the team that an agency's request names, and
-- the changes of an administrator.
use mathlib.Core.Option
use deptoflex_back.Prelude.{
  Bool, List, Option, String, [], exists, has_text, if◌then◌else◌, is_some, none, not, same_text,
  some, to_lower_case, trim, ℕ, ◌&&◌, ◌==◌, ◌otherwise◌, ◌||◌, ◌∷◌,
}
use deptoflex_back.Professionals.Approval.{profile_by_id, update_profile}
use deptoflex_back.Professionals.Team.{TeamMember, has_account, normalize_email}
use deptoflex_back.Rates.{recalculate_for_ambassador}
use deptoflex_back.Store.{
  Action, Db, Env, ProfessionalStatus, conflict, gets, modify, not_found, or_throw, pure, throw_if,
  when, ◌>>=◌, ◌>>◌,
}

-- `lastName.trim() || '—'`
unfoldable pub or_dash : String → String
or_dash s = if has_text s then s else "—"

unfoldable pub normalize_member : TeamMember → TeamMember
unfolding or_dash
normalize_member m = record m {
  email = normalize_email m.email;
  first_name = trim m.first_name;
  last_name = or_dash (trim m.last_name);
}

-- `seen.has(email)`
abbrev pub seen_before : List String → String → Bool
seen_before seen email = exists (λ e. same_text e email) seen

-- The loop of `normalizeTeamMembers`, with the addresses that it has seen
unfoldable pub normalize_members : String → List String → List TeamMember → Option (List TeamMember)
unfolding normalize_member
normalize_members owner seen [] = some []
normalize_members owner seen (m ∷ ms) =
    let email = normalize_email m.email in
    let rest = normalize_members owner (email ∷ seen) ms in
    if same_text email owner
    then none
    else if seen_before seen email
    then none
    else Option.map (λ ns. normalize_member m ∷ ns) rest

-- `normalizeTeamMembers`; it throws a bad request where it answers `none`.
unfoldable pub normalize_team_members : List TeamMember → String → Option (List TeamMember)
unfolding normalize_members
normalize_team_members [] owner = none
normalize_team_members (m ∷ ms) owner = normalize_members (normalize_email owner) [] (m ∷ ms)

-- The member is known: by an account, or by the active team of another agency.
unfoldable pub is_unavailable : ℕ → Db → TeamMember → Bool
is_unavailable agency s m =
    has_account m.email s
    || exists
        (λ o.
          same_text (to_lower_case o.email) (to_lower_case m.email)
          && not (o.agency_profile_id == agency)
          && o.is_active)
        s.team_members

-- `assertTeamEmailsAvailable`
unfoldable pub assert_team_emails_available : List TeamMember → ℕ → Action (Unit {0})
unfolding is_unavailable
assert_team_emails_available [] agency = pure tt
assert_team_emails_available (m ∷ ms) agency = do
  throw_if (← gets (λ s. is_unavailable agency s m)) conflict
  assert_team_emails_available ms agency

-- `AdminUpdateProfessionalDto`, of the columns that are kept here
pub record AdminUpdate : Type 0 where
  pub default_commission_rate : Option ℕ
  pub status : Option ProfessionalStatus

-- `adminUpdate`
unfoldable pub admin_update : Env → ℕ → AdminUpdate → Action (Unit {0})
unfolding recalculate_for_ambassador
admin_update env id dto = do
  profile ← gets (profile_by_id id)
  profile ← or_throw profile not_found
  modify (
      update_profile id λ p. record p {
        default_commission_rate = dto.default_commission_rate otherwise p.default_commission_rate;
        status = dto.status otherwise p.status;
      })
  when (is_some dto.default_commission_rate) (modify (recalculate_for_ambassador env id))
