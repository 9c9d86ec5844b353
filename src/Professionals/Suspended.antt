-- ===== src/Professionals/Suspended.antt =====
-- `verify` and `suspend` (professionals.service.ts): who operates as an ambassador afterwards.
use deptoflex_back.Access.{
  assert_can_operate_as_ambassador, for_users, has_ambassador_role, revoke_agency_access,
  revoke_ambassador_role,
}
use deptoflex_back.Prelude.{
  List, Option-cases, [], ap, create, exists, false, inl, inr, refl, some, true, ℕ, ◌&&◌, ◌===◌,
  ◌==?◌, ◌==◌, ◌||◌, ◌∙◌, ◌∷◌, ◌≡◌,
}
use deptoflex_back.Professionals.Approval.{as_suspended, profile_by_id, suspend, update_profile}
use deptoflex_back.Store.{
  AgencyTeamMember, Db, Message, ProfessionalProfile, ProfessionalStatus, Result, bad_request, err,
  forbidden, ok, professional_status_enum, ◌>>=◌,
}
use deptoflex_back.Access.Roles.{revoke_agency_access-revokes, without_role}
use deptoflex_back.Prelude.Table.Laws.{find_first-test, find_first-update_many}

for_users-same :
    (f : ℕ → Db → Db) (ms : List AgencyTeamMember) (s : Db)
    → ((u : ℕ) (t : Db) → ((f u t).profiles ≡ t.profiles) × ((f u t).team_members ≡ t.team_members))
    → ((for_users f ms s).profiles ≡ s.profiles)
      × ((for_users f ms s).team_members ≡ s.team_members)
unfolding for_users
for_users-same f [] s h = (refl, refl)
for_users-same f (m ∷ ms) s h = elim (Option-cases m.user_id) [
  | inl n ↦ rw n (for_users-same f ms s h)
  | inr (u, e) ↦
      let rest = for_users-same f ms (f u s) h in rw e (rest.0 ∙ (h u s).0, rest.1 ∙ (h u s).1)
]

revoke-same :
    (agency owner : ℕ) (s : Db)
    → ((revoke_agency_access agency owner s).profiles ≡ s.profiles)
      × ((revoke_agency_access agency owner s).team_members ≡ s.team_members)
unfolding revoke_agency_access revoke_ambassador_role
revoke-same agency owner s =
    for_users-same revoke_ambassador_role _ (revoke_ambassador_role owner s) (λ u t. (refl, refl))

abbrev after_suspend : ℕ → ℕ → Db → Db
after_suspend id owner s =
    let t = update_profile id as_suspended (revoke_agency_access id owner s) in
    record t { outbox = create (Message.ambassador_suspended id) t.outbox }

suspend-done :
    (id : ℕ) (p : ProfessionalProfile) (s : Db)
    → profile_by_id id s ≡ some p
    → (p.status === ProfessionalStatus.active) ≡ true
    → suspend id s ≡ (ok tt, after_suspend id p.user_id s)
unfolding suspend ◌>>=◌
suspend-done id p s f a = rw (f, a) refl

suspend-refused :
    (id : ℕ) (p : ProfessionalProfile) (s : Db)
    → profile_by_id id s ≡ some p
    → (p.status === ProfessionalStatus.active) ≡ false
    → (suspend id s).0 ≡ err bad_request
unfolding suspend ◌>>=◌
suspend-refused id p s f a = rw (f, a) refl

after_suspend-revoked :
    (id owner u : ℕ) (s : Db)
    → has_ambassador_role u (revoke_agency_access id owner s) ≡ false
    → has_ambassador_role u (after_suspend id owner s) ≡ false
unfolding has_ambassador_role
after_suspend-revoked id owner u s e = e

-- An active ambassador is suspended: the profile is SUSPENDED, not verified and without a request,
-- and the owner of the profile and every member of its team who has an account are refused as
-- ambassadors. A second suspension is refused with `bad_request`.
pub suspend-forbids :
    (id u : ℕ) (p : ProfessionalProfile) (s : Db)
    → profile_by_id id s ≡ some p
    → p.status ≡ ProfessionalStatus.active
    → (u == p.user_id || exists (λ m. m.agency_profile_id == id && m.user_id ==? u) s.team_members)
      ≡ true
    → let r = suspend id s in
      (r.0 ≡ ok tt)
      × (profile_by_id id r.1 ≡ some (as_suspended p))
      × ((assert_can_operate_as_ambassador u r.1).0 ≡ err forbidden)
      × ((suspend id r.1).0 ≡ err bad_request)
suspend-forbids id u p s f a m =
    let own : (p.id == id) ≡ true = find_first-test (λ p. p.id == id) s.profiles {x = p} f in
    let found : profile_by_id id (after_suspend id p.user_id s) ≡ some (as_suspended p) =
      rw
        (
          (revoke-same id p.user_id s).0,
          find_first-update_many (λ p. p.id == id) (λ p. p.id == id) as_suspended s.profiles
              (λ p. refl),
          f,
          own,
        )
        refl in
    rw (suspend-done id p s f (rw a refl)) (
      refl,
      found,
      ap (λ (o : Result ℕ × Db). o.0)
          (without_role u (after_suspend id p.user_id s) (
            after_suspend-revoked id p.user_id u s
              (revoke_agency_access-revokes u id p.user_id s m))),
      suspend-refused id (as_suspended p) (after_suspend id p.user_id s) found refl,
    )
