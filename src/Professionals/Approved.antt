-- ===== src/Professionals/Approved.antt =====
-- `verify` (professionals.service.ts): an approved ambassador can operate.
use deptoflex_back.Access.{
  assert_can_operate_as_ambassador, for_users, grant_ambassador_role,
  grant_ambassador_roles_for_linked_team_members, has_ambassador_role, is_ambassador_of,
}
use deptoflex_back.Prelude.{
  ==_self, Bool-cases, List, Option, Option-cases, [], arith, create, exists, false, find_first,
  find_many, if◌then◌else◌, inl, inr, is_none, is_some, none, not, refl, some, true, update_many, ℕ,
  ◌&&◌, ◌===◌, ◌==◌, ◌∷◌, ◌≡◌,
}
use deptoflex_back.Prelude.Table.Laws.{
  exists-create, exists-created, find_first-test, find_first-update_many,
}
use deptoflex_back.Professionals.Approval.{
  as_approved, has_all, has_document, invite_all_pending_members, invite_member, invite_members,
  invite_team, profile_by_id, required_docs, update_profile, verify,
}
use deptoflex_back.Professionals.Team.{Mailer, has_account, owned_company}
use deptoflex_back.Store.{
  AgencyTeamMember, CompanyProfile, Db, Env, Message, ProfessionalProfile, ProfessionalStatus, Role,
  ok, professional_status_enum, ◌>>=◌,
}

-- Has the user the role, and the table of profiles: what deciding about an ambassador rests on.
abbrev Stands : ℕ → List ProfessionalProfile → Db → Type 0
Stands u rows s = (has_ambassador_role u s ≡ true) × (s.profiles ≡ rows)

grant-granted : (u : ℕ) (s : Db) → Stands u s.profiles (grant_ambassador_role u s)
unfolding grant_ambassador_role has_ambassador_role is_ambassador_of
grant-granted u s = elim (Bool-cases (has_ambassador_role u s)) [
  | inl t ↦ rw t (t, refl)
  | inr n ↦ rw n (
    exists-created (is_ambassador_of u) (record { user_id = u; role = Role.ambassador })
        s.user_roles (ground (arith, ==_self u)),
    refl,
  )
]

grant-keeps :
    (u v : ℕ) (rows : List ProfessionalProfile) (s : Db)
    → Stands u rows s
    → Stands u rows (grant_ambassador_role v s)
unfolding grant_ambassador_role has_ambassador_role
grant-keeps u v rows s h = elim (Bool-cases (has_ambassador_role v s)) [
  | inl t ↦ rw t h
  | inr n ↦ rw n (
    rw
        (
          exists-create (is_ambassador_of u) (record { user_id = v; role = Role.ambassador })
              s.user_roles,
          h.0,
        )
        refl,
    h.1,
  )
]

for_users-keeps :
    (u : ℕ) (rows : List ProfessionalProfile) (ms : List AgencyTeamMember) (s : Db)
    → Stands u rows s
    → Stands u rows (for_users grant_ambassador_role ms s)
unfolding for_users
for_users-keeps u rows [] s h = h
for_users-keeps u rows (m ∷ ms) s h = elim (Option-cases m.user_id) [
  | inl n ↦ rw n (for_users-keeps u rows ms s h)
  | inr (v, e) ↦
      rw e (for_users-keeps u rows ms (grant_ambassador_role v s) (grant-keeps u v rows s h))
]

invite_member-keeps :
    (u : ℕ) (rows : List ProfessionalProfile) (env : Env) (mailer : Mailer)
    (company : CompanyProfile) (m : AgencyTeamMember) (s : Db)
    → Stands u rows s
    → Stands u rows (invite_member env mailer company m s)
unfolding invite_member has_ambassador_role
invite_member-keeps u rows env mailer company m s h = elim (Bool-cases (has_account m.email s)) [
  | inl t ↦ rw t h
  | inr n ↦ elim (Bool-cases (mailer m.email)) [ inl t ↦ rw (n, t) h | inr f ↦ rw (n, f) h ]
]

invite_members-keeps :
    (u : ℕ) (rows : List ProfessionalProfile) (env : Env) (mailer : Mailer)
    (company : CompanyProfile) (ms : List AgencyTeamMember) (s : Db)
    → Stands u rows s
    → Stands u rows (invite_members env mailer company ms s)
unfolding invite_members
invite_members-keeps u rows env mailer company [] s h = h
invite_members-keeps u rows env mailer company (m ∷ ms) s h =
    invite_members-keeps u rows env mailer company ms (invite_member env mailer company m s)
      (invite_member-keeps u rows env mailer company m s h)

invite_team-keeps :
    (u : ℕ) (rows : List ProfessionalProfile) (env : Env) (mailer : Mailer) (id : ℕ)
    (company : Option CompanyProfile) (s : Db)
    → Stands u rows s
    → Stands u rows (invite_team env mailer id company s)
unfolding invite_team
invite_team-keeps u rows env mailer id none s h = h
invite_team-keeps u rows env mailer id (some c) s h =
    invite_members-keeps u rows env mailer c
      (find_many (λ m. m.agency_profile_id == id && is_none m.user_id && m.is_active)
        s.team_members)
      s h

-- An active and verified profile with the role is let through.
let_through :
    (u : ℕ) (p : ProfessionalProfile) (s : Db)
    → has_ambassador_role u s ≡ true
    → find_first (λ q. q.user_id == u) s.profiles ≡ some p
    → (p.status === ProfessionalStatus.active) ≡ true
    → p.is_verified ≡ true
    → assert_can_operate_as_ambassador u s ≡ (ok p.id, s)
unfolding assert_can_operate_as_ambassador ◌>>=◌
let_through u p s h f a v = rw (f, h, a, v) refl

module _ (env : Env) (mailer : Mailer) (id : ℕ) (p : ProfessionalProfile) (s : Db) where
  abbrev granted : Db
  granted =
      grant_ambassador_roles_for_linked_team_members id
        (grant_ambassador_role p.user_id (update_profile id (as_approved env) s))

  abbrev after_verify : Db
  after_verify =
      let t = if p.is_company then invite_all_pending_members env mailer id granted else granted in
      record t { outbox = create (Message.ambassador_approved id) t.outbox }

  verify-done :
      profile_by_id id s ≡ some p
      → (p.status === ProfessionalStatus.pending) ≡ true
      → is_none p.ambassador_requested_at ≡ false
      → has_all (has_document id s) (required_docs p.is_company) ≡ true
      → (p.is_company && not (exists (λ m. m.agency_profile_id == id) s.team_members)) ≡ false
      → verify env mailer id s ≡ (ok tt, after_verify)
  unfolding verify ◌>>=◌
  verify-done f a r d t = elim (Bool-cases p.is_company) [
    | inl c ↦ rw (f, a, r, d, t, c) refl
    | inr n ↦ rw (f, a, r, d, t, n) refl
  ]

  verified-Stands :
      Stands p.user_id (update_many (λ q. q.id == id) (as_approved env) s.profiles) after_verify
  unfolding invite_all_pending_members grant_ambassador_roles_for_linked_team_members
      has_ambassador_role
  verified-Stands =
      let u = p.user_id in
      let rows = update_many (λ q. q.id == id) (as_approved env) s.profiles in
      let one = grant-granted u (update_profile id (as_approved env) s) in
      let all : Stands u rows granted =
        for_users-keeps u rows
          (find_many (λ m. m.agency_profile_id == id && m.is_active && is_some m.user_id)
            (grant_ambassador_role u (update_profile id (as_approved env) s)).team_members)
          (grant_ambassador_role u (update_profile id (as_approved env) s)) one in
      elim (Bool-cases p.is_company) [
        | inl t ↦
            rw t (invite_team-keeps u rows env mailer id (owned_company id granted) granted all)
        | inr f ↦ rw f all
      ]

-- A request to be an ambassador that is pending and has all documents, and a member of the team if
-- it is an agency's, is approved: the profile is ACTIVE and verified, and its user, who has no other
-- profile, can operate as an ambassador.
pub verify-lets_operate :
    (env : Env) (mailer : Mailer) (id : ℕ) (p : ProfessionalProfile) (s : Db)
    → profile_by_id id s ≡ some p
    → find_first (λ q. q.user_id == p.user_id) s.profiles ≡ some p
    → p.status ≡ ProfessionalStatus.pending
    → is_none p.ambassador_requested_at ≡ false
    → has_all (has_document id s) (required_docs p.is_company) ≡ true
    → (p.is_company && not (exists (λ m. m.agency_profile_id == id) s.team_members)) ≡ false
    → let r = verify env mailer id s in
      (r.0 ≡ ok tt)
      × (profile_by_id id r.1 ≡ some (as_approved env p))
      × (assert_can_operate_as_ambassador p.user_id r.1 ≡ (ok p.id, r.1))
verify-lets_operate env mailer id p s f g a r d t =
    let own : (p.id == id) ≡ true = find_first-test (λ p. p.id == id) s.profiles {x = p} f in
    let stands = verified-Stands env mailer id p s in
    let found : profile_by_id id (after_verify env mailer id p s) ≡ some (as_approved env p) =
      rw
        (
          stands.1,
          find_first-update_many (λ p. p.id == id) (λ p. p.id == id) (as_approved env) s.profiles
              (λ p. refl),
          f,
          own,
        )
        refl in
    let mine : find_first (λ q. q.user_id == p.user_id) (after_verify env mailer id p s).profiles
        ≡ some (as_approved env p) =
      rw
        (
          stands.1,
          find_first-update_many (λ q. q.user_id == p.user_id) (λ p. p.id == id) (as_approved env)
              s.profiles (λ p. refl),
          g,
          own,
        )
        refl in
    rw (verify-done env mailer id p s f (rw a refl) r d t) (
      refl,
      found,
      let_through p.user_id (as_approved env p) (after_verify env mailer id p s) stands.0 mine refl
          refl,
    )
