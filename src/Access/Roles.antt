-- ===== src/Access/Roles.antt =====
-- What the grants and revocations of src/common/services/ambassador-access.service.ts are for: who
-- may operate as an ambassador after them.
use deptoflex_back.Prelude.{
  ==_iff, Bool, Bool-cases, List, Option, Option-cases, [], arith, delete_many, exists, false, inl,
  inr, is_some, none, refl, some, true, ℕ, ◌&&◌, ◌==?◌, ◌==◌, ◌||◌, ◌∙◌, ◌∷◌, ◌≡◌,
}
use deptoflex_back.Access.{
  assert_can_operate_as_ambassador, for_users, has_ambassador_role, is_ambassador_of,
  revoke_agency_access, revoke_ambassador_role,
}
use deptoflex_back.Store.{AgencyTeamMember, Db, err, forbidden, ◌>>=◌}
use deptoflex_back.Prelude.Table.Laws.{exists_mono}
use deptoflex_back.Prelude.Table.Answers.{==?_lem, exists-delete_many_self, exists-find_many}

pub without_role :
    (user_id : ℕ) (s : Db)
    → has_ambassador_role user_id s ≡ false
    → assert_can_operate_as_ambassador user_id s ≡ (err forbidden, s)
unfolding assert_can_operate_as_ambassador ◌>>=◌
without_role user_id s e = ground (arith, e)

exists-delete_many :
    {A : Type 0} (q p : A → Bool) (xs : List A)
    → exists q xs ≡ false
    → exists q (delete_many p xs) ≡ false
unfolding exists delete_many
exists-delete_many q p [] e = refl
exists-delete_many q p (x ∷ xs) e = ground (arith, exists-delete_many q p xs)

pub revoke-revoked : (u : ℕ) (s : Db) → has_ambassador_role u (revoke_ambassador_role u s) ≡ false
unfolding has_ambassador_role revoke_ambassador_role
revoke-revoked u s = exists-delete_many_self (is_ambassador_of u) s.user_roles

revoke-keeps :
    (u v : ℕ) (s : Db)
    → has_ambassador_role u s ≡ false
    → has_ambassador_role u (revoke_ambassador_role v s) ≡ false
unfolding has_ambassador_role revoke_ambassador_role
revoke-keeps u v s e = exists-delete_many (is_ambassador_of u) (is_ambassador_of v) s.user_roles e

linked :
    (agency owned u : ℕ) (column : Option ℕ)
    → (owned == agency && column ==? u) ≡ true
    → ((owned == agency && is_some column) && column ==? u) ≡ true
linked agency owned u none e = ground arith
linked agency owned u (some a) e = ground arith

module _ (u : ℕ) where
  for_users-keeps :
      (ms : List AgencyTeamMember) (s : Db)
      → has_ambassador_role u s ≡ false
      → has_ambassador_role u (for_users revoke_ambassador_role ms s) ≡ false
  unfolding for_users
  for_users-keeps [] s e = e
  for_users-keeps (m ∷ ms) s e = elim (Option-cases m.user_id) [
    | inl n ↦ rw n (for_users-keeps ms s e)
    | inr v ↦ rw v.1 (for_users-keeps ms (revoke_ambassador_role v.0 s) (revoke-keeps u v.0 s e))
  ]

  for_users-revokes :
      (ms : List AgencyTeamMember) (s : Db)
      → exists (λ m. m.user_id ==? u) ms ≡ true
      → has_ambassador_role u (for_users revoke_ambassador_role ms s) ≡ false
  unfolding for_users exists
  for_users-revokes [] s e = ground arith
  for_users-revokes (m ∷ ms) s e = elim (Bool-cases (m.user_id ==? u)) [
    | inl t ↦
        rw (==?_lem m.user_id u t)
          (for_users-keeps ms (revoke_ambassador_role u s) (revoke-revoked u s))
    | inr f ↦ elim (Option-cases m.user_id) [
      | inl n ↦ rw n (for_users-revokes ms s (ground arith))
      | inr v ↦ rw v.1 (for_users-revokes ms (revoke_ambassador_role v.0 s) (ground arith))
    ]
  ]

  pub revoke_agency_access-revokes :
      (agency owner : ℕ) (s : Db)
      → (u == owner
          || exists (λ m. m.agency_profile_id == agency && m.user_id ==? u) s.team_members)
        ≡ true
      → has_ambassador_role u (revoke_agency_access agency owner s) ≡ false
  unfolding revoke_agency_access
  revoke_agency_access-revokes agency owner s e = elim (Bool-cases (u == owner)) [
    | inl t ↦ for_users-keeps _ _ (rw ((==_iff u owner).0 t) (revoke-revoked owner s))
    | inr f ↦ for_users-revokes _ _ (
        exists-find_many (λ m. m.user_id ==? u) _ s.team_members
        ∙ exists_mono (λ m. m.agency_profile_id == agency && m.user_id ==? u) _ s.team_members
            (λ m h. linked agency m.agency_profile_id u m.user_id h) (ground arith))
  ]

  -- Once the access of an agency is revoked, its owner and every member linked to a user are refused
  -- as ambassadors.
  pub revoke_agency_access-forbids :
      (agency owner : ℕ) (s : Db)
      → (u == owner
          || exists (λ m. m.agency_profile_id == agency && m.user_id ==? u) s.team_members)
        ≡ true
      → assert_can_operate_as_ambassador u (revoke_agency_access agency owner s)
        ≡ (err forbidden, revoke_agency_access agency owner s)
  revoke_agency_access-forbids agency owner s e =
      without_role u _ (revoke_agency_access-revokes agency owner s e)
