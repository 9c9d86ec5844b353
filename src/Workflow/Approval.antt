-- ===== src/Workflow/Approval.antt =====
-- When `approveCommission` of src/modules/commissions/commission-workflow.service.ts approves.
use deptoflex_back.Prelude.{
  Bool, Bool-cases, Option, Option-cases, ap, arith, false, find_first, if◌then◌else◌, inl, inr,
  is_none, is_some, none, not, refl, some, sym, true, update_many, ℕ, ◌&&◌, ◌===◌, ◌==◌, ◌∙◌, ◌≡◌,
  ◌≤◌,
}
use deptoflex_back.Store.{
  Commission, CommissionStatus, Db, Env, Result, bad_request, commission_status_code,
  commission_status_enum, err, not_found, ok, update_commissions, ◌>>=◌,
}
use deptoflex_back.Workflow.{approve, approve_commission}
use deptoflex_back.Prelude.Table.Answers.{find_first-update_self}
use deptoflex_back.Prelude.Table.Laws.{find_first-exists}
use deptoflex_back.Store.Hoare.{Post}

-- A commission that is neither paid nor cancelled, and in no settlement.
abbrev pub is_open : Commission → Bool
is_open c =
    not (c.status === CommissionStatus.paid)
    && not (c.status === CommissionStatus.cancelled)
    && is_none c.settlement_id

-- The answer for the commission that the id finds.
abbrev pub verdict : Option Commission → Result (Unit {0})
verdict none = err not_found
verdict (some c) = if is_open c then ok tt else err bad_request

abbrev pub IsApproved : Option Commission → Type 0
IsApproved none = ⊥
IsApproved (some c) = c.status ≡ CommissionStatus.approved

code_bound : (status : CommissionStatus) → commission_status_code status ≤ 4
code_bound CommissionStatus.pending = omega arith
code_bound CommissionStatus.pending_validation = omega arith
code_bound CommissionStatus.approved = omega arith
code_bound CommissionStatus.paid = omega arith
code_bound CommissionStatus.cancelled = omega arith

is_approved_lem :
    (status : CommissionStatus)
    → (status === CommissionStatus.approved) ≡ true
    → status ≡ CommissionStatus.approved
is_approved_lem CommissionStatus.pending e = ground arith
is_approved_lem CommissionStatus.pending_validation e = ground arith
is_approved_lem CommissionStatus.approved e = refl
is_approved_lem CommissionStatus.paid e = ground arith
is_approved_lem CommissionStatus.cancelled e = ground arith

module _ (env : Env) (id : ℕ) (s : Db) where
  abbrev found : Option Commission
  found = find_first (λ c. c.id == id) s.commissions

  missing : found ≡ none → approve_commission env id s ≡ (err not_found, s)
  unfolding approve_commission ◌>>=◌
  missing e = rw e refl

  closed :
      (c : Commission)
      → found ≡ some c
      → is_open c ≡ false
      → approve_commission env id s ≡ (err bad_request, s)
  unfolding approve_commission ◌>>=◌
  closed c e n = rw e (ground arith)

  abbrev approved_db : Db
  approved_db = record s {
    commissions = update_many (λ c. c.id == id) (approve env.now) s.commissions;
  }

  opened :
      (c : Commission)
      → found ≡ some c
      → is_open c ≡ true
      → (approve_commission env id s
          ≡ (ok tt, if c.status === CommissionStatus.approved then s else approved_db))
  unfolding approve_commission update_commissions ◌>>=◌
  opened c e n = rw e (ground (arith, code_bound c.status))

  update_many-IsApproved :
      (c : Commission)
      → found ≡ some c
      → IsApproved (find_first (λ c. c.id == id) approved_db.commissions)
  unfolding approve
  update_many-IsApproved c e =
      let again =
        find_first-update_self (λ c. c.id == id) (approve env.now) s.commissions (λ x. refl)
          (sym (find_first-exists (λ c. c.id == id) s.commissions) ∙ ap is_some e) in
      rw again.1 refl

  -- What an approval must do: answer by the verdict, and leave the commission approved where it
  -- returns and the database as it was where it throws.
  abbrev pub Decides : Result (Unit {0}) × Db → Type 0
  Decides r =
      (r.0 ≡ verdict found)
      × Post (λ s'. s' ≡ s) (λ _ s'. IsApproved (find_first (λ c. c.id == id) s'.commissions)) r

  -- A commission is approved just where the id finds one that is neither paid nor cancelled and is in
  -- no settlement; otherwise the approval throws, not found or bad request, and changes nothing.
  pub approve_commission-Decides : Decides (approve_commission env id s)
  approve_commission-Decides = elim (Option-cases found) [
    | inl n ↦ rw (missing n) (rw n refl, refl)
    | inr (c, e) ↦ elim (Bool-cases (is_open c)) [
      | inr f ↦ rw (closed c e f) (rw e (rw f refl), refl)
      | inl t ↦ elim (Bool-cases (c.status === CommissionStatus.approved)) [
        | inl a ↦ rw (opened c e t) (rw a (rw e (rw t refl), rw e (is_approved_lem c.status a)))
        | inr n ↦ rw (opened c e t) (rw n (rw e (rw t refl), update_many-IsApproved c e))
      ]
    ]
  ]
