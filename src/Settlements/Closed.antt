-- ===== src/Settlements/Closed.antt =====
-- How a settlement ends
-- (`markPaid` and `cancelDraft` of src/modules/commissions/commission-settlements.service.ts).
use deptoflex_back.Prelude.{
  All, All-mono, Bool-cases, List, Option-cases, [], ap, arith, exists, false, find_first,
  find_many, includes, inl, inr, is_some, none, refl, some, sym, true, update_many, ℕ, ◌===◌, ◌==?◌,
  ◌==◌, ◌otherwise◌, ◌∙◌, ◌∷◌, ◌≡◌,
}
use deptoflex_back.Prelude.Table.Laws.{All-update_many, find_first-exists, includes-map}
use deptoflex_back.Settlements.Service.{
  MarkSettlementPaid, cancel_draft, commission_ids, mark_paid, pay_commission, pay_settlement,
  release,
}
use deptoflex_back.Store.{
  Commission, CommissionStatus, Db, Env, Settlement, SettlementStatus, bad_request,
  commission_status_enum, err, not_found, ok, settlement_status_enum, update_commissions, ◌>>=◌,
}
use deptoflex_back.Store.Hoare.{Post}
use deptoflex_back.Prelude.Table.Answers.{find_first-update_self, find_many-covers}

module _ (id : ℕ) where
  -- The settlement that the id finds is not a draft any more.
  abbrev IsClosed : Db → Type 0
  IsClosed s =
      (t : Settlement) × (find_first (λ t. t.id == id) s.settlements ≡ some t)
      × ((t.status === SettlementStatus.draft) ≡ false)

  mark_paid-closed :
      (env : Env) (dto : MarkSettlementPaid) (by : ℕ) (s : Db)
      → IsClosed s
      → mark_paid env id dto by s ≡ (err bad_request, s)
  unfolding mark_paid ◌>>=◌
  mark_paid-closed env dto by s c = rw (c.1, c.2) refl

  cancel_draft-closed : (s : Db) → IsClosed s → cancel_draft id s ≡ (err bad_request, s)
  unfolding cancel_draft ◌>>=◌
  cancel_draft-closed s c = rw (c.1, c.2) refl

  -- A settlement that the id finds is closed by an update that gives it another status.
  update-IsClosed :
      (f : Settlement → Settlement) (s s' : Db) (t : Settlement)
      → ((x : Settlement) → (f x).id ≡ x.id)
      → ((x : Settlement) → ((f x).status === SettlementStatus.draft) ≡ false)
      → find_first (λ t. t.id == id) s.settlements ≡ some t
      → s'.settlements ≡ update_many (λ t. t.id == id) f s.settlements
      → IsClosed s'
  update-IsClosed f s s' t same ended e u =
      let found =
        find_first-update_self (λ t. t.id == id) f s.settlements
          (λ x. ap (λ (i : ℕ). i == id) (same x))
          (sym (find_first-exists (λ t. t.id == id) s.settlements) ∙ ap is_some e) in
      (f found.0, ap (find_first (λ t. t.id == id)) u ∙ found.1, ended found.0)

  released :
      (cs : List Commission)
      → exists (λ c. c.settlement_id ==? id) (update_many (λ c. c.settlement_id ==? id) release cs)
        ≡ false
  unfolding exists update_many
  released [] = refl
  released (c ∷ cs) = elim (Bool-cases (c.settlement_id ==? id)) [
    | inl t ↦ rw t (released cs)
    | inr f ↦ rw f (rw f (released cs))
  ]

  paid :
      (paid_at : ℕ) (s : Db)
      → All
          (λ c. (c.settlement_id ==? id) ≡ true → c.status ≡ CommissionStatus.paid)
          (update_many
            (λ c. includes (commission_ids id s) c.id)
            (pay_commission paid_at)
            s.commissions)
  unfolding commission_ids
  paid paid_at s =
      All-update_many
        (λ c. (c.settlement_id ==? id) ≡ true → includes (commission_ids id s) c.id ≡ true)
        (λ c. (c.settlement_id ==? id) ≡ true → c.status ≡ CommissionStatus.paid) _ _ s.commissions
        (λ c k. elim (Bool-cases (includes (commission_ids id s) c.id)) [
          | inl t ↦ rw t (λ _. refl)
          | inr f ↦ rw f (λ e. ground (arith, k e, f))
        ])
        (All-mono
          (λ c.
            (c.settlement_id ==? id) ≡ true
            → exists (λ d. d.id == c.id) (find_many (λ c. c.settlement_id ==? id) s.commissions)
              ≡ true)
          _
          (λ c k e.
            includes-map (λ d. d.id) (find_many (λ c. c.settlement_id ==? id) s.commissions) c.id
            ∙ k e)
          s.commissions (find_many-covers (λ d. d.id) (λ c. c.settlement_id ==? id) s.commissions))

  -- What a payment, and a cancellation, leave of the database.
  abbrev paid_db : Env → MarkSettlementPaid → ℕ → Db → Db
  paid_db env dto by s = record s {
    settlements =
        update_many (λ t. t.id == id) (pay_settlement (dto.paid_at otherwise env.now) dto by)
          s.settlements;
    commissions =
        update_many (λ c. includes (commission_ids id s) c.id)
          (pay_commission (dto.paid_at otherwise env.now)) s.commissions;
  }

  abbrev cancelled_db : Db → Db
  cancelled_db s = record s {
    settlements =
        update_many (λ t. t.id == id) (λ t. record t { status = SettlementStatus.cancelled })
          s.settlements;
    commissions = update_many (λ c. c.settlement_id ==? id) release s.commissions;
  }

  module _ (s : Db) where
    missing :
        (env : Env) (dto : MarkSettlementPaid) (by : ℕ)
        → find_first (λ t. t.id == id) s.settlements ≡ none
        → (mark_paid env id dto by s ≡ (err not_found, s))
          × (cancel_draft id s ≡ (err not_found, s))
    unfolding mark_paid cancel_draft ◌>>=◌
    missing env dto by e = (rw e refl, rw e refl)

    module _ (t : Settlement) (e : find_first (λ t. t.id == id) s.settlements ≡ some t)
        (d : (t.status === SettlementStatus.draft) ≡ true) where
      mark_paid-draft :
          (env : Env) (dto : MarkSettlementPaid) (by : ℕ)
          → mark_paid env id dto by s ≡ (ok tt, paid_db env dto by s)
      unfolding mark_paid update_commissions ◌>>=◌
      mark_paid-draft env dto by = rw (e, d) refl

      cancel_draft-draft : cancel_draft id s ≡ (ok tt, cancelled_db s)
      unfolding cancel_draft update_commissions ◌>>=◌
      cancel_draft-draft = rw (e, d) refl

      paid_db-IsClosed :
          (env : Env) (dto : MarkSettlementPaid) (by : ℕ) → IsClosed (paid_db env dto by s)
      unfolding pay_settlement
      paid_db-IsClosed env dto by =
          update-IsClosed (pay_settlement (dto.paid_at otherwise env.now) dto by) s
            (paid_db env dto by s) t (λ x. refl) (λ x. refl) e refl

      cancelled_db-IsClosed : IsClosed (cancelled_db s)
      cancelled_db-IsClosed =
          update-IsClosed (λ t. record t { status = SettlementStatus.cancelled }) s (cancelled_db s)
            t (λ x. refl) (λ x. refl) e refl

  -- Marking a settlement as paid throws and changes nothing, or leaves every commission of it PAID
  -- and the settlement closed: neither method works on it any more.
  pub mark_paid-closes :
      (env env' : Env) (dto dto' : MarkSettlementPaid) (by by' : ℕ) (s : Db)
      → Post
          (λ s'. s' ≡ s)
          (λ _ s'.
            All
              (λ c. (c.settlement_id ==? id) ≡ true → c.status ≡ CommissionStatus.paid)
              s'.commissions
            × (mark_paid env' id dto' by' s' ≡ (err bad_request, s'))
            × (cancel_draft id s' ≡ (err bad_request, s')))
          (mark_paid env id dto by s)
  mark_paid-closes env env' dto dto' by by' s =
      elim (Option-cases (find_first (λ t. t.id == id) s.settlements)) [
        | inl n ↦ rw (missing s env dto by n).0 refl
        | inr (t, e) ↦ elim (Bool-cases (t.status === SettlementStatus.draft)) [
          | inl d ↦
              let c = paid_db-IsClosed s t e d env dto by in
              rw (mark_paid-draft s t e d env dto by) (
                paid (dto.paid_at otherwise env.now) s,
                mark_paid-closed env' dto' by' _ c,
                cancel_draft-closed _ c,
              )
          | inr f ↦ rw (mark_paid-closed env dto by s (t, e, f)) refl
        ]
      ]

  -- Cancelling a draft throws and changes nothing, or leaves no commission in the settlement and the
  -- settlement closed: neither method works on it any more.
  pub cancel_draft-closes :
      (env : Env) (dto : MarkSettlementPaid) (by : ℕ) (s : Db)
      → Post
          (λ s'. s' ≡ s)
          (λ _ s'.
            (exists (λ c. c.settlement_id ==? id) s'.commissions ≡ false)
            × (mark_paid env id dto by s' ≡ (err bad_request, s'))
            × (cancel_draft id s' ≡ (err bad_request, s')))
          (cancel_draft id s)
  cancel_draft-closes env dto by s =
      elim (Option-cases (find_first (λ t. t.id == id) s.settlements)) [
        | inl n ↦ rw (missing s env dto by n).1 refl
        | inr (t, e) ↦ elim (Bool-cases (t.status === SettlementStatus.draft)) [
          | inl d ↦
              let c = cancelled_db-IsClosed s t e d in
              rw (cancel_draft-draft s t e d)
                (released s.commissions, mark_paid-closed env dto by _ c, cancel_draft-closed _ c)
          | inr f ↦ rw (cancel_draft-closed s (t, e, f)) refl
        ]
      ]
