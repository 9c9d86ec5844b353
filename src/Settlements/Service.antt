-- ===== src/Settlements/Service.antt =====
-- The methods of `CommissionSettlementsService` that write.
use deptoflex_back.Prelude.{
  Bool, List, Option, String, [], create, exists, false, find_first, find_many, if◌then◌else◌,
  includes, is_none, is_some, map, none, not, some, true, update_many, ℕ, ◌&&◌, ◌+◌, ◌===◌, ◌==?◌,
  ◌==◌, ◌or_else◌, ◌otherwise◌, ◌||◌, ◌∷◌,
}
use deptoflex_back.Store.{
  Action, BookingStatus, Commission, CommissionStatus, Db, Env, Settlement, SettlementStatus,
  bad_request, booking_status_enum, commission_status_enum, gets, modify, not_found, or_throw,
  settlement_status_enum, throw_if, transaction, update_commissions, ◌>>=◌, ◌>>◌,
}

-- `ELIGIBLE_BOOKING_STATUSES`
abbrev pub is_eligible_status : BookingStatus → Bool
is_eligible_status status = status === BookingStatus.confirmed || status === BookingStatus.completed

-- `booking: { deletedAt: null, status: { in: … } }`, over the relation
unfoldable pub booking_is_eligible : ℕ → Db → Bool
booking_is_eligible booking_id s =
    exists (λ b. b.id == booking_id && is_none b.deleted_at && is_eligible_status b.status)
      s.bookings

-- `eligibleWhere()`
unfoldable pub is_eligible : Db → Commission → Bool
unfolding booking_is_eligible
is_eligible s c =
    c.status === CommissionStatus.approved
    && is_none c.settlement_id
    && is_some c.professional_profile_id
    && booking_is_eligible c.booking_id s

-- `CreateSettlementDto`; no ids at all ask for every ambassador.
pub record CreateSettlement : Type 0 where
  pub professional_profile_ids : List ℕ
  pub notes : Option String

abbrev pub listed : List ℕ → Option ℕ → Bool
listed ids none = false
listed ids (some p) = includes ids p

-- `filtered`
unfoldable pub wanted : List ℕ → List Commission → List Commission
wanted [] cs = cs
wanted (id ∷ ids) cs = find_many (λ c. listed (id ∷ ids) c.professional_profile_id) cs

-- The map `byProfile`, in the order of insertion.
abbrev pub Groups : Type 0
Groups = List (ℕ × List Commission)

unfoldable pub add_to_group : ℕ → Commission → Groups → Groups
add_to_group profile c [] = (profile, c ∷ []) ∷ []
add_to_group profile c ((p, cs) ∷ groups) =
    if p == profile then (p, create c cs) ∷ groups else (p, cs) ∷ add_to_group profile c groups

abbrev pub put_in_group : Option ℕ → Commission → Groups → Groups
put_in_group none c groups = groups
put_in_group (some profile) c groups = add_to_group profile c groups

-- The loop that fills `byProfile`.
unfoldable pub group_by_profile : List Commission → Groups → Groups
unfolding add_to_group
group_by_profile [] groups = groups
group_by_profile (c ∷ cs) groups =
    group_by_profile cs (put_in_group c.professional_profile_id c groups)

-- `commissions.reduce((sum, c) => sum.add(c.commissionAmount), new Decimal(0))`
unfoldable pub total_of : ℕ → List Commission → ℕ
total_of acc [] = acc
total_of acc (c ∷ cs) = total_of (acc + c.commission_amount) cs

abbrev pub currency_of : List Commission → String
currency_of [] = "ARS"
currency_of (c ∷ cs) = c.currency

-- `data` of `tx.commissionSettlement.create`
unfoldable pub new_settlement :
    Env → Option String → ℕ → List Commission → List Settlement → Settlement
unfolding total_of
new_settlement env notes profile cs rows = record {
  id = env.fresh (map (λ t. t.id) rows);
  professional_profile_id = profile;
  status = SettlementStatus.draft;
  total_amount = total_of 0 cs;
  currency = currency_of cs;
  payment_method = none;
  payment_reference = none;
  notes = notes;
  paid_at = none;
  paid_by = none;
}

abbrev pub assign : ℕ → Commission → Commission
assign settlement_id c = record c { settlement_id = some settlement_id }

-- One round of the loop: the settlement of a group, and its commissions assigned to it.
unfoldable pub settle_group : Env → Option String → ℕ → List Commission → Db → Db
unfolding new_settlement
settle_group env notes profile cs s =
    let t = new_settlement env notes profile cs s.settlements in
    record s {
      settlements = create t s.settlements;
      commissions =
          update_many (λ c. includes (map (λ d. d.id) cs) c.id) (assign t.id) s.commissions;
    }

unfoldable pub settle_groups : Env → Option String → Groups → Db → Db
settle_groups env notes [] s = s
settle_groups env notes ((profile, cs) ∷ groups) s =
    settle_groups env notes groups (settle_group env notes profile cs s)

unfoldable pub is_empty : List Commission → Bool
is_empty [] = true
is_empty (c ∷ cs) = false

-- `createSettlements`
unfoldable pub create_settlements : Env → CreateSettlement → Action (Unit {0})
unfolding is_empty
create_settlements env dto = do
  eligible ← gets (λ s. find_many (is_eligible s) s.commissions)
  let filtered = wanted dto.professional_profile_ids eligible
  throw_if (is_empty filtered) bad_request
  modify (settle_groups env dto.notes (group_by_profile filtered []))

-- `MarkSettlementPaidDto`
pub record MarkSettlementPaid : Type 0 where
  pub payment_method : Option String
  pub payment_reference : Option String
  pub notes : Option String
  pub paid_at : Option ℕ

abbrev pub find_settlement : ℕ → Action Settlement
find_settlement id = do
  settlement ← gets (λ s. find_first (λ t. t.id == id) s.settlements)
  or_throw settlement not_found

-- The ids of the commissions of a settlement.
unfoldable pub commission_ids : ℕ → Db → List ℕ
commission_ids id s = map (λ c. c.id) (find_many (λ c. c.settlement_id ==? id) s.commissions)

unfoldable pub pay_settlement : ℕ → MarkSettlementPaid → ℕ → Settlement → Settlement
pay_settlement paid_at dto paid_by t = record t {
  status = SettlementStatus.paid;
  paid_at = some paid_at;
  paid_by = some paid_by;
  payment_method = dto.payment_method or_else t.payment_method;
  payment_reference = dto.payment_reference or_else t.payment_reference;
  notes = dto.notes or_else t.notes;
}

abbrev pub pay_commission : ℕ → Commission → Commission
pay_commission paid_at c = record c { status = CommissionStatus.paid; paid_at = some paid_at }

-- `markPaid`
unfoldable pub mark_paid : Env → ℕ → MarkSettlementPaid → ℕ → Action (Unit {0})
unfolding pay_settlement commission_ids
mark_paid env id dto paid_by = do
  settlement ← find_settlement id
  throw_if (not (settlement.status === SettlementStatus.draft)) bad_request
  let paid_at = dto.paid_at otherwise env.now
  ids ← gets (commission_ids id)
  transaction do
    modify λ s. record s {
      settlements =
          update_many (λ t. t.id == id) (pay_settlement paid_at dto paid_by) s.settlements;
    }
    update_commissions (λ c. includes ids c.id) (pay_commission paid_at)

abbrev pub release : Commission → Commission
release c = record c { settlement_id = none }

-- `cancelDraft`
unfoldable pub cancel_draft : ℕ → Action (Unit {0})
cancel_draft id = do
  settlement ← find_settlement id
  throw_if (not (settlement.status === SettlementStatus.draft)) bad_request
  transaction do
    update_commissions (λ c. c.settlement_id ==? id) release
    modify λ s. record s {
      settlements =
          update_many (λ t. t.id == id) (λ t. record t { status = SettlementStatus.cancelled })
            s.settlements;
    }
