-- ===== src/Settlements/Totals.antt =====
-- The amounts of settlements and of their preview
-- (src/modules/commissions/commission-settlements.service.ts): no money appears or is lost.
use deptoflex_back.Prelude.{
  All, All-mono, Bool-cases, List, Option, String, [], arith, create, find_many, inl, inr, is_some,
  map, none, refl, some, sum_of, sum_of-append, true, ℕ, ◌+◌, ◌==◌, ◌∙◌, ◌∷◌, ◌≡◌,
}
use deptoflex_back.Settlements.Service.{
  CreateSettlement, Groups, add_to_group, create_settlements, group_by_profile, is_eligible,
  is_empty, new_settlement, put_in_group, settle_group, settle_groups, total_of, wanted,
}
use deptoflex_back.Store.{Commission, Db, Env, ◌>>=◌}
use deptoflex_back.Prelude.Table.Laws.{All-find_many}
use deptoflex_back.Settlements.Preview.{grand_total_of, preview_group, settlement_preview}
use deptoflex_back.Prelude.Table.Answers.{find_many-All}

abbrev pub amount_of : List Commission → ℕ
amount_of cs = sum_of (λ c. c.commission_amount) cs

-- The amount of all the commissions of the groups.
abbrev pub amount_of_groups : Groups → ℕ
amount_of_groups groups = sum_of (λ g. amount_of g.1) groups

-- The total of all settlements.
abbrev pub settled_total : Db → ℕ
settled_total s = sum_of (λ t. t.total_amount) s.settlements

abbrev pub HasProfile : Commission → Type 0
HasProfile c = is_some c.professional_profile_id ≡ true

total_of_lem : (acc : ℕ) (cs : List Commission) → total_of acc cs ≡ acc + amount_of cs
unfolding total_of
total_of_lem acc [] = omega arith
total_of_lem acc (c ∷ cs) = total_of_lem (acc + c.commission_amount) cs ∙ omega arith

amount_of-create :
    (c : Commission) (cs : List Commission)
    → amount_of (create c cs) ≡ amount_of cs + c.commission_amount
amount_of-create c cs = sum_of-append (λ d. d.commission_amount) cs (c ∷ []) ∙ omega arith

add_to_group-amount :
    (profile : ℕ) (c : Commission) (groups : Groups)
    → amount_of_groups (add_to_group profile c groups)
      ≡ c.commission_amount + amount_of_groups groups
unfolding add_to_group
add_to_group-amount profile c [] = omega arith
add_to_group-amount profile c ((p, cs) ∷ groups) = elim (Bool-cases (p == profile)) [
  | inl t ↦ rw t (omega (arith, amount_of-create c cs))
  | inr n ↦ rw n (omega (arith, add_to_group-amount profile c groups))
]

put_in_group-amount :
    (profile : Option ℕ) (c : Commission) (groups : Groups)
    → is_some profile ≡ true
    → amount_of_groups (put_in_group profile c groups)
      ≡ c.commission_amount + amount_of_groups groups
put_in_group-amount none c groups h = ground arith
put_in_group-amount (some p) c groups h = add_to_group-amount p c groups

pub group_by_profile-amount :
    (cs : List Commission) (groups : Groups)
    → All HasProfile cs
    → amount_of_groups (group_by_profile cs groups) ≡ amount_of_groups groups + amount_of cs
unfolding group_by_profile
group_by_profile-amount [] groups h = omega arith
group_by_profile-amount (c ∷ cs) groups h =
    group_by_profile-amount cs (put_in_group c.professional_profile_id c groups) h.1
    ∙ omega (arith, put_in_group-amount c.professional_profile_id c groups h.0)

settle_groups-total :
    (env : Env) (notes : Option String) (groups : Groups) (s : Db)
    → settled_total (settle_groups env notes groups s) ≡ settled_total s + amount_of_groups groups
unfolding settle_groups settle_group new_settlement
settle_groups-total env notes [] s = omega arith
settle_groups-total env notes ((p, cs) ∷ groups) s =
    settle_groups-total env notes groups (settle_group env notes p cs s)
    ∙ omega (
      arith,
      total_of_lem 0 cs,
      sum_of-append (λ t. t.total_amount) s.settlements
          (new_settlement env notes p cs s.settlements ∷ []),
    )

is_eligible-HasProfile : (s : Db) (c : Commission) → is_eligible s c ≡ true → HasProfile c
unfolding is_eligible
is_eligible-HasProfile s c h = ground arith

-- The commissions that are eligible, and those of them that a request settles.
abbrev pub eligible : Db → List Commission
eligible s = find_many (is_eligible s) s.commissions

abbrev pub to_settle : CreateSettlement → Db → List Commission
to_settle dto s = wanted dto.professional_profile_ids (eligible s)

eligible-HasProfile : (s : Db) → All HasProfile (eligible s)
eligible-HasProfile s =
    All-mono (λ c. is_eligible s c ≡ true) HasProfile (is_eligible-HasProfile s) _
      (find_many-All (is_eligible s) s.commissions)

wanted-HasProfile :
    (ids : List ℕ) (cs : List Commission) → All HasProfile cs → All HasProfile (wanted ids cs)
unfolding wanted
wanted-HasProfile [] cs h = h
wanted-HasProfile (id ∷ ids) cs h = All-find_many HasProfile HasProfile _ cs (λ c k _. k) h

pub to_settle-HasProfile : (dto : CreateSettlement) (s : Db) → All HasProfile (to_settle dto s)
to_settle-HasProfile dto s =
    wanted-HasProfile dto.professional_profile_ids (eligible s) (eligible-HasProfile s)

to_settle-amount :
    (dto : CreateSettlement) (s : Db)
    → amount_of_groups (group_by_profile (to_settle dto s) []) ≡ amount_of (to_settle dto s)
to_settle-amount dto s =
    group_by_profile-amount (to_settle dto s) []
      (wanted-HasProfile dto.professional_profile_ids (eligible s) (eligible-HasProfile s))
    ∙ omega arith

is_empty-amount : (cs : List Commission) → is_empty cs ≡ true → amount_of cs ≡ 0
unfolding is_empty
is_empty-amount [] h = refl
is_empty-amount (c ∷ cs) h = ground arith

-- A request for settlements adds to the total of all settlements the amounts of the eligible
-- commissions that it asks for, no more and no less, whether it returns or throws.
pub create_settlements-total :
    (env : Env) (dto : CreateSettlement) (s : Db)
    → settled_total (create_settlements env dto s).1 ≡ settled_total s + amount_of (to_settle dto s)
unfolding create_settlements ◌>>=◌
create_settlements-total env dto s = elim (Bool-cases (is_empty (to_settle dto s))) [
  | inl t ↦ rw t (omega (arith, is_empty-amount (to_settle dto s) t))
  | inr f ↦ rw f (
      settle_groups-total env dto.notes (group_by_profile (to_settle dto s) []) s
      ∙ omega (arith, to_settle-amount dto s))
]

preview-grand_total :
    (acc : ℕ) (groups : Groups)
    → grand_total_of acc (map preview_group groups) ≡ acc + amount_of_groups groups
unfolding grand_total_of preview_group
preview-grand_total acc [] = omega arith
preview-grand_total acc ((p, cs) ∷ groups) =
    preview-grand_total (acc + total_of 0 cs) groups ∙ omega (arith, total_of_lem 0 cs)

-- The grand total of the preview is what a request for all settlements would add.
pub settlement_preview-grand_total :
    (env : Env) (notes : Option String) (s : Db)
    → settled_total
        (create_settlements env (record { professional_profile_ids = []; notes = notes }) s).1
      ≡ settled_total s + (settlement_preview s).grand_total
unfolding settlement_preview wanted
settlement_preview-grand_total env notes s =
    let dto : CreateSettlement = record { professional_profile_ids = []; notes = notes } in
    create_settlements-total env dto s
    ∙ omega
        (arith, to_settle-amount dto s, preview-grand_total 0 (group_by_profile (eligible s) []))
