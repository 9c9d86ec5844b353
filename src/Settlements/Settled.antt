-- ===== src/Settlements/Settled.antt =====
-- A commission is settled once
-- (`createSettlements` of src/modules/commissions/commission-settlements.service.ts).
use deptoflex_back.Prelude.{
  All, All-mono, Bool, Bool-cases, List, Option, String, [], ap, arith, create, exists, false,
  find_many, includes, inl, inr, is_some, map, none, refl, some, sym, true, ℕ, ◌&&◌, ◌==◌, ◌||◌,
  ◌∙◌, ◌∷◌, ◌≡◌,
}
use deptoflex_back.Prelude.Table.Laws.{All-update_many, exists-create, includes-map}
use deptoflex_back.Settlements.Service.{
  CreateSettlement, Groups, add_to_group, assign, booking_is_eligible, create_settlements,
  group_by_profile, is_eligible, is_empty, listed, new_settlement, put_in_group, settle_group,
  settle_groups, wanted,
}
use deptoflex_back.Store.{Commission, Db, Env, bad_request, err, ok, ◌>>=◌}
use deptoflex_back.Settlements.Totals.{HasProfile, eligible, to_settle, to_settle-HasProfile}
use deptoflex_back.Prelude.Table.Answers.{find_many-covers, find_many-find_many, find_many-none}

-- Some group has a commission with the id.
abbrev in_groups : ℕ → Groups → Bool
in_groups id [] = false
in_groups id (g ∷ groups) = includes (map (λ d. d.id) g.1) id || in_groups id groups

add_to_group-in_groups :
    (id profile : ℕ) (c : Commission) (groups : Groups)
    → in_groups id (add_to_group profile c groups) ≡ (c.id == id || in_groups id groups)
unfolding add_to_group
add_to_group-in_groups id profile c [] = ground arith
add_to_group-in_groups id profile c ((p, cs) ∷ groups) = elim (Bool-cases (p == profile)) [
  | inl t ↦ rw t (
      rw
        (
          includes-map (λ d. d.id) (create c cs) id,
          exists-create (λ d. d.id == id) c cs,
          includes-map (λ d. d.id) cs id,
        )
        (ground arith))
  | inr n ↦ rw n (rw (add_to_group-in_groups id profile c groups) (ground arith))
]

put_in_group-in_groups :
    (id : ℕ) (profile : Option ℕ) (c : Commission) (groups : Groups)
    → is_some profile ≡ true
    → in_groups id (put_in_group profile c groups) ≡ (c.id == id || in_groups id groups)
put_in_group-in_groups id none c groups h = ground arith
put_in_group-in_groups id (some p) c groups h = add_to_group-in_groups id p c groups

group_by_profile-in_groups :
    (id : ℕ) (cs : List Commission) (groups : Groups)
    → All HasProfile cs
    → in_groups id (group_by_profile cs groups)
      ≡ (exists (λ d. d.id == id) cs || in_groups id groups)
unfolding group_by_profile exists
group_by_profile-in_groups id [] groups h = ground arith
group_by_profile-in_groups id (c ∷ cs) groups h =
    group_by_profile-in_groups id cs (put_in_group c.professional_profile_id c groups) h.1
    ∙ rw (put_in_group-in_groups id c.professional_profile_id c groups h.0) (ground arith)

module _ (p : Commission → Bool) (closed : (t : ℕ) (c : Commission) → p (assign t c) ≡ false) where
  -- Of a commission that the test chooses: a group that is still to be settled has it.
  abbrev IsCovered : Groups → Commission → Type 0
  IsCovered groups c = p c ≡ true → in_groups c.id groups ≡ true

  settle_groups-IsCovered :
      (env : Env) (notes : Option String) (groups : Groups) (s : Db)
      → All (IsCovered groups) s.commissions
      → All (IsCovered []) (settle_groups env notes groups s).commissions
  unfolding settle_groups settle_group
  settle_groups-IsCovered env notes [] s h = h
  settle_groups-IsCovered env notes ((k, cs) ∷ groups) s h =
      settle_groups-IsCovered env notes groups (settle_group env notes k cs s) (
        All-update_many (IsCovered ((k, cs) ∷ groups)) (IsCovered groups) _ _ s.commissions
          (λ c a. elim (Bool-cases (includes (map (λ d. d.id) cs) c.id)) [
            | inl t ↦
                rw t
                  (λ e. ground (arith, closed (new_settlement env notes k cs s.settlements).id c))
            | inr n ↦ rw n (λ e. ground (arith, a e))
          ])
          h)

settle_groups-bookings :
    (env : Env) (notes : Option String) (groups : Groups) (s : Db)
    → (settle_groups env notes groups s).bookings ≡ s.bookings
unfolding settle_groups settle_group
settle_groups-bookings env notes [] s = refl
settle_groups-bookings env notes ((k, cs) ∷ groups) s =
    settle_groups-bookings env notes groups (settle_group env notes k cs s)

-- Whether the request asks for the commission.
unfoldable asks_for : List ℕ → Commission → Bool
asks_for [] c = true
asks_for (id ∷ ids) c = listed (id ∷ ids) c.professional_profile_id

find_many-all : (cs : List Commission) → find_many (λ c. true) cs ≡ cs
unfolding find_many
find_many-all [] = refl
find_many-all (c ∷ cs) = rw (find_many-all cs)

wanted_lem : (ids : List ℕ) (cs : List Commission) → wanted ids cs ≡ find_many (asks_for ids) cs
unfolding wanted asks_for
wanted_lem [] cs = sym (find_many-all cs)
wanted_lem (id ∷ ids) cs = refl

-- What the request settles, as one query.
unfoldable is_settled_by : CreateSettlement → Db → Commission → Bool
is_settled_by dto s c = is_eligible s c && asks_for dto.professional_profile_ids c

to_settle_lem :
    (dto : CreateSettlement) (s : Db)
    → to_settle dto s ≡ find_many (is_settled_by dto s) s.commissions
unfolding is_settled_by
to_settle_lem dto s =
    wanted_lem dto.professional_profile_ids (eligible s)
    ∙ find_many-find_many (asks_for dto.professional_profile_ids) (is_eligible s) s.commissions

is_settled_by-assign :
    (dto : CreateSettlement) (s : Db) (t : ℕ) (c : Commission)
    → is_settled_by dto s (assign t c) ≡ false
unfolding is_settled_by is_eligible
is_settled_by-assign dto s t c = ground arith

is_settled_by-bookings :
    (dto : CreateSettlement) (s s' : Db) (c : Commission)
    → s'.bookings ≡ s.bookings
    → is_settled_by dto s' c ≡ is_settled_by dto s c
unfolding is_settled_by is_eligible booking_is_eligible
is_settled_by-bookings dto s s' c e = rw e

create_settlements-none :
    (env : Env) (dto : CreateSettlement) (s : Db)
    → to_settle dto s ≡ []
    → create_settlements env dto s ≡ (err bad_request, s)
unfolding create_settlements ◌>>=◌ is_empty
create_settlements-none env dto s e = rw e

create_settlements-some :
    (env : Env) (dto : CreateSettlement) (s : Db)
    → is_empty (to_settle dto s) ≡ false
    → create_settlements env dto s
      ≡ (ok tt, settle_groups env dto.notes (group_by_profile (to_settle dto s) []) s)
unfolding create_settlements ◌>>=◌
create_settlements-some env dto s e = rw e

not_true : (b : Bool) → (b ≡ true → false ≡ true) → b ≡ false
not_true true k = ground (arith, k refl)
not_true false k = refl

eligible-IsCovered :
    (dto : CreateSettlement) (s : Db)
    → All
        (IsCovered
          (is_settled_by dto s)
          (is_settled_by-assign dto s)
          (group_by_profile (to_settle dto s) []))
        s.commissions
eligible-IsCovered dto s =
    All-mono
      (λ c.
        is_settled_by dto s c ≡ true
        → exists (λ d. d.id == c.id) (find_many (is_settled_by dto s) s.commissions) ≡ true)
      _
      (λ c k e.
        group_by_profile-in_groups c.id (to_settle dto s) [] (to_settle-HasProfile dto s)
        ∙ rw (to_settle_lem dto s) (rw (k e)))
      s.commissions (find_many-covers (λ d. d.id) (is_settled_by dto s) s.commissions)

is_empty_lem : (cs : List Commission) → is_empty cs ≡ true → cs ≡ []
unfolding is_empty
is_empty_lem [] e = refl
is_empty_lem (c ∷ cs) e = ground arith

create_settlements-empty :
    (env : Env) (dto : CreateSettlement) (s : Db)
    → is_empty (to_settle dto s) ≡ true
    → to_settle dto (create_settlements env dto s).1 ≡ []
create_settlements-empty env dto s e =
    ap (λ r. to_settle dto r.1) (create_settlements-none env dto s (is_empty_lem _ e))
    ∙ is_empty_lem _ e

-- The database after the settlements of the request.
abbrev settled : Env → CreateSettlement → Db → Db
settled env dto s = settle_groups env dto.notes (group_by_profile (to_settle dto s) []) s

settled-to_settle :
    (env : Env) (dto : CreateSettlement) (s : Db) → to_settle dto (settled env dto s) ≡ []
settled-to_settle env dto s =
    to_settle_lem dto (settled env dto s)
    ∙ find_many-none _ _ (
        All-mono (IsCovered (is_settled_by dto s) (is_settled_by-assign dto s) [])
          (λ c. is_settled_by dto (settled env dto s) c ≡ false)
          (λ c k.
            is_settled_by-bookings dto s (settled env dto s) c
              (settle_groups-bookings env dto.notes (group_by_profile (to_settle dto s) []) s)
            ∙ not_true _ k)
          (settled env dto s).commissions
          (settle_groups-IsCovered (is_settled_by dto s) (is_settled_by-assign dto s) env dto.notes
            (group_by_profile (to_settle dto s) []) s (eligible-IsCovered dto s)))

create_settlements-full :
    (env : Env) (dto : CreateSettlement) (s : Db)
    → is_empty (to_settle dto s) ≡ false
    → to_settle dto (create_settlements env dto s).1 ≡ []
create_settlements-full env dto s e =
    ap (λ r. to_settle dto r.1) (create_settlements-some env dto s e) ∙ settled-to_settle env dto s

create_settlements-to_settle :
    (env : Env) (dto : CreateSettlement) (s : Db)
    → to_settle dto (create_settlements env dto s).1 ≡ []
create_settlements-to_settle env dto s = elim (Bool-cases (is_empty (to_settle dto s))) [
  | inl t ↦ create_settlements-empty env dto s t
  | inr f ↦ create_settlements-full env dto s f
]

-- Once a request for settlements has been served, none of the commissions that it asks for is left
-- to settle: the same request again throws and changes nothing.
pub create_settlements-once :
    (env env' : Env) (dto : CreateSettlement) (s : Db)
    → create_settlements env' dto (create_settlements env dto s).1
      ≡ (err bad_request, (create_settlements env dto s).1)
create_settlements-once env env' dto s =
    create_settlements-none env' dto _ (create_settlements-to_settle env dto s)
