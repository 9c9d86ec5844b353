-- ===== src/Cloudbeds/Enriched.antt =====
-- `enrichWithLocalUnits` (cloudbeds.service.ts) against what it promises: every reservable room with
-- the local units of its type.
use mathlib.Core.List.{append-nil, append_assoc}
use deptoflex_back.Cloudbeds.Search.{
  EnrichedRoom, UnitsByType, enrich_with_local_units, group_units, in_types, push_typed, push_unit,
  units_of,
}
use deptoflex_back.Prelude.{
  ==_iff, ==_self, All, All-mono, Bool-cases, List, Option, [], ap, arith, false, find_many,
  if◌then◌else◌, includes, inl, inr, is_none, ltb, map, none, refl, some, sym, true, ℕ, ◌&&◌, ◌++◌,
  ◌==?◌, ◌==◌, ◌∙◌, ◌∷◌, ◌≡◌,
}
use deptoflex_back.Prelude.Table.Answers.{find_many-cong, find_many-find_many, map-cong_All}
use deptoflex_back.Store.{AvailableRoom, RentalUnit}

other : (k t type : ℕ) → (k == t) ≡ false → (k == type) ≡ true → (t == type) ≡ false
other k t type d m = ground (arith, d, m)

units_of-push_unit :
    (type t : ℕ) (u : RentalUnit) (groups : UnitsByType)
    → units_of type (push_unit t u groups)
      ≡ units_of type groups ++ (if t == type then u ∷ [] else [])
unfolding units_of push_unit
units_of-push_unit type t u [] = ground arith
units_of-push_unit type t u ((k, us) ∷ groups) = elim (Bool-cases (k == t)) [
  | inl e ↦
      rw ((==_iff k t).0 e, ==_self t)
        (elim (Bool-cases (t == type)) [
          | inl m ↦ rw m refl
          | inr n ↦ rw n (sym (append-nil (units_of type groups)))
        ])
  | inr d ↦ elim (Bool-cases (k == type)) [
    | inl m ↦ rw (d, m, other k t type d m) (sym (append-nil us))
    | inr n ↦ rw (d, n) (units_of-push_unit type t u groups)
  ]
]

units_of-push_typed :
    (type : ℕ) (u : RentalUnit) (groups : UnitsByType) (o : Option ℕ)
    → units_of type (push_typed o u groups)
      ≡ units_of type groups ++ (if o ==? type then u ∷ [] else [])
unfolding push_typed
units_of-push_typed type u groups none = sym (append-nil (units_of type groups))
units_of-push_typed type u groups (some t) = units_of-push_unit type t u groups

-- The map holds under a type the units of that type, in their order.
units_of-group_units :
    (type : ℕ) (us : List RentalUnit) (groups : UnitsByType)
    → units_of type (group_units us groups)
      ≡ units_of type groups ++ find_many (λ u. u.cloudbeds_room_type_id ==? type) us
unfolding group_units find_many
units_of-group_units type [] groups = sym (append-nil (units_of type groups))
units_of-group_units type (u ∷ us) groups =
    let typed = u.cloudbeds_room_type_id in
    rw
      (
        units_of-group_units type us (push_typed typed u groups),
        units_of-push_typed type u groups typed,
      )
      (elim (Bool-cases (typed ==? type)) [
        | inl e ↦ rw e (append_assoc (units_of type groups) (u ∷ []) _)
        | inr n ↦ rw n (append_assoc (units_of type groups) [] _)
      ])

in_types_lem :
    (types : List ℕ) (type : ℕ) (o : Option ℕ)
    → includes types type ≡ true
    → (in_types types o && o ==? type) ≡ (o ==? type)
in_types_lem types type none i = refl
in_types_lem types type (some t) i = elim (Bool-cases (t == type)) [
  | inl e ↦ rw ((==_iff t type).0 e, i) refl
  | inr n ↦ rw n (ground arith)
]

-- Each room of the list has its type in the list's types.
types_cover :
    (rooms : List AvailableRoom)
    → All (λ r. includes (map (λ x. x.room_type_id) rooms) r.room_type_id ≡ true) rooms
types_cover [] = tt
types_cover (r ∷ rooms) = (
  ground (arith, ==_self r.room_type_id),
  All-mono _ _ (λ x i. ground (arith, i)) rooms (types_cover rooms),
)

-- What the map holds under the type of a reservable room
room_units :
    (property type : ℕ) (types : List ℕ) (units : List RentalUnit)
    → includes types type ≡ true
    → units_of type (
        group_units
          (find_many
            (λ u.
              u.property_id == property
              && is_none u.deleted_at
              && in_types types u.cloudbeds_room_type_id)
            units)
          [])
      ≡ find_many
          (λ u.
            u.property_id == property && is_none u.deleted_at && u.cloudbeds_room_type_id ==? type)
          units
unfolding units_of
room_units property type types units i =
    units_of-group_units type _ []
    ∙ find_many-find_many (λ u. u.cloudbeds_room_type_id ==? type) _ units
    ∙ find_many-cong _ _ units
        (λ u. ground (arith, in_types_lem types type u.cloudbeds_room_type_id i))

abbrev with_units : AvailableRoom → List RentalUnit → EnrichedRoom
with_units r us = record { room = r; local_units = map (λ u. u.id) us }

-- `enrichWithLocalUnits` keeps the rooms that are left, in their order, each with the ids of the
-- property's units that are not deleted and have the room's type, in their order.
pub enrich_with_local_units-matches :
    (property : ℕ) (rooms : List AvailableRoom) (units : List RentalUnit)
    → enrich_with_local_units property rooms units
      ≡ map
          (λ r. record {
            room = r;
            local_units =
                map
                  (λ u. u.id)
                  (find_many
                    (λ u.
                      u.property_id == property
                      && is_none u.deleted_at
                      && u.cloudbeds_room_type_id ==? r.room_type_id)
                    units);
          })
          (find_many (λ r. ltb 0 r.remaining) rooms)
unfolding enrich_with_local_units
enrich_with_local_units-matches property rooms units =
    let reservable = find_many (λ r. ltb 0 r.remaining) rooms in
    map-cong_All _ _ reservable (
      All-mono _ _
        (λ (r : AvailableRoom) i.
          ap (with_units r)
            (room_units property r.room_type_id (map (λ x. x.room_type_id) reservable) units i))
        reservable (types_cover reservable))
