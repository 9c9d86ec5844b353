-- ===== src/Professionals/Distinct.antt =====
-- `normalizeTeamMembers` (professionals.service.ts) against what it promises: a team without
-- repeated addresses and without the owner's.
use mathlib.Core.Option
use deptoflex_back.Prelude.{
  Bool, Bool-cases, List, Option, String, [], ap, arith, exists, false, first, if◌then◌else◌, inl,
  inr, is_some, map, none, not, refl, same_text, some, true, ◌&&◌, ◌||◌, ◌∙◌, ◌∷◌, ◌≡◌,
}
use deptoflex_back.Professionals.Request.{
  normalize_member, normalize_members, normalize_team_members, seen_before,
}
use deptoflex_back.Professionals.Team.{TeamMember, normalize_email}

-- No address is that of a later one.
unfoldable pub all_distinct : List String → Bool
all_distinct [] = true
all_distinct (e ∷ es) = not (exists (λ f. same_text e f) es) && all_distinct es

abbrev pub emails : List TeamMember → List String
emails ms = map (λ m. normalize_email m.email) ms

-- No address meets the test.
abbrev none_of : (String → Bool) → List String → Bool
none_of p es = not (exists p es)

none_of_either :
    (p q : String → Bool) (es : List String)
    → none_of (λ e. p e || q e) es ≡ (none_of p es && none_of q es)
unfolding exists
none_of_either p q [] = refl
none_of_either p q (e ∷ es) = ground (arith, none_of_either p q es)

-- The addresses of an answer, if there is one.
unfoldable pub emails_of : Option (List TeamMember) → Option (List String)
emails_of none = none
emails_of (some ns) = some (map (λ n. n.email) ns)

emails_of-map :
    (m : TeamMember) (o : Option (List TeamMember))
    → emails_of (Option.map (λ ns. normalize_member m ∷ ns) o)
      ≡ Option.map (λ es. normalize_email m.email ∷ es) (emails_of o)
unfolding emails_of normalize_member
emails_of-map m none = refl
emails_of-map m (some ns) = refl

some_if :
    {A B : Type 0} (f : A → B) (b : Bool) (x : A)
    → Option.map f (if b then some x else none) ≡ (if b then some (f x) else none)
some_if f true x = refl
some_if f false x = refl

refused : {A : Type 0} (a b : Bool) (x : A) → none ≡ (if a && false && b then some x else none)
refused true b x = refl
refused false b x = refl

in_order : (a b c d : Bool) → (a && (b && c) && d) ≡ (a && c && (b && d))
in_order a b c d = ground arith

normalize_members-accepts :
    (owner : String) (seen : List String) (ms : List TeamMember)
    → emails_of (normalize_members owner seen ms) ≡ (
        if none_of (λ e. same_text e owner) (emails ms)
          && none_of (seen_before seen) (emails ms)
          && all_distinct (emails ms)
        then some (emails ms)
        else none)
unfolding normalize_members exists all_distinct emails_of
normalize_members-accepts owner seen [] = refl
normalize_members-accepts owner seen (m ∷ ms) =
    let email = normalize_email m.email in
    let rest = normalize_members-accepts owner (email ∷ seen) ms in
    let split = none_of_either (λ e. same_text email e) (seen_before seen) (emails ms) in
    let kept = emails_of-map m (normalize_members owner (email ∷ seen) ms) in
    elim (Bool-cases (same_text email owner)) [
      | inl t ↦ rw t refl
      | inr o ↦ elim (Bool-cases (seen_before seen email)) [
        | inl t ↦ rw (o, t) (refused (none_of (λ e. same_text e owner) (emails ms)) _ _)
        | inr n ↦
            rw (o, n, kept, rest, split, some_if)
              (ap (λ accepted. if accepted then some (emails (m ∷ ms)) else none)
                (in_order (none_of (λ e. same_text e owner) (emails ms))
                  (none_of (λ e. same_text email e) (emails ms))
                  (none_of (seen_before seen) (emails ms)) (all_distinct (emails ms))))
      ]
    ]

unseen : (a b : Bool) → (a && true && b) ≡ (a && b)
unseen a b = ground arith

none_seen : (es : List String) → none_of (seen_before []) es ≡ true
unfolding exists
none_seen [] = refl
none_seen (e ∷ es) = none_seen es

-- The addresses of a team, trimmed and in lower case, are accepted in their order where there is a
-- member, none has the owner's address and no two have the same; any other team is refused.
pub normalize_team_members-accepts :
    (ms : List TeamMember) (owner : String)
    → emails_of (normalize_team_members ms owner) ≡ (
        if is_some (first ms)
          && not (exists (λ e. same_text e (normalize_email owner)) (emails ms))
          && all_distinct (emails ms)
        then some (emails ms)
        else none)
unfolding normalize_team_members emails_of
normalize_team_members-accepts [] owner = refl
normalize_team_members-accepts (m ∷ ms) owner =
    normalize_members-accepts (normalize_email owner) [] (m ∷ ms)
    ∙ rw (none_seen (emails (m ∷ ms)), unseen) refl
