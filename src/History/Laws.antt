-- ===== src/History/Laws.antt =====
-- How the invariant of the history survives a change of status, an update and a new booking.
use mathlib.Core.Bool.{false≢true}
use mathlib.Core.List.{append-nil, append_assoc}
use deptoflex_back.Prelude.{
  ==_iff, All, All-append, All-mono, All-zip, Bool, Bool-cases, List, [], ap, arith, create, exists,
  false, if◌then◌else◌, inl, inr, none, refl, some, sym, true, update_many, ℕ, ◌++◌, ◌==◌, ◌∙◌, ◌∷◌,
  ◌≡◌,
}
use deptoflex_back.Prelude.Table.Laws.{
  All-update_many, All_of_not_exists, exists-create, exists-update_many,
}
use deptoflex_back.Store.{Booking, StatusHistory}
use deptoflex_back.History.{IsChained, IsLogged, replay}

pub replay-create :
    (id : ℕ) (h : StatusHistory) (hs : List StatusHistory)
    → replay id (create h hs) ≡ (if h.booking_id == id then some h.to_status else replay id hs)
unfolding replay
replay-create id h [] = ground arith
replay-create id h (g ∷ hs) = ground (arith, replay-create id h hs)

IsChained-create :
    (before : List StatusHistory) (h : StatusHistory) (hs : List StatusHistory)
    → IsChained before hs
    → h.from_status ≡ replay h.booking_id (before ++ hs)
    → IsChained before (create h hs)
unfolding IsChained
IsChained-create before h [] c e = (rw (append-nil) at e, tt)
IsChained-create before h (g ∷ hs) c e =
    (c.0, IsChained-create (create g before) h hs c.1 (rw (append_assoc) e))

-- An id that no booking has is in no entry.
replay-unknown :
    (bs : List Booking) (id : ℕ) (hs : List StatusHistory)
    → exists (λ b. b.id == id) bs ≡ false
    → All (λ h. exists (λ b. b.id == h.booking_id) bs ≡ true) hs
    → replay id hs ≡ none
unfolding replay
replay-unknown bs id [] u k = refl
replay-unknown bs id (h ∷ hs) u k = elim (Bool-cases (h.booking_id == id)) [
  | inl e ↦ absurd (false≢true (sym u ∙ rw (← (==_iff h.booking_id id).0 e) k.0))
  | inr e ↦ rw (e, replay-unknown bs id hs u k.1) refl
]

module _ (bs : List Booking) (hs : List StatusHistory) where
  -- A booking moves to another status, and the history records from where.
  pub IsLogged-move :
      (id : ℕ) (f : Booking → Booking) (h : StatusHistory)
      → ((b : Booking) → (f b).id ≡ b.id)
      → ((b : Booking) → (f b).status ≡ h.to_status)
      → h.booking_id ≡ id
      → h.from_status ≡ replay id hs
      → exists (λ b. b.id == id) bs ≡ true
      → IsLogged bs hs
      → IsLogged (update_many (λ b. b.id == id) f bs) (create h hs)
  IsLogged-move id f h same moved own from there l =
      let stays = λ (j : ℕ).
        exists-update_many (λ (b : Booking). b.id == j) (λ (b : Booking). b.id == id) f bs
          (λ b. ap (λ (i : ℕ). i == j) (same b)) in
      record {
        current =
            All-update_many _ _ (λ b. b.id == id) f bs
              (λ b e.
                ground
                  (arith, same b, moved b, replay-create (f b).id h hs, replay-create b.id h hs))
              l.current;
        chained = IsChained-create [] h hs l.chained (rw own from);
        known =
            All-append _ hs (h ∷ []) (All-mono _ _ (λ x e. stays x.booking_id ∙ e) hs l.known)
              (stays h.booking_id ∙ rw own there, tt);
      }

  -- An update of other columns.
  pub IsLogged-keep :
      (p : Booking → Bool) (f : Booking → Booking)
      → ((b : Booking) → (f b).id ≡ b.id)
      → ((b : Booking) → (f b).status ≡ b.status)
      → IsLogged bs hs
      → IsLogged (update_many p f bs) hs
  IsLogged-keep p f same kept l = record {
    current = All-update_many _ _ p f bs (λ b e. ground (arith, same b, kept b)) l.current;
    chained = l.chained;
    known =
        All-mono _ _
          (λ x e.
            exists-update_many (λ (b : Booking). b.id == x.booking_id) p f bs
              (λ b. ap (λ (i : ℕ). i == x.booking_id) (same b))
            ∙ e)
          hs l.known;
  }

  -- A new booking with its first entry.
  pub IsLogged-create :
      (b : Booking) (h : StatusHistory)
      → exists (λ x. x.id == b.id) bs ≡ false
      → h.booking_id ≡ b.id
      → h.from_status ≡ none
      → h.to_status ≡ b.status
      → IsLogged bs hs
      → IsLogged (create b bs) (create h hs)
  IsLogged-create b h new own from to l = record {
    current =
        All-append _ bs (b ∷ [])
          (All-zip _ _ _ (λ x e n. rw (replay-create x.id h hs, own) (ground (arith))) bs l.current
            (All_of_not_exists _ bs new))
          (rw (replay-create b.id h hs) (ground arith), tt);
    chained =
        IsChained-create [] h hs l.chained
          (from ∙ sym (rw own (replay-unknown bs b.id hs new l.known)));
    known =
        All-append _ hs (h ∷ [])
          (All-mono _ _
            (λ x e. ground (arith, exists-create (λ (y : Booking). y.id == x.booking_id) b bs)) hs
            l.known)
          (ground (arith, exists-create (λ (y : Booking). y.id == h.booking_id) b bs), tt);
  }
