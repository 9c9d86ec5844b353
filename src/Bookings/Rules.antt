-- ===== src/Bookings/Rules.antt =====
-- The steps from which the methods are built, and how each keeps the registry and its history
-- together (BookingsService of src/modules/bookings/bookings.service.ts).
use deptoflex_back.Store.Hoare.{Post, Triple, Triple-bind, Triple-gets, Triple-or_throw}
use deptoflex_back.History.{IsLogged, replay}
use deptoflex_back.History.Laws.{IsLogged-keep, IsLogged-move}
use deptoflex_back.Prelude.{
  Bool, Bool-cases, List, Option, String, ap, arith, create, exists, find_first, inl, inr, none,
  refl, some, sym, true, ℕ, ◌==◌, ◌∙◌, ◌≡◌,
}
use deptoflex_back.Prelude.Table.Laws.{
  exists-update_many, find_first-All, find_first-exists_id, find_first-test,
}
use deptoflex_back.Store.{
  Action, Actor, Booking, BookingStatus, Db, Message, Result, StatusHistory, add_history, err,
  history_row, not_found, ok, send, set_status, update_booking, ◌>>=◌, ◌>>◌,
}
use deptoflex_back.Bookings.Service.{find_booking, live_booking}

-- The invariant of a database: its history replayed gives its registry.
abbrev pub DbIsLogged : Db → Type 0
DbIsLogged s = IsLogged s.bookings s.status_history

-- The history says that a booking of the table has the status.
abbrev pub StandsIn : ℕ → BookingStatus → List Booking → List StatusHistory → Type 0
StandsIn id from bs hs =
    IsLogged bs hs × (replay id hs ≡ some from) × (exists (λ b. b.id == id) bs ≡ true)

abbrev pub StandsAt : ℕ → BookingStatus → Db → Type 0
StandsAt id from s = StandsIn id from s.bookings s.status_history

-- Of a row that is found, whatever else the query asks.
pub found-StandsAt :
    (p : Booking → Bool) (s : Db) {b : Booking}
    → DbIsLogged s
    → find_first p s.bookings ≡ some b
    → StandsAt b.id b.status s
found-StandsAt p s {b} l e = (
  l,
  find_first-All (λ b. replay b.id s.status_history ≡ some b.status) p s.bookings l.current e,
  find_first-exists_id (λ b. b.id) p s.bookings e,
)

-- The booking has moved already, and its entry is still to be written.
abbrev pub Awaits : ℕ → BookingStatus → BookingStatus → Option String → Option Actor → Db → Type 0
Awaits id from to reason by s =
    IsLogged s.bookings (create (history_row id (some from) to reason by) s.status_history)

module _ (id : ℕ) (from to : BookingStatus) (reason : Option String) (by : Option Actor) where
  pub update_booking_rule :
      (E : Db → Type 0)
      → ((s : Db) → StandsAt id from s → E s)
      → Triple E
          (StandsAt id from)
          (update_booking id (set_status to))
          (λ _. Awaits id from to reason by)
  unfolding update_booking
  update_booking_rule E h = record {
    at = λ s p. rw p.2 (
        IsLogged-move s.bookings s.status_history id (set_status to)
          (history_row id (some from) to reason by) (λ b. refl) (λ b. refl) refl (sym p.1) p.2 p.0);
  }

pub add_history_rule :
    (id : ℕ) (from : Option BookingStatus) (to : BookingStatus) (reason : Option String)
    (by : Option Actor)
    → Triple
        (λ _. Unit)
        (λ s. IsLogged s.bookings (create (history_row id from to reason by) s.status_history))
        (add_history id from to reason by)
        (λ _. DbIsLogged)
unfolding add_history ◌>>=◌
add_history_rule id from to reason none = record { at = λ s p. p }
add_history_rule id from to reason (some Actor.system) = record { at = λ s p. tt }
add_history_rule id from to reason (some (Actor.user u)) = record { at = λ s p. p }

-- Parts that write neither table.
module _ {E : Db → Type 0} where
  pub find_booking_rule :
      (id : ℕ)
      → ((s : Db) → DbIsLogged s → E s)
      → Triple E DbIsLogged (find_booking id) (λ b. StandsAt id b.status)
  unfolding find_booking
  find_booking_rule id h =
      Triple-bind (λ b s. (b ≡ find_first (live_booking id) s.bookings) × DbIsLogged s) _ _
        (Triple-gets _ (λ s l. (refl, l)))
        λ o.
          Triple-or_throw o not_found (λ s p. h s p.1)
            (λ b e s p.
              let own : b.id ≡ id =
                ground
                  (arith, find_first-test (live_booking id) s.bookings {x = b} (sym p.0 ∙ e)) in
              rw own at (found-StandsAt (live_booking id) s p.1 (sym p.0 ∙ e)))

-- What an action leaves alone: the registry and its history.
abbrev pub SameLog : {A : Type 0} → Db → Result A × Db → Type 0
SameLog s r = (r.1.bookings ≡ s.bookings) × (r.1.status_history ≡ s.status_history)

module _ {A : Type 0} (E : Db → Type 0) (P : List Booking → List StatusHistory → Type 0) where
  same_log :
      (s : Db) (r : Result A × Db)
      → ((s' : Db) → P s'.bookings s'.status_history → E s')
      → SameLog s r
      → P s.bookings s.status_history
      → Post E (λ _ s'. P s'.bookings s'.status_history) r
  same_log s (ok a, s') h e l = rw (e.0, e.1) l
  same_log s (err x, s') h e l = h s' (rw (e.0, e.1) l)

  pub frame_rule :
      (m : Action A)
      → ((s : Db) → P s.bookings s.status_history → E s)
      → ((s : Db) → SameLog s (m s))
      → Triple E (λ s. P s.bookings s.status_history) m (λ _ s. P s.bookings s.status_history)
  frame_rule m h f = record { at = λ s l. same_log s (m s) h (f s) l }

module _ {A : Type 0} (id : ℕ) (from to : BookingStatus) (reason : Option String)
    (by : Option Actor) where
  -- The head of a transaction that moves a booking: the row, then its entry, then the rest.
  pub move_rule :
      (rest : Action A)
      → Triple (λ _. Unit) DbIsLogged rest (λ _. DbIsLogged)
      → Triple
          (λ _. Unit)
          (StandsAt id from)
          (update_booking id (set_status to) >> (add_history id (some from) to reason by >> rest))
          (λ _. DbIsLogged)
  move_rule rest t =
      Triple-bind _ _ _ (update_booking_rule id from to reason by _ (λ _ _. tt))
        λ _. Triple-bind (λ _. DbIsLogged) _ _ (add_history_rule id (some from) to reason by) λ _. t

pub send_rule : (m : Message) → Triple DbIsLogged DbIsLogged (send m) (λ _. DbIsLogged)
unfolding ◌>>=◌
send_rule m = record { at = λ s l. l }

-- An update of columns other than the id and the status.
module _ (id : ℕ) (f : Booking → Booking) (same : (b : Booking) → (f b).id ≡ b.id)
    (kept : (b : Booking) → (f b).status ≡ b.status) where
  pub update_booking_keeps :
      (E : Db → Type 0)
      → ((s : Db) → DbIsLogged s → E s)
      → Triple E DbIsLogged (update_booking id f) (λ _. DbIsLogged)
  unfolding update_booking
  update_booking_keeps E h = record {
    at = λ s l. elim (Bool-cases (exists (λ b. b.id == id) s.bookings)) [
      | inl t ↦ rw t (IsLogged-keep s.bookings s.status_history (λ b. b.id == id) f same kept l)
      | inr n ↦ rw n (h s l)
    ];
  }

  pub update_booking_keeps_StandsAt :
      (j : ℕ) (from : BookingStatus)
      → Triple (λ _. Unit) (StandsAt j from) (update_booking id f) (λ _. StandsAt j from)
  unfolding update_booking
  update_booking_keeps_StandsAt j from = record {
    at = λ s p. elim (Bool-cases (exists (λ b. b.id == id) s.bookings)) [
      | inl t ↦ rw t (
        IsLogged-keep s.bookings s.status_history (λ b. b.id == id) f same kept p.0,
        p.1,
        exists-update_many (λ b. b.id == j) (λ b. b.id == id) f s.bookings
              (λ b. ap (λ (i : ℕ). i == j) (same b))
            ∙ p.2,
      )
      | inr n ↦ rw n tt
    ];
  }
