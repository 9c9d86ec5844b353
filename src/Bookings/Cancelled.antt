-- ===== src/Bookings/Cancelled.antt =====
-- What a cancellation leaves behind
-- (`executeCancellation` of src/modules/bookings/bookings.service.ts).
use deptoflex_back.Prelude.{
  All, Bool-cases, List, Option, String, ap, delete_many, exists, false, find_first, inl, inr, none,
  refl, some, sym, true, ℕ, ◌==?◌, ◌==◌, ◌∙◌, ◌≡◌,
}
use deptoflex_back.Bookings.Service.{
  cancel_flex_booking, execute_cancellation, find_booking, live_booking,
}
use deptoflex_back.Store.{
  Action, Actor, Booking, BookingStatus, CommissionStatus, Db, FlexBooking, FlexBookingStatus,
  Message, add_history, bad_request, modify, not_found, send, set_commission_status, set_status,
  update_booking, update_commissions, update_flex_booking, ◌>>=◌, ◌>>◌,
}
use deptoflex_back.Store.Hoare.{
  Post, Triple, Triple-bind, Triple-gets, Triple-or_throw, Triple-pure, Triple-throw_if,
  Triple-transaction,
}
use deptoflex_back.Prelude.Table.Answers.{exists-delete_many_self, update_many-done}

abbrev pub FlexIsCancelled : Option ℕ → List FlexBooking → Type 0
FlexIsCancelled none fs = Unit
FlexIsCancelled (some id) fs =
    All (λ f. (f.id == id) ≡ true → f.status ≡ FlexBookingStatus.cancelled) fs

-- Every row that hangs on the booking is released: its flex booking and its own row are cancelled,
-- no unit is held for it, and its commission is cancelled.
pub record IsReleased (id : ℕ) (flex_id : Option ℕ) (s : Db) : Type 0 where
  pub flex_cancelled : FlexIsCancelled flex_id s.flex_bookings
  pub row_cancelled : All (λ b. (b.id == id) ≡ true → b.status ≡ BookingStatus.cancelled) s.bookings
  pub unit_freed : exists (λ u. u.booking_id ==? id) s.unit_availability ≡ false
  pub commission_cancelled :
      All (λ c. (c.booking_id == id) ≡ true → c.status ≡ CommissionStatus.cancelled) s.commissions

cancel_flex_booking_rule :
    (P : Db → Type 0) (o : Option ℕ)
    → Triple (λ _. Unit) P (cancel_flex_booking o) (λ _ s. FlexIsCancelled o s.flex_bookings)
unfolding cancel_flex_booking update_flex_booking
cancel_flex_booking_rule P none = Triple-pure _ (λ _ _. tt)
cancel_flex_booking_rule P (some id) = record {
  at = λ s _. elim (Bool-cases (exists (λ b. b.id == id) s.flex_bookings)) [
    | inl t ↦ rw t (
        update_many-done (λ f. f.status ≡ FlexBookingStatus.cancelled) (λ b. b.id == id) _
          (λ f. refl) s.flex_bookings)
    | inr n ↦ rw n tt
  ];
}

abbrev RowIsCancelled : ℕ → List Booking → Type 0
RowIsCancelled id bs = All (λ b. (b.id == id) ≡ true → b.status ≡ BookingStatus.cancelled) bs

-- What holds once both rows are cancelled, and the two tables on which it depends.
abbrev AreCancelled : ℕ → Option ℕ → Db → Type 0
AreCancelled id o s = FlexIsCancelled o s.flex_bookings × RowIsCancelled id s.bookings

update_row_rule :
    (id : ℕ) (o : Option ℕ)
    → Triple
        (λ _. Unit)
        (λ s. FlexIsCancelled o s.flex_bookings)
        (update_booking id (set_status BookingStatus.cancelled))
        (λ _. AreCancelled id o)
unfolding update_booking
update_row_rule id o = record {
  at = λ s p. elim (Bool-cases (exists (λ b. b.id == id) s.bookings)) [
    | inl t ↦ rw t (
      p,
      update_many-done (λ b. b.status ≡ BookingStatus.cancelled) (λ b. b.id == id) _ (λ b. refl)
          s.bookings,
    )
    | inr n ↦ rw n tt
  ];
}

write_entry_rule :
    (id : ℕ) (o : Option ℕ) (from : BookingStatus) (reason : Option String) (by : Option Actor)
    → Triple
        (λ _. Unit)
        (AreCancelled id o)
        (add_history id (some from) BookingStatus.cancelled reason by)
        (λ _. AreCancelled id o)
unfolding add_history ◌>>=◌
write_entry_rule id o from reason none = record { at = λ s p. p }
write_entry_rule id o from reason (some Actor.system) = record { at = λ s p. tt }
write_entry_rule id o from reason (some (Actor.user u)) = record { at = λ s p. p }

release_rule :
    (E : Db → Type 0) (id : ℕ) (o : Option ℕ)
    → Triple E
        (AreCancelled id o)
        (modify (λ s. record s {
          unit_availability = delete_many (λ u. u.booking_id ==? id) s.unit_availability;
        })
          >> update_commissions
              (λ c. c.booking_id == id)
              (set_commission_status CommissionStatus.cancelled))
        (λ _. IsReleased id o)
unfolding update_commissions ◌>>=◌
release_rule E id o = record {
  at = λ s p. record {
    flex_cancelled = p.0;
    row_cancelled = p.1;
    unit_freed = exists-delete_many_self (λ u. u.booking_id ==? id) s.unit_availability;
    commission_cancelled =
        update_many-done (λ c. c.status ≡ CommissionStatus.cancelled) (λ c. c.booking_id == id) _
          (λ c. refl) s.commissions;
  };
}

-- The booking that the query found is released.
abbrev pub ReleasesFound : ℕ → Option Booking → Db → Type 0
ReleasesFound id none s = ⊥
ReleasesFound id (some b) s = IsReleased id b.flex_booking_id s

-- A fact that does not depend on the database is at hand in the proof of a triple.
carry :
    {A : Type 0} {E P : Db → Type 0} {Q : A → Db → Type 0} (C : Type 0) (m : Action A)
    → (C → Triple E P m Q)
    → Triple E (λ s. C × P s) m Q
carry C m k = record { at = λ s p. (k p.0).at s p.1 }

module _ (id : ℕ) (reason : String) (by : Actor) (s : Db) where
  abbrev Same : Db → Type 0
  Same s' = s' ≡ s

  abbrev Found : Booking → Type 0
  Found b = find_first (live_booking id) s.bookings ≡ some b

  find_rule : Triple Same Same (find_booking id) (λ b s'. Found b × Same s')
  unfolding find_booking
  find_rule =
      Triple-bind (λ o s'. (o ≡ find_first (live_booking id) s.bookings) × Same s') _ _
        (Triple-gets _ (λ s' p. (ap (λ (d : Db). find_first (live_booking id) d.bookings) p, p)))
        λ o. Triple-or_throw o not_found (λ _ p. p.1) (λ b e s' p. (sym p.0 ∙ e, p.1))

  sent :
      (b : Booking)
      → Found b
      → Triple Same
          (IsReleased id b.flex_booking_id)
          (send (Message.booking_cancelled id reason))
          (λ _. ReleasesFound id (find_first (live_booking id) s.bookings))
  unfolding ◌>>=◌
  sent b e = record {
    at = λ s' h. rw e (record {
      flex_cancelled = h.flex_cancelled;
      row_cancelled = h.row_cancelled;
      unit_freed = h.unit_freed;
      commission_cancelled = h.commission_cancelled;
    });
  }

  -- A cancellation that throws leaves the database as it was; one that returns leaves released the
  -- booking that it found, with its flex booking, its unit and its commission.
  pub execute_cancellation-releases :
      Post Same
        (λ _. ReleasesFound id (find_first (live_booking id) s.bookings))
        (execute_cancellation id reason by s)
  unfolding execute_cancellation
  execute_cancellation-releases =
      Triple.at
        (Triple-bind (λ b s'. Found b × Same s') _ _ find_rule
          λ b. carry (Found b) _ λ e.
            Triple-bind (λ _. Same) _ _ (Triple-throw_if _ bad_request (λ _ p. p) (λ _ _ p. p))
              λ _.
                Triple-bind (λ _. Same) _ _ (Triple-throw_if _ bad_request (λ _ p. p) (λ _ _ p. p))
                  λ _.
                    Triple-bind (λ _. IsReleased id b.flex_booking_id) _ _
                      (Triple-transaction _ (λ _ p. p)
                        (Triple-bind _ _ _ (cancel_flex_booking_rule Same b.flex_booking_id) λ _.
                          Triple-bind _ _ _ (update_row_rule id b.flex_booking_id) λ _.
                            Triple-bind _ _ _
                              (write_entry_rule id b.flex_booking_id b.status (some reason)
                                (some by))
                              λ _. release_rule _ id b.flex_booking_id))
                      λ _. sent b e)
        s refl
