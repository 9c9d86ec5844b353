-- ===== src/Cloudbeds/Registered.antt =====
-- `confirmFromCloudbeds` on a reservation that it has not seen, and then again.
use deptoflex_back.Cloudbeds.Confirm.{
  confirm_from_cloudbeds, confirm_intent, create_cloudbeds_commission, register_new, register_once,
  register_reservation, registered_booking, reservation_of, set_intent_status,
}
use deptoflex_back.Cloudbeds.Intents.{
  ConfirmReservation, Reservation, cloudbeds_booking, intent_of, is_taken, resolve_property,
  resolve_unit,
}
use deptoflex_back.Prelude.{
  ==_self, Option, String, create, exists, false, find_first, map, none, refl, some, true,
  update_many, ℕ, ◌==?◌, ◌==◌, ◌or_else◌, ◌≡◌,
}
use deptoflex_back.Store.{
  Booking, BookingSource, BookingStatus, Db, Env, IntentStatus, Message, ReservationIntent,
  add_commission, add_history, history_row, ok, write_history, ◌>>=◌,
}
use deptoflex_back.Store.Hoare.{continue-ok}
use deptoflex_back.Cloudbeds.Provider.{BookingProvider, Confirmation}
use deptoflex_back.Prelude.Table.Laws.{
  exists-find_first, find_first-absent, find_first-create, find_first-update_many,
}

-- The commission is made, and the registry and the intents are left alone.
create_cloudbeds_commission-ok :
    (env : Env) (b : Booking) (property : ℕ) (profile : Option ℕ) (s : Db)
    → exists (λ c. c.booking_id == b.id) s.commissions ≡ false
    → let r = create_cloudbeds_commission env b property profile s in
      (r.0 ≡ ok tt)
      × (r.1.bookings ≡ s.bookings)
      × (r.1.reservation_intents ≡ s.reservation_intents)
unfolding create_cloudbeds_commission add_commission ◌>>=◌
create_cloudbeds_commission-ok env b property none s f = (refl, refl, refl)
create_cloudbeds_commission-ok env b property (some p) s f = rw f (refl, refl, refl)

module _ (env : Env) (made : Reservation) (i : ReservationIntent) (s : Db) where
  -- A reservation of the intent
  abbrev r : Reservation
  r = record made { intent = some i }

  abbrev booking : Booking
  booking = cloudbeds_booking env r s.bookings

  abbrev with_booking : Db
  with_booking = record s {
    bookings = create booking s.bookings;
    status_history =
        create
          (history_row booking.id none BookingStatus.confirmed (some "Cloudbeds confirmation") none)
          s.status_history;
  }

  abbrev with_commission : Db
  with_commission =
      (create_cloudbeds_commission env booking r.property_id r.professional_profile_id
        with_booking).1

  abbrev registered : Db
  registered = record with_commission {
    reservation_intents =
        update_many (λ j. j.id == i.id) (set_intent_status IntentStatus.confirmed)
          with_commission.reservation_intents;
  }

  register_reservation-done :
      is_taken (λ b. b.reservation_intent_id) (some i.id) s ≡ false
      → is_taken (λ b. b.cloudbeds_reservation_id) r.conf.reservation_id s ≡ false
      → exists (λ c. c.booking_id == booking.id) s.commissions ≡ false
      → exists (λ j. j.id == i.id) s.reservation_intents ≡ true
      → register_reservation env r s ≡ (ok booking.id, registered)
  unfolding register_reservation add_history write_history confirm_intent ◌>>=◌
  register_reservation-done t u f x =
      let m = create_cloudbeds_commission env booking r.property_id r.professional_profile_id in
      let paid =
        create_cloudbeds_commission-ok env booking r.property_id r.professional_profile_id
          with_booking f in
      let kept : exists (λ j. j.id == i.id) with_commission.reservation_intents ≡ true =
        rw paid.2 x in
      rw (t, u, continue-ok (m with_booking) tt _ paid.0, kept) refl

module _ (env : Env) (data_res : String) (profile : Option ℕ) (conf₀ : Confirmation) (rid : ℕ)
    (i : ReservationIntent) (s : Db) where
  abbrev conf : Confirmation
  conf = record conf₀ { reservation_id = some rid }

  abbrev dto : ConfirmReservation
  dto = record {
    data_res = data_res;
    reservation_intent_id = some i.id;
    professional_profile_id = profile;
  }

  abbrev unit : Option ℕ
  unit = resolve_unit i.property_id (conf.room_type_id or_else some i.room_type_id) s

  abbrev reservation : Reservation
  reservation = reservation_of dto (some i) conf i.property_id unit i.checkin i.checkout

  abbrev new_id : ℕ
  new_id = env.fresh (map (λ b. b.id) s.bookings)

  abbrev confirmed : Db
  confirmed = record (registered env reservation i s) {
    outbox = create (Message.booking_confirmed new_id) (registered env reservation i s).outbox;
  }

  confirm-done :
      (engine : BookingProvider)
      → engine.get_confirmation data_res ≡ some conf
      → find_first (λ j. j.id == i.id) s.reservation_intents ≡ some i
      → is_taken (λ b. b.reservation_intent_id) (some i.id) s ≡ false
      → is_taken (λ b. b.cloudbeds_reservation_id) (some rid) s ≡ false
      → exists (λ c. c.booking_id == new_id) s.commissions ≡ false
      → confirm_from_cloudbeds env engine dto s ≡ (ok new_id, confirmed)
  unfolding confirm_from_cloudbeds intent_of resolve_property register_once register_new is_taken
      reservation_of cloudbeds_booking ◌>>=◌
  confirm-done engine e x t u f =
      let x' =
        exists-find_first (λ j. j.id == i.id) (λ (j : ReservationIntent). j.id == i.id)
          s.reservation_intents {x = i} (λ j t. t) x in
      let done = register_reservation-done env reservation i s t u f x' in
      rw (x, e, find_first-absent (λ b. b.cloudbeds_reservation_id ==? rid) s.bookings u, done) refl

  paid :
      exists (λ c. c.booking_id == new_id) s.commissions ≡ false
      → (confirmed.bookings ≡ create (booking env reservation i s) s.bookings)
        × ((with_commission env reservation i s).reservation_intents ≡ s.reservation_intents)
  unfolding reservation_of cloudbeds_booking
  paid f =
      let m =
        create_cloudbeds_commission-ok env (booking env reservation i s) reservation.property_id
          reservation.professional_profile_id (with_booking env reservation i s) f in
      (m.1, m.2)

  -- The booking is found by the engine's reservation, and the intent is CONFIRMED.
  found-booking :
      is_taken (λ b. b.cloudbeds_reservation_id) (some rid) s ≡ false
      → exists (λ c. c.booking_id == new_id) s.commissions ≡ false
      → registered_booking (some rid) confirmed ≡ some (booking env reservation i s)
  unfolding is_taken reservation_of cloudbeds_booking
  found-booking u f =
      rw
        (
          (paid f).0,
          find_first-create (λ b. b.cloudbeds_reservation_id ==? rid) (booking env reservation i s)
              s.bookings,
          find_first-absent (λ b. b.cloudbeds_reservation_id ==? rid) s.bookings u,
          ==_self rid,
        )
        refl

  found-intent :
      find_first (λ j. j.id == i.id) s.reservation_intents ≡ some i
      → exists (λ c. c.booking_id == new_id) s.commissions ≡ false
      → find_first (λ j. j.id == i.id) confirmed.reservation_intents
        ≡ some (set_intent_status IntentStatus.confirmed i)
  found-intent x f =
      rw
        (
          (paid f).1,
          find_first-update_many (λ j. j.id == i.id) (λ j. j.id == i.id)
              (set_intent_status IntentStatus.confirmed) s.reservation_intents (λ j. refl),
          x,
          ==_self i.id,
        )
        refl

  registered-same :
      (env' : Env) (engine : BookingProvider) (t : Db) (j : ReservationIntent) (b : Booking)
      → engine.get_confirmation data_res ≡ some conf
      → find_first (λ j. j.id == i.id) t.reservation_intents ≡ some j
      → registered_booking (some rid) t ≡ some b
      → confirm_from_cloudbeds env' engine dto t ≡ (ok b.id, t)
  unfolding confirm_from_cloudbeds intent_of resolve_property register_once ◌>>=◌
  registered-same env' engine t j b e x u = rw (x, e, u) refl

-- A confirmation that the engine knows under a reservation id, for an intent that has no booking and
-- a reservation id that no booking has, given that the new booking's id is of no commission: it
-- succeeds with a CONFIRMED booking of the source CLOUDBEDS, with the intent's property and dates,
-- and the intent becomes CONFIRMED. The same confirmation again, whenever it comes, answers with the
-- same booking and leaves the database as it is.
pub confirm_from_cloudbeds-once :
    (env env' : Env) (engine engine' : BookingProvider) (data_res : String) (profile : Option ℕ)
    (conf₀ : Confirmation) (rid : ℕ) (i : ReservationIntent) (s : Db)
    → engine.get_confirmation data_res ≡ some (record conf₀ { reservation_id = some rid })
    → engine'.get_confirmation data_res ≡ some (record conf₀ { reservation_id = some rid })
    → find_first (λ j. j.id == i.id) s.reservation_intents ≡ some i
    → is_taken (λ b. b.reservation_intent_id) (some i.id) s ≡ false
    → is_taken (λ b. b.cloudbeds_reservation_id) (some rid) s ≡ false
    → exists (λ c. c.booking_id == env.fresh (map (λ b. b.id) s.bookings)) s.commissions ≡ false
    → let dto : ConfirmReservation = record {
      data_res = data_res;
      reservation_intent_id = some i.id;
      professional_profile_id = profile;
    } in
      let r = confirm_from_cloudbeds env engine dto s in
      (r.0 ≡ ok (env.fresh (map (λ b. b.id) s.bookings)))
      × ((b : Booking) × (find_first (λ b. b.cloudbeds_reservation_id ==? rid) r.1.bookings
            ≡ some b)
          × (b.status ≡ BookingStatus.confirmed)
          × (b.source ≡ BookingSource.cloudbeds)
          × (b.property_id ≡ some i.property_id)
          × (b.check_in_date ≡ i.checkin)
          × (b.check_out_date ≡ i.checkout))
      × (find_first (λ j. j.id == i.id) r.1.reservation_intents
          ≡ some (set_intent_status IntentStatus.confirmed i))
      × (confirm_from_cloudbeds env' engine' dto r.1 ≡ r)
unfolding reservation_of cloudbeds_booking
confirm_from_cloudbeds-once env env' engine engine' data_res profile conf₀ rid i s e e' x t u f =
    let found = found-booking env data_res profile conf₀ rid i s u f in
    let moved = found-intent env data_res profile conf₀ rid i s x f in
    rw (confirm-done env data_res profile conf₀ rid i s engine e x t u f) (
      refl,
      (
        booking env (reservation env data_res profile conf₀ rid i s) i s,
        found,
        refl,
        refl,
        refl,
        refl,
        refl,
      ),
      moved,
      registered-same env data_res profile conf₀ rid i s env' engine'
          (confirmed env data_res profile conf₀ rid i s)
          (set_intent_status IntentStatus.confirmed i)
          (booking env (reservation env data_res profile conf₀ rid i s) i s) e' moved found,
    )
