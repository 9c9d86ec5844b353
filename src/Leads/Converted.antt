-- ===== src/Leads/Converted.antt =====
-- `convertToBooking`: a lead becomes one booking, once.
use deptoflex_back.Bookings.{nights}
use deptoflex_back.Leads.Service.{
  ConvertToBooking, booking_of_lead, convert_to_booking, find_lead, has_booking, live_lead,
  mark_converted, update_lead_row,
}
use deptoflex_back.Prelude.{
  ==_self, ap, arith, create, exists, false, find_first, map, none, refl, some, true, update_many,
  ℕ, ◌<◌, ◌==?◌, ◌==◌, ◌≡◌,
}
use deptoflex_back.Store.{
  Actor, Booking, BookingStatus, Db, Env, Lead, add_history, bad_request, err, history_row, ok,
  write_history, ◌>>=◌,
}
use deptoflex_back.Prelude.Table.Laws.{
  exists-created, exists-find_first, find_first-test, find_first-update_many,
}

module _ (env : Env) (id : ℕ) (dto : ConvertToBooking) (u : ℕ) (s : Db) (lead : Lead) where
  abbrev booking : Booking
  booking = booking_of_lead env lead dto s.bookings

  abbrev converted : Db
  converted = record s {
    bookings = create booking s.bookings;
    status_history =
        create (history_row booking.id none BookingStatus.pending none (some (Actor.user u)))
          s.status_history;
    leads = update_many (λ l. l.id == id) mark_converted s.leads;
  }

  convert_to_booking-done :
      find_first (live_lead id) s.leads ≡ some lead
      → exists (λ l. l.id == id) s.leads ≡ true
      → has_booking id s ≡ false
      → (nights dto.check_in_date dto.check_out_date == 0) ≡ false
      → convert_to_booking env id dto (Actor.user u) s ≡ (ok booking.id, converted)
  unfolding convert_to_booking find_lead update_lead_row add_history write_history ◌>>=◌
  convert_to_booking-done e x b n = rw (e, b, n, x) refl

convert_to_booking-refuses :
    (env : Env) (id : ℕ) (dto : ConvertToBooking) (by : Actor) (s : Db) (lead : Lead)
    → find_first (live_lead id) s.leads ≡ some lead
    → has_booking id s ≡ true
    → (convert_to_booking env id dto by s).0 ≡ err bad_request
unfolding convert_to_booking find_lead ◌>>=◌
convert_to_booking-refuses env id dto by s lead e b = rw (e, b) refl

nights_positive : (a b : ℕ) → a < b → (nights a b == 0) ≡ false
unfolding nights
nights_positive a b l = ground (arith, l)

-- A lead that is not deleted and has no booking, with an end date after the start date, is converted
-- by a user: the new booking is a pending one of the lead, with the lead's client and ambassador,
-- the lead is CONVERTED, and a second conversion is refused with `bad_request`.
pub convert_to_booking-once :
    (env env' : Env) (id u : ℕ) (dto dto' : ConvertToBooking) (by : Actor) (s : Db) (lead : Lead)
    → find_first (live_lead id) s.leads ≡ some lead
    → has_booking id s ≡ false
    → dto.check_in_date < dto.check_out_date
    → let r = convert_to_booking env id dto (Actor.user u) s in
      (r.0 ≡ ok (env.fresh (map (λ b. b.id) s.bookings)))
      × ((b : Booking) × (r.1.bookings ≡ create b s.bookings)
          × (b.lead_id ≡ some id)
          × (b.status ≡ BookingStatus.pending)
          × (b.professional_profile_id ≡ lead.professional_profile_id)
          × (b.client_name ≡ lead.client_name))
      × (find_first (live_lead id) r.1.leads ≡ some (mark_converted lead))
      × ((convert_to_booking env' id dto' by r.1).0 ≡ err bad_request)
unfolding booking_of_lead
convert_to_booking-once env env' id u dto dto' by s lead e b n =
    let own : lead.id ≡ id = ground (arith, find_first-test (live_lead id) s.leads {x = lead} e) in
    let x =
      exists-find_first (live_lead id) (λ (l : Lead). l.id == id) s.leads {x = lead}
        (λ l t. ground (arith, t)) e in
    let found : find_first (live_lead id) (converted env id dto u s lead).leads
        ≡ some (mark_converted lead) =
      rw
        (
          find_first-update_many (live_lead id) (λ l. l.id == id) mark_converted s.leads
              (λ l. refl),
          e,
          own,
          ==_self id,
        )
        refl in
    rw
      (convert_to_booking-done env id dto u s lead e x b
        (nights_positive dto.check_in_date dto.check_out_date n))
      (
        refl,
        (booking env id dto u s lead, refl, ap (λ (i : ℕ). some i) own, refl, refl, refl),
        found,
        convert_to_booking-refuses env' id dto' by (converted env id dto u s lead)
            (mark_converted lead) found
            (exists-created (λ o. o.lead_id ==? id) (booking env id dto u s lead) s.bookings
              (rw own (==_self id))),
      )
