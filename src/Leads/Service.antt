-- ===== src/Leads/Service.antt =====
-- The methods of `LeadsService` that read or change one lead.
use mathlib.Core.Option
use deptoflex_back.Bookings.{nights}
use deptoflex_back.Prelude.{
  Bool, List, Option, String, create, date_of, exists, find_first, if◌then◌else◌, is_none, map,
  none, some, update_many, ℕ, ◌&&◌, ◌==?◌, ◌==◌, ◌or_else◌, ◌otherwise◌,
}
use deptoflex_back.Store.{
  Action, Actor, Booking, BookingSource, BookingStatus, Db, Env, Lead, LeadStatus, Message,
  add_history, bad_request, database, err, gets, modify, not_found, ok, or_throw, pure, send,
  throw_if, transaction, ◌>>=◌, ◌>>◌,
}

-- `CreateLeadDto`, its dates parsed
pub record CreateLead : Type 0 where
  pub unit_id : Option ℕ
  pub client_name : String
  pub client_email : Option String
  pub client_phone : Option String
  pub check_in_date : Option ℕ
  pub check_out_date : Option ℕ
  pub adults : ℕ
  pub children : Option ℕ
  pub notes : Option String
  pub source : Option String

unfoldable pub new_lead : Env → CreateLead → Option ℕ → List Lead → Lead
new_lead env dto profile rows = record {
  id = env.fresh (map (λ l. l.id) rows);
  professional_profile_id = profile;
  unit_id = dto.unit_id;
  client_name = dto.client_name;
  client_email = dto.client_email;
  client_phone = dto.client_phone;
  check_in_date = Option.map date_of dto.check_in_date;
  check_out_date = Option.map date_of dto.check_out_date;
  adults = dto.adults;
  children = dto.children otherwise 0;
  notes = dto.notes;
  status = LeadStatus.new;
  source = dto.source;
  deleted_at = none;
}

-- `create`
unfoldable pub create_lead : Env → CreateLead → Option ℕ → Action ℕ
unfolding new_lead
create_lead env dto profile = do
  lead ← gets (λ s. new_lead env dto profile s.leads)
  modify λ s. record s { leads = create lead s.leads }
  send (Message.lead_created lead.id)
  pure lead.id

abbrev pub live_lead : ℕ → Lead → Bool
live_lead id l = l.id == id && is_none l.deleted_at

-- `findOne`, without the rows that it joins
unfoldable pub find_lead : ℕ → Action Lead
find_lead id = do lead ← gets (λ s. find_first (live_lead id) s.leads); or_throw lead not_found

unfoldable pub update_lead_row : ℕ → (Lead → Lead) → Action (Unit {0})
update_lead_row id f s =
    if exists (λ l. l.id == id) s.leads
    then (ok tt, record s { leads = update_many (λ l. l.id == id) f s.leads })
    else (err database, s)

-- `UpdateLeadDto`: a field is `none` where it is undefined.
pub record UpdateLead : Type 0 where
  pub unit_id : Option ℕ
  pub client_name : Option String
  pub client_email : Option String
  pub client_phone : Option String
  pub check_in_date : Option ℕ
  pub check_out_date : Option ℕ
  pub adults : Option ℕ
  pub children : Option ℕ
  pub notes : Option String
  pub source : Option String
  pub status : Option LeadStatus

unfoldable pub apply_lead_update : UpdateLead → Lead → Lead
apply_lead_update dto l = record l {
  unit_id = dto.unit_id or_else l.unit_id;
  client_name = dto.client_name otherwise l.client_name;
  client_email = dto.client_email or_else l.client_email;
  client_phone = dto.client_phone or_else l.client_phone;
  check_in_date = Option.map date_of dto.check_in_date or_else l.check_in_date;
  check_out_date = Option.map date_of dto.check_out_date or_else l.check_out_date;
  adults = dto.adults otherwise l.adults;
  children = dto.children otherwise l.children;
  notes = dto.notes or_else l.notes;
  source = dto.source or_else l.source;
  status = dto.status otherwise l.status;
}

-- `update`
unfoldable pub update_lead : ℕ → UpdateLead → Action (Unit {0})
unfolding find_lead update_lead_row
update_lead id dto = find_lead id >> update_lead_row id (apply_lead_update dto)

-- `addNote`
unfoldable pub add_note : ℕ → String → ℕ → Action (Unit {0})
unfolding find_lead
add_note id message created_by =
    find_lead id
    >> modify λ s. record s {
      lead_requests =
          create (record { lead_id = id; created_by = created_by; message = message })
            s.lead_requests;
    }

-- `ConvertToBookingDto`, its dates parsed
pub record ConvertToBooking : Type 0 where
  pub unit_id : ℕ
  pub check_in_date : ℕ
  pub check_out_date : ℕ
  pub base_amount : ℕ
  pub total_amount : ℕ
  pub currency : Option String
  pub notes : Option String

unfoldable pub booking_of_lead : Env → Lead → ConvertToBooking → List Booking → Booking
unfolding nights
booking_of_lead env lead dto rows = record {
  id = env.fresh (map (λ b. b.id) rows);
  source = BookingSource.direct;
  lead_id = some lead.id;
  unit_id = some dto.unit_id;
  property_id = none;
  property_flex_id = none;
  flex_booking_id = none;
  reservation_intent_id = none;
  cloudbeds_reservation_id = none;
  professional_profile_id = lead.professional_profile_id;
  client_name = lead.client_name;
  client_email = lead.client_email;
  client_phone = lead.client_phone;
  check_in_date = date_of dto.check_in_date;
  check_out_date = date_of dto.check_out_date;
  adults = lead.adults;
  children = lead.children;
  total_nights = nights dto.check_in_date dto.check_out_date;
  base_amount = dto.base_amount;
  total_amount = dto.total_amount;
  currency = dto.currency otherwise "ARS";
  status = BookingStatus.pending;
  notes = dto.notes;
  deleted_at = none;
}

-- `lead.booking`: the booking of the lead, deleted or not
abbrev pub has_booking : ℕ → Db → Bool
has_booking lead s = exists (λ b. b.lead_id ==? lead) s.bookings

abbrev pub mark_converted : Lead → Lead
mark_converted l = record l { status = LeadStatus.converted }

-- `convertToBooking`
unfoldable pub convert_to_booking : Env → ℕ → ConvertToBooking → Actor → Action ℕ
unfolding find_lead booking_of_lead update_lead_row
convert_to_booking env id dto changed_by = do
  lead ← find_lead id
  throw_if (← gets (has_booking id)) bad_request
  throw_if (nights dto.check_in_date dto.check_out_date == 0) bad_request
  transaction do
    booking ← gets (λ s. booking_of_lead env lead dto s.bookings)
    modify λ s. record s { bookings = create booking s.bookings }
    add_history booking.id none BookingStatus.pending none (some changed_by)
    update_lead_row id mark_converted
    pure booking.id

-- `softDelete`
unfoldable pub soft_delete_lead : Env → ℕ → Action (Unit {0})
unfolding find_lead update_lead_row
soft_delete_lead env id =
    find_lead id >> update_lead_row id (λ l. record l { deleted_at = some env.now })
