-- ===== src/Tests.antt =====
-- One small office, as a database, with requests to it: the data on which the theorems of the other
-- modules are tried.
mod Examples
mod Accounts
mod Cloudbeds
mod Professionals
mod Stays
use deptoflex_back.Prelude.{
  List, Option, [], false, max, none, some, suc, sum_of, true, ℕ, ◌/◌, ◌∷◌,
}
use deptoflex_back.Access.{CurrentUser}
use deptoflex_back.FlexBookings.{CreateFlexBooking}
use deptoflex_back.FlexBookings.Availability.{is_active}
use deptoflex_back.Payments.{MercadoPago, MpPayment, MpStatus, payment_event}
use deptoflex_back.Rates.{commission_amount}
use deptoflex_back.Requests.{Request}
use deptoflex_back.Settlements.{CreateSettlement, MarkSettlementPaid}
use deptoflex_back.Store.{
  Actor, AgencyTeamMember, Booking, BookingSource, BookingStatus, Commission, CommissionStatus, Db,
  DepositRule, EntryCommissionRule, Env, FlexBooking, FlexBookingStatus, Payment, PaymentStatus,
  PlanCode, PricingPlan, ProfessionalProfile, ProfessionalStatus, PropertyFlex, Role, Settlement,
  SettlementStatus, StatusHistory, UnitAvailability, history_row,
}
use deptoflex_back.Pricing.{CreatePricingPlan}

-- Each generated id is above the sum of those in use.
abbrev pub next_id : List ℕ → ℕ
next_id ids = suc (sum_of (λ (i : ℕ). i) ids)

abbrev pub env : Env
env = record {
  now = 1000;
  to_cents = λ amount. amount / 10000;
  fresh = next_id;
  payment_token = 77;
  ties_up = λ _ _. true;
}

abbrev pub ambassador : ProfessionalProfile
ambassador = record {
  id = 1;
  user_id = 10;
  is_company = false;
  is_verified = true;
  status = ProfessionalStatus.active;
  default_commission_rate = 500;
  verified_at = none;
  ambassador_requested_at = none;
}

abbrev pub loft : PropertyFlex
loft = record {
  id = 1;
  name = "Loft";
  monthly_rate = 90000;
  currency = "ARS";
  min_months = 1;
  deposit_amount = none;
  commission_rate = some 1000;
  reservation_payment_amount = some 20000;
  deleted_at = none;
}

abbrev pub plan : ℕ → ℕ → Option ℕ → PricingPlan
plan id min max = record {
  id = id;
  property_flex_id = 1;
  code = PlanCode.month_1;
  label = "Plan";
  min_months = min;
  max_months = max;
  monthly_rent = 90000;
  currency = "ARS";
  rent_includes_expenses = false;
  rent_includes_utilities = false;
  includes_linens = false;
  deposit_rule = DepositRule.third_of_month;
  custom_deposit_amount = none;
  entry_commission_rule = EntryCommissionRule.none_due;
  conditions_text = none;
  sort_order = id;
  is_active = true;
}

abbrev pub reservation : FlexBooking
reservation = record {
  id = 1;
  property_flex_id = 1;
  professional_profile_id = some 1;
  client_name = "Ana";
  client_email = some "ana@example.org";
  client_phone = none;
  start_date = 1000000000;
  end_date = 2000000000;
  total_months = 1;
  monthly_amount = 90000;
  total_amount = 90000;
  deposit_amount = none;
  pricing_plan_id = none;
  plan_code = none;
  entry_commission_amount = none;
  reservation_payment_amount = some 20000;
  payment_token = some 5;
  currency = "ARS";
  status = FlexBookingStatus.pending;
  notes = none;
  deleted_at = none;
}

abbrev pub row : ℕ → BookingSource → Option ℕ → Option ℕ → BookingStatus → Booking
row id source flex_booking unit status = record {
  id = id;
  source = source;
  lead_id = none;
  unit_id = unit;
  property_id = none;
  property_flex_id = flex_booking;
  flex_booking_id = flex_booking;
  reservation_intent_id = none;
  cloudbeds_reservation_id = none;
  professional_profile_id = some 1;
  client_name = "Ana";
  client_email = none;
  client_phone = none;
  check_in_date = 1000000000;
  check_out_date = 2000000000;
  adults = 1;
  children = 0;
  total_nights = 12;
  base_amount = 90000;
  total_amount = 90000;
  currency = "ARS";
  status = status;
  notes = none;
  deleted_at = none;
}

abbrev pub commission : ℕ → ℕ → Option ℕ → CommissionStatus → Commission
commission id booking settlement status = record {
  id = id;
  booking_id = booking;
  professional_profile_id = some 1;
  settlement_id = settlement;
  rate = 1000;
  base_amount = 90000;
  commission_amount = 9000;
  currency = "ARS";
  status = status;
  approved_at = none;
  paid_at = none;
}

abbrev pub draft : Settlement
draft = record {
  id = 1;
  professional_profile_id = 1;
  status = SettlementStatus.draft;
  total_amount = 9000;
  currency = "ARS";
  payment_method = none;
  payment_reference = none;
  notes = none;
  paid_at = none;
  paid_by = none;
}

abbrev pub bookings : List Booking
bookings =
    row 1 BookingSource.flex (some 1) none BookingStatus.pending
    ∷ row 2 BookingSource.direct none (some 3) BookingStatus.confirmed
    ∷ row 3 BookingSource.direct none (some 4) BookingStatus.confirmed
    ∷ []

abbrev pub entry : ℕ → Option BookingStatus → BookingStatus → StatusHistory
entry id from to = history_row id from to none (some (Actor.user 10))

abbrev pub history : List StatusHistory
history =
    entry 1 none BookingStatus.pending
    ∷ entry 2 none BookingStatus.pending
    ∷ entry 2 (some BookingStatus.pending) BookingStatus.confirmed
    ∷ entry 3 none BookingStatus.pending
    ∷ entry 3 (some BookingStatus.pending) BookingStatus.confirmed
    ∷ []

abbrev pub held : UnitAvailability
held = record {
  unit_id = 3;
  start_date = 1000000000;
  end_date = 2000000000;
  is_available = false;
  booking_id = some 2;
}

abbrev pub old_payment : Payment
old_payment = record {
  id = 1;
  flex_booking_id = 1;
  status = PaymentStatus.pending;
  amount = 20000;
  currency = "ARS";
  mp_preference_id = some 1;
  mp_payment_id = none;
  checkout_url = none;
  paid_at = none;
  created_at = 1;
}

abbrev pub team_member : AgencyTeamMember
team_member = record {
  id = 1;
  agency_profile_id = 7;
  company_profile_id = none;
  user_id = some 10;
  email = "ana@example.org";
  first_name = "Ana";
  last_name = "Paz";
  dni = "1";
  phone = "2";
  role_in_company = "Agent";
  is_active = true;
  invited_at = none;
  deactivated_at = none;
}

-- Booking 1 is a pending reservation, 2 has a commission to settle, and that of 3 is in a draft.
abbrev pub office : Db
office = record {
  profiles = ambassador ∷ [];
  user_roles = record { user_id = 10; role = Role.ambassador } ∷ [];
  team_members = team_member ∷ [];
  properties = [];
  property_flexes = loft ∷ [];
  pricing_plans = [];
  flex_overrides = [];
  property_overrides = [];
  flex_bookings = reservation ∷ [];
  bookings = bookings;
  status_history = history;
  unit_availability = held ∷ [];
  commissions =
      commission 1 1 none CommissionStatus.pending
      ∷ commission 2 2 none CommissionStatus.approved
      ∷ commission 3 3 (some 1) CommissionStatus.approved
      ∷ [];
  settlements = draft ∷ [];
  cancellation_requests = [];
  payments = old_payment ∷ [];
  outbox = [];
  users = [];
  sessions = [];
  verification_tokens = [];
  company_memberships = [];
  company_profiles = [];
  ambassador_documents = [];
  leads = [];
  lead_requests = [];
  units = [];
  reservation_intents = [];
  availability_snapshots = [];
  availability_cache = [];
  ambassador_sessions = [];
}

-- Mercado Pago with one approved payment, 9, of the reservation.
abbrev pub mercado_pago : MercadoPago
mercado_pago = record {
  is_configured = true;
  expiration_days = 7;
  get_payment = λ id. some (record {
    id = id;
    status = MpStatus.approved;
    external_reference = some 1;
    transaction_amount = 20000;
  });
  get_merchant_order = λ _. none;
  get_merchant_order_again = λ _. none;
  search_payments = λ _. some (9 ∷ []);
  create_checkout = λ _ _. some (record { preference_id = 4; checkout_url = "https://mp/4" });
}

abbrev pub next_stay : CreateFlexBooking
next_stay = record {
  property_flex_id = 1;
  professional_profile_id = some 1;
  pricing_plan_id = none;
  client_name = "Eva";
  client_email = none;
  client_phone = none;
  start_date = 3000000000;
  end_date = 4000000000;
  total_months = 1;
  monthly_amount = 90000;
  total_amount = 90000;
  notes = none;
}

abbrev pub staff : CurrentUser
staff = record { id = 2; roles = Role.admin ∷ [] }

abbrev pub settle_all : CreateSettlement
settle_all = record { professional_profile_ids = []; notes = none }

abbrev pub pay_today : MarkSettlementPaid
pay_today = record { payment_method = none; payment_reference = none; notes = none; paid_at = none }

abbrev pub requests : List (Env × MercadoPago × Request)
requests =
    (env, mercado_pago, Request.webhook (some (payment_event 9)))
    ∷ (env, mercado_pago, Request.create_flex next_stay (some staff))
    ∷ (env, mercado_pago, Request.cancel_booking 2 "Change of plans" (Actor.user 2))
    ∷ []

abbrev pub mp_payment : MpPayment
mp_payment = record {
  id = 9;
  status = MpStatus.approved;
  external_reference = some 1;
  transaction_amount = 20000;
}

abbrev pub half_year : CreatePricingPlan
half_year = record {
  code = PlanCode.month_6;
  label = "Half a year";
  min_months = 6;
  max_months = none;
  monthly_rent = 80000;
  currency = none;
  rent_includes_expenses = none;
  rent_includes_utilities = none;
  includes_linens = none;
  deposit_rule = none;
  custom_deposit_amount = none;
  entry_commission_rule = none;
  conditions_text = none;
  sort_order = none;
  is_active = none;
}
