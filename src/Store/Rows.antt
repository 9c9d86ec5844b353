-- ===== src/Store/Rows.antt =====
-- The rows of prisma/schema.prisma, with the columns that the services read or write. Ids are only
-- compared, so they are numbers. An amount is a number of cents and a rate a number of hundredths of
-- a percent, as the columns Decimal(10,2) and Decimal(5,2) hold them. A date or time is a number of
-- milliseconds since the epoch.
use deptoflex_back.Prelude.{Bool, Option, String, ℕ}
use deptoflex_back.Store.Status.{
  BookingSource, BookingStatus, CommissionStatus, DepositRule, EntryCommissionRule,
  FlexBookingStatus, PaymentStatus, PlanCode, ProfessionalStatus, RequestStatus, SettlementStatus,
}

-- The names of roles that the services test; `client` stands for every other name.
pub data Role : Type 0 where
  admin operator ambassador client : Role

-- The `personType` of a profile is kept as the one test that is made of it: is it COMPANY?
pub record ProfessionalProfile : Type 0 where
  pub id : ℕ
  pub user_id : ℕ
  pub is_company : Bool
  pub is_verified : Bool
  pub status : ProfessionalStatus
  pub default_commission_rate : ℕ
  pub verified_at : Option ℕ
  pub ambassador_requested_at : Option ℕ

-- `UserRole`, with the role's name
pub record UserRole : Type 0 where
  pub user_id : ℕ
  pub role : Role

pub record AgencyTeamMember : Type 0 where
  pub id : ℕ
  pub agency_profile_id : ℕ
  pub company_profile_id : Option ℕ
  pub user_id : Option ℕ
  pub email : String
  pub first_name : String
  pub last_name : String
  pub dni : String
  pub phone : String
  pub role_in_company : String
  pub is_active : Bool
  pub invited_at : Option ℕ
  pub deactivated_at : Option ℕ

pub record Property : Type 0 where
  pub id : ℕ
  pub commission_rate : Option ℕ
  pub default_currency : String
  pub cloudbeds_widget_property_id : Option ℕ
  pub cloudbeds_booking_slug : Option String
  pub deleted_at : Option ℕ

pub record PropertyFlex : Type 0 where
  pub id : ℕ
  pub name : String
  pub monthly_rate : ℕ
  pub currency : String
  pub min_months : ℕ
  pub deposit_amount : Option ℕ
  pub commission_rate : Option ℕ
  pub reservation_payment_amount : Option ℕ
  pub deleted_at : Option ℕ

-- `PropertyFlexPricingPlan`
pub record PricingPlan : Type 0 where
  pub id : ℕ
  pub property_flex_id : ℕ
  pub code : PlanCode
  pub label : String
  pub min_months : ℕ
  pub max_months : Option ℕ
  pub monthly_rent : ℕ
  pub currency : String
  pub rent_includes_expenses : Bool
  pub rent_includes_utilities : Bool
  pub includes_linens : Bool
  pub deposit_rule : DepositRule
  pub custom_deposit_amount : Option ℕ
  pub entry_commission_rule : EntryCommissionRule
  pub conditions_text : Option String
  pub sort_order : ℕ
  pub is_active : Bool

-- `AmbassadorFlexCommission` and `AmbassadorPropertyCommission`; `property` is the property's id.
pub record RateOverride : Type 0 where
  pub id : ℕ
  pub professional_profile_id : ℕ
  pub property : ℕ
  pub rate : ℕ

pub record FlexBooking : Type 0 where
  pub id : ℕ
  pub property_flex_id : ℕ
  pub professional_profile_id : Option ℕ
  pub client_name : String
  pub client_email : Option String
  pub client_phone : Option String
  pub start_date : ℕ
  pub end_date : ℕ
  pub total_months : ℕ
  pub monthly_amount : ℕ
  pub total_amount : ℕ
  pub deposit_amount : Option ℕ
  pub pricing_plan_id : Option ℕ
  pub plan_code : Option PlanCode
  pub entry_commission_amount : Option ℕ
  pub reservation_payment_amount : Option ℕ
  pub payment_token : Option ℕ
  pub currency : String
  pub status : FlexBookingStatus
  pub notes : Option String
  pub deleted_at : Option ℕ

pub record Booking : Type 0 where
  pub id : ℕ
  pub source : BookingSource
  pub lead_id : Option ℕ
  pub unit_id : Option ℕ
  pub property_id : Option ℕ
  pub property_flex_id : Option ℕ
  pub flex_booking_id : Option ℕ
  pub reservation_intent_id : Option ℕ
  pub cloudbeds_reservation_id : Option ℕ
  pub professional_profile_id : Option ℕ
  pub client_name : String
  pub client_email : Option String
  pub client_phone : Option String
  pub check_in_date : ℕ
  pub check_out_date : ℕ
  pub adults : ℕ
  pub children : ℕ
  pub total_nights : ℕ
  pub base_amount : ℕ
  pub total_amount : ℕ
  pub currency : String
  pub status : BookingStatus
  pub notes : Option String
  pub deleted_at : Option ℕ

-- `changedById`: a user, or the text `system` that the services fall back to.
pub data Actor : Type 0 where
  user : ℕ → Actor
  system : Actor

-- `BookingStatusHistory`
pub record StatusHistory : Type 0 where
  pub booking_id : ℕ
  pub from_status : Option BookingStatus
  pub to_status : BookingStatus
  pub reason : Option String
  pub changed_by : Option Actor

pub record UnitAvailability : Type 0 where
  pub unit_id : ℕ
  pub start_date : ℕ
  pub end_date : ℕ
  pub is_available : Bool
  pub booking_id : Option ℕ

pub record Commission : Type 0 where
  pub id : ℕ
  pub booking_id : ℕ
  pub professional_profile_id : Option ℕ
  pub settlement_id : Option ℕ
  pub rate : ℕ
  pub base_amount : ℕ
  pub commission_amount : ℕ
  pub currency : String
  pub status : CommissionStatus
  pub approved_at : Option ℕ
  pub paid_at : Option ℕ

-- `CommissionSettlement`
pub record Settlement : Type 0 where
  pub id : ℕ
  pub professional_profile_id : ℕ
  pub status : SettlementStatus
  pub total_amount : ℕ
  pub currency : String
  pub payment_method : Option String
  pub payment_reference : Option String
  pub notes : Option String
  pub paid_at : Option ℕ
  pub paid_by : Option ℕ

-- `BookingCancellationRequest`
pub record CancellationRequest : Type 0 where
  pub id : ℕ
  pub booking_id : ℕ
  pub requested_by : ℕ
  pub reason : String
  pub status : RequestStatus
  pub reviewed_by : Option ℕ
  pub reviewed_at : Option ℕ
  pub admin_notes : Option String

-- `FlexBookingPayment`; the provider is always Mercado Pago.
pub record Payment : Type 0 where
  pub id : ℕ
  pub flex_booking_id : ℕ
  pub status : PaymentStatus
  pub amount : ℕ
  pub currency : String
  pub mp_preference_id : Option ℕ
  pub mp_payment_id : Option ℕ
  pub checkout_url : Option String
  pub paid_at : Option ℕ
  pub created_at : ℕ

-- What the services send without using its outcome: notifications, mails, and entries of the audit
-- log.
pub data Message : Type 0 where
  booking_created : ℕ → Message
  booking_confirmed : ℕ → Message
  booking_cancelled : ℕ → String → Message
  flex_reservation_paid : ℕ → Message
  cancellation_requested : ℕ → ℕ → Message
  cancellation_rejected : ℕ → Message
  payment_required : ℕ → ℕ → Message
  reservation_confirmed_mail : ℕ → Message
  lead_created : ℕ → Message
  verification_mail : String → ℕ → Message
  password_reset_mail : String → ℕ → Message
  agency_invitation_mail : String → String → Message
  ambassador_approved : ℕ → Message
  ambassador_rejected : ℕ → Message
  ambassador_suspended : ℕ → Message
