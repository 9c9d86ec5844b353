-- ===== src/Store/Status.antt =====
-- The enumerations of prisma/schema.prisma that the services compare.
use Prim.Native.Nat.{ℕ}
use deptoflex_back.Prelude.{Enum, ℕ}

pub data BookingStatus : Type 0 where
  pending confirmed cancelled completed no_show : BookingStatus

abbrev pub booking_status_code : BookingStatus → ℕ
booking_status_code BookingStatus.pending = 0
booking_status_code BookingStatus.confirmed = 1
booking_status_code BookingStatus.cancelled = 2
booking_status_code BookingStatus.completed = 3
booking_status_code BookingStatus.no_show = 4

instance abbrev pub booking_status_enum : Enum BookingStatus
booking_status_enum = record { code = booking_status_code }

pub data BookingSource : Type 0 where
  cloudbeds flex direct : BookingSource

abbrev pub booking_source_code : BookingSource → ℕ
booking_source_code BookingSource.cloudbeds = 0
booking_source_code BookingSource.flex = 1
booking_source_code BookingSource.direct = 2

instance abbrev pub booking_source_enum : Enum BookingSource
booking_source_enum = record { code = booking_source_code }

pub data FlexBookingStatus : Type 0 where
  pending confirmed cancelled completed : FlexBookingStatus

abbrev pub flex_booking_status_code : FlexBookingStatus → ℕ
flex_booking_status_code FlexBookingStatus.pending = 0
flex_booking_status_code FlexBookingStatus.confirmed = 1
flex_booking_status_code FlexBookingStatus.cancelled = 2
flex_booking_status_code FlexBookingStatus.completed = 3

instance abbrev pub flex_booking_status_enum : Enum FlexBookingStatus
flex_booking_status_enum = record { code = flex_booking_status_code }

pub data CommissionStatus : Type 0 where
  pending pending_validation approved paid cancelled : CommissionStatus

abbrev pub commission_status_code : CommissionStatus → ℕ
commission_status_code CommissionStatus.pending = 0
commission_status_code CommissionStatus.pending_validation = 1
commission_status_code CommissionStatus.approved = 2
commission_status_code CommissionStatus.paid = 3
commission_status_code CommissionStatus.cancelled = 4

instance abbrev pub commission_status_enum : Enum CommissionStatus
commission_status_enum = record { code = commission_status_code }

-- `FlexBookingPaymentStatus`
pub data PaymentStatus : Type 0 where
  pending approved rejected cancelled refunded : PaymentStatus

abbrev pub payment_status_code : PaymentStatus → ℕ
payment_status_code PaymentStatus.pending = 0
payment_status_code PaymentStatus.approved = 1
payment_status_code PaymentStatus.rejected = 2
payment_status_code PaymentStatus.cancelled = 3
payment_status_code PaymentStatus.refunded = 4

instance abbrev pub payment_status_enum : Enum PaymentStatus
payment_status_enum = record { code = payment_status_code }

-- `CommissionSettlementStatus`
pub data SettlementStatus : Type 0 where
  draft paid cancelled : SettlementStatus

abbrev pub settlement_status_code : SettlementStatus → ℕ
settlement_status_code SettlementStatus.draft = 0
settlement_status_code SettlementStatus.paid = 1
settlement_status_code SettlementStatus.cancelled = 2

instance abbrev pub settlement_status_enum : Enum SettlementStatus
settlement_status_enum = record { code = settlement_status_code }

-- `CancellationRequestStatus`
pub data RequestStatus : Type 0 where
  pending approved rejected : RequestStatus

abbrev pub request_status_code : RequestStatus → ℕ
request_status_code RequestStatus.pending = 0
request_status_code RequestStatus.approved = 1
request_status_code RequestStatus.rejected = 2

instance abbrev pub request_status_enum : Enum RequestStatus
request_status_enum = record { code = request_status_code }

pub data ProfessionalStatus : Type 0 where
  pending active suspended rejected : ProfessionalStatus

abbrev pub professional_status_code : ProfessionalStatus → ℕ
professional_status_code ProfessionalStatus.pending = 0
professional_status_code ProfessionalStatus.active = 1
professional_status_code ProfessionalStatus.suspended = 2
professional_status_code ProfessionalStatus.rejected = 3

instance abbrev pub professional_status_enum : Enum ProfessionalStatus
professional_status_enum = record { code = professional_status_code }

-- `FlexDepositRule`
pub data DepositRule : Type 0 where
  third_of_month one_month_rent custom : DepositRule

abbrev pub deposit_rule_code : DepositRule → ℕ
deposit_rule_code DepositRule.third_of_month = 0
deposit_rule_code DepositRule.one_month_rent = 1
deposit_rule_code DepositRule.custom = 2

instance abbrev pub deposit_rule_enum : Enum DepositRule
deposit_rule_enum = record { code = deposit_rule_code }

-- `FlexEntryCommissionRule`
pub data EntryCommissionRule : Type 0 where
  none_due third_first_month half_first_month seventy_first_month full_first_month :
      EntryCommissionRule

abbrev pub entry_commission_rule_code : EntryCommissionRule → ℕ
entry_commission_rule_code EntryCommissionRule.none_due = 0
entry_commission_rule_code EntryCommissionRule.third_first_month = 1
entry_commission_rule_code EntryCommissionRule.half_first_month = 2
entry_commission_rule_code EntryCommissionRule.seventy_first_month = 3
entry_commission_rule_code EntryCommissionRule.full_first_month = 4

instance abbrev pub entry_commission_rule_enum : Enum EntryCommissionRule
entry_commission_rule_enum = record { code = entry_commission_rule_code }

-- `FlexPricingPlanCode`
pub data PlanCode : Type 0 where
  month_1 month_3 month_6 year_1 year_2 : PlanCode

abbrev pub plan_code_code : PlanCode → ℕ
plan_code_code PlanCode.month_1 = 0
plan_code_code PlanCode.month_3 = 1
plan_code_code PlanCode.month_6 = 2
plan_code_code PlanCode.year_1 = 3
plan_code_code PlanCode.year_2 = 4

instance abbrev pub plan_code_enum : Enum PlanCode
plan_code_enum = record { code = plan_code_code }

pub data TokenType : Type 0 where
  email_verification password_reset : TokenType

abbrev pub token_type_code : TokenType → ℕ
token_type_code TokenType.email_verification = 0
token_type_code TokenType.password_reset = 1

instance abbrev pub token_type_enum : Enum TokenType
token_type_enum = record { code = token_type_code }

pub data LeadStatus : Type 0 where
  new contacted qualified proposal_sent negotiating won lost converted : LeadStatus

abbrev pub lead_status_code : LeadStatus → ℕ
lead_status_code LeadStatus.new = 0
lead_status_code LeadStatus.contacted = 1
lead_status_code LeadStatus.qualified = 2
lead_status_code LeadStatus.proposal_sent = 3
lead_status_code LeadStatus.negotiating = 4
lead_status_code LeadStatus.won = 5
lead_status_code LeadStatus.lost = 6
lead_status_code LeadStatus.converted = 7

instance abbrev pub lead_status_enum : Enum LeadStatus
lead_status_enum = record { code = lead_status_code }

-- `AmbassadorSessionStatus`
pub data AmbassadorSessionStatus : Type 0 where
  started received confirmed : AmbassadorSessionStatus

abbrev pub ambassador_session_status_code : AmbassadorSessionStatus → ℕ
ambassador_session_status_code AmbassadorSessionStatus.started = 0
ambassador_session_status_code AmbassadorSessionStatus.received = 1
ambassador_session_status_code AmbassadorSessionStatus.confirmed = 2

instance abbrev pub ambassador_session_status_enum : Enum AmbassadorSessionStatus
ambassador_session_status_enum = record { code = ambassador_session_status_code }

-- `ReservationIntentStatus`
pub data IntentStatus : Type 0 where
  pending redirected confirmed expired : IntentStatus

abbrev pub intent_status_code : IntentStatus → ℕ
intent_status_code IntentStatus.pending = 0
intent_status_code IntentStatus.redirected = 1
intent_status_code IntentStatus.confirmed = 2
intent_status_code IntentStatus.expired = 3

instance abbrev pub intent_status_enum : Enum IntentStatus
intent_status_enum = record { code = intent_status_code }
