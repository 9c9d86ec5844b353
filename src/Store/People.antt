-- ===== src/Store/People.antt =====
-- The rows of prisma/schema.prisma about accounts, leads and reservations made elsewhere. What is
-- random or hashed (a token, its hash, a password's hash) is only compared, so it is a number.
use deptoflex_back.Prelude.{Bool, Option, String, ℕ}
use deptoflex_back.Store.Status.{AmbassadorSessionStatus, IntentStatus, LeadStatus, TokenType}

pub record User : Type 0 where
  pub id : ℕ
  pub email : String
  pub password_hash : ℕ
  pub first_name : Option String
  pub last_name : Option String
  pub phone : Option String
  pub email_verified : Bool
  pub email_verified_at : Option ℕ
  pub terms_accepted_at : Option ℕ
  pub is_active : Bool
  pub deleted_at : Option ℕ

-- The column `refreshToken` holds the token's hash.
pub record Session : Type 0 where
  pub id : ℕ
  pub user_id : ℕ
  pub refresh_token : ℕ
  pub user_agent : Option String
  pub ip_address : Option String
  pub expires_at : ℕ
  pub revoked_at : Option ℕ

pub record VerificationToken : Type 0 where
  pub id : ℕ
  pub user_id : ℕ
  pub token : ℕ
  pub token_type : TokenType
  pub expires_at : ℕ
  pub used_at : Option ℕ

-- `UserCompanyMembership`; of its role, whether it is OWNER
pub record CompanyMembership : Type 0 where
  pub professional_profile_id : ℕ
  pub company_profile_id : ℕ
  pub is_owner : Bool

pub record CompanyProfile : Type 0 where
  pub id : ℕ
  pub name : String

-- `AmbassadorDocumentType`
pub data DocumentType : Type 0 where
  dni_front dni_back selfie cuit_certificate founding_document : DocumentType

pub record AmbassadorDocument : Type 0 where
  pub professional_profile_id : ℕ
  pub document_type : DocumentType

pub record Lead : Type 0 where
  pub id : ℕ
  pub professional_profile_id : Option ℕ
  pub unit_id : Option ℕ
  pub client_name : String
  pub client_email : Option String
  pub client_phone : Option String
  pub check_in_date : Option ℕ
  pub check_out_date : Option ℕ
  pub adults : ℕ
  pub children : ℕ
  pub notes : Option String
  pub status : LeadStatus
  pub source : Option String
  pub deleted_at : Option ℕ

pub record LeadRequest : Type 0 where
  pub lead_id : ℕ
  pub created_by : ℕ
  pub message : String

-- `Unit`
pub record RentalUnit : Type 0 where
  pub id : ℕ
  pub property_id : ℕ
  pub cloudbeds_room_type_id : Option ℕ
  pub deleted_at : Option ℕ

pub record ReservationIntent : Type 0 where
  pub id : ℕ
  pub property_id : ℕ
  pub room_type_id : ℕ
  pub rate_id : Option ℕ
  pub checkin : ℕ
  pub checkout : ℕ
  pub adults : ℕ
  pub children : ℕ
  pub total_amount : Option ℕ
  pub currency_code : String
  pub redirect_url : String
  pub status : IntentStatus
  pub user_id : Option ℕ
  pub professional_profile_id : Option ℕ
  pub ip_address : Option String
  pub user_agent : Option String
  pub expires_at : ℕ
  pub redirected_at : Option ℕ

-- `AmbassadorBookingSession`
pub record AmbassadorSession : Type 0 where
  pub id : ℕ
  pub professional_profile_id : ℕ
  pub status : AmbassadorSessionStatus
  pub is_guest : Bool
  pub tracking_token_hash : Option ℕ
  pub property_id : Option ℕ
  pub expires_at : Option ℕ
  pub booking_id : Option ℕ
  pub cloudbeds_reservation_id : Option ℕ
