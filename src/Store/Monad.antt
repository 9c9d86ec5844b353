-- ===== src/Store/Monad.antt =====
-- A service's method: the database it works on, the exceptions it throws, and transactions. What
-- was written before a throw stays written, but a transaction that throws is rolled back.
use deptoflex_back.Prelude.{Bool, List, Option, create, false, if◌then◌else◌, none, some, true, ℕ}
use deptoflex_back.Store.Availability.{AvailabilitySnapshot, CacheEntry}
use deptoflex_back.Store.People.{
  AmbassadorDocument, AmbassadorSession, CompanyMembership, CompanyProfile, Lead, LeadRequest,
  RentalUnit, ReservationIntent, Session, User, VerificationToken,
}
use deptoflex_back.Store.Rows.{
  AgencyTeamMember, Booking, CancellationRequest, Commission, FlexBooking, Message, Payment,
  PricingPlan, ProfessionalProfile, Property, PropertyFlex, RateOverride, Settlement, StatusHistory,
  UnitAvailability, UserRole,
}
use deptoflex_back.Store.Status.{EntryCommissionRule}

-- The exceptions, by the HTTP status that they answer with; `database` is one that the database
-- client throws: a row to update that is missing, or a unique column's value that is taken.
pub data Error : Type 0 where
  bad_request : Error
  unauthorized : Error
  forbidden : Error
  not_found : Error
  conflict : Error
  unavailable : Error
  database : Error
  remote : Error

pub data Result (A : Type 0) : Type 0 where
  ok : A → Result A
  err : Error → Result A

abbrev pub is_ok : {A : Type 0} → Result A → Bool
is_ok (ok a) = true
is_ok (err e) = false

-- The tables, and last the cache of the process.
pub record Db : Type 0 where
  pub profiles : List ProfessionalProfile
  pub user_roles : List UserRole
  pub team_members : List AgencyTeamMember
  pub properties : List Property
  pub property_flexes : List PropertyFlex
  pub pricing_plans : List PricingPlan
  pub flex_overrides : List RateOverride
  pub property_overrides : List RateOverride
  pub flex_bookings : List FlexBooking
  pub bookings : List Booking
  pub status_history : List StatusHistory
  pub unit_availability : List UnitAvailability
  pub commissions : List Commission
  pub settlements : List Settlement
  pub cancellation_requests : List CancellationRequest
  pub payments : List Payment
  pub outbox : List Message
  pub users : List User
  pub sessions : List Session
  pub verification_tokens : List VerificationToken
  pub company_memberships : List CompanyMembership
  pub company_profiles : List CompanyProfile
  pub ambassador_documents : List AmbassadorDocument
  pub leads : List Lead
  pub lead_requests : List LeadRequest
  pub units : List RentalUnit
  pub reservation_intents : List ReservationIntent
  pub availability_snapshots : List AvailabilitySnapshot
  pub availability_cache : List CacheEntry
  pub ambassador_sessions : List AmbassadorSession

-- What a request takes from outside: the clock, what a Decimal(10,2) column keeps of an exact
-- amount in millionths, the generator of ids, which sees the ids in use, the random token of a
-- payment link, and whether the double for a share of so many cents that ends in half a cent is
-- rounded up.
pub record Env : Type 0 where
  pub now : ℕ
  pub to_cents : ℕ → ℕ
  pub fresh : List ℕ → ℕ
  pub payment_token : ℕ
  pub ties_up : EntryCommissionRule → ℕ → Bool

abbrev pub Action : Type 0 → Type 0
Action A = Db → Result A × Db

module _ {A : Type 0} where
  unfoldable pub pure : A → Action A
  pure a s = (ok a, s)

  unfoldable pub throw : Error → Action A
  throw e s = (err e, s)

  unfoldable pub gets : (Db → A) → Action A
  gets f s = (ok (f s), s)

  -- `if (!row) throw …`
  unfoldable pub or_throw : Option A → Error → Action A
  unfolding pure throw
  or_throw none e = throw e
  or_throw (some a) e = pure a

  abbrev pub roll_back : Db → Result A × Db → Result A × Db
  roll_back s (ok a, s') = (ok a, s')
  roll_back s (err e, s') = (err e, s)

  -- `prisma.$transaction`
  unfoldable pub transaction : Action A → Action A
  transaction m s = roll_back s (m s)

  -- `if (c) { … } else { … }`
  unfoldable pub branch : Bool → Action A → Action A → Action A
  branch c m n s = if c then m s else n s

-- `if (c) throw …`
unfoldable pub throw_if : Bool → Error → Action (Unit {0})
throw_if c e s = (if c then err e else ok tt, s)

unfoldable pub modify : (Db → Db) → Action (Unit {0})
modify f s = (ok tt, f s)

-- A call whose outcome is only logged, as the notifications that end in `.catch(…)`.
unfoldable pub send : Message → Action (Unit {0})
unfolding modify
send m = modify λ s. record s { outbox = create m s.outbox }

-- `if (c) { … }`
unfoldable pub when : Bool → Action (Unit {0}) → Action (Unit {0})
when c m s = if c then m s else (ok tt, s)

module _ {A B : Type 0} where
  abbrev pub continue : (A → Action B) → Result A × Db → Result B × Db
  continue f (ok a, s) = f a s
  continue f (err e, s) = (err e, s)

  infixl 5 ◌>>=◌ ◌>>◌
  -- A proof that opens this opens the other ways to build an action too.
  unfoldable pub ◌>>=◌ : Action A → (A → Action B) → Action B
  unfolding pure throw gets or_throw transaction branch throw_if modify send when
  ◌>>=◌ m f s = continue f (m s)

  abbrev pub ◌>>◌ : Action A → Action B → Action B
  m >> k = m >>= λ _. k
