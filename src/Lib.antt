-- ===== src/Lib.antt =====
-- The booking and commission core of the DeptoFlex back end, a NestJS server over a Prisma
-- database.
--
-- The parts and how they interact. A flex reservation (src/modules/flex-bookings) is quoted by the
-- pricing plans of its property (src/modules/property-flex/flex-pricing.service.ts) and stored in
-- one transaction with its row in the registry of bookings (src/modules/bookings), the first entry
-- of that row's status history and its commission, whose rate comes from a cascade of agreements
-- (src/modules/commissions/commission-rates.service.ts). The guest pays online
-- (src/modules/payments/flex-booking-payments.service.ts): a notification of Mercado Pago confirms
-- the reservation and its row, which approves the commission (commission-workflow.service.ts).
-- Approved commissions are gathered into settlements (commission-settlements.service.ts).
-- Ambassadors ask for cancellations, which administrators approve
-- (booking-cancellation-requests.service.ts). Who may reserve as an ambassador is decided in
-- src/common/services/ambassador-access.service.ts. Leads (src/modules/leads) become bookings of
-- the registry, and so do the reservations that guests make at the booking engine
-- (src/modules/cloudbeds), which a search and an intent precede, or of which an ambassador's
-- session sends a notice (src/modules/ambassadors). Accounts, their sessions and the tokens mailed
-- to them are in src/modules/auth; agencies with their teams, and the approval and suspension of
-- ambassadors, in src/modules/professionals.
--
-- The files. Prelude has the names shared by all: tests, lists, tables as lists of rows with the
-- queries of Prisma, and texts. Store has the rows of prisma/schema.prisma, the database `Db`
-- (with the cache of the process), and `Action`, the monad of a method: it reads and writes the
-- database and may throw; `transaction` rolls back what a throw interrupts, and what was written
-- outside of one stays. Store/Hoare has triples over actions, which cover returns and throws, and
-- Store/Invariant the same rules with one predicate throughout. History defines when a registry
-- agrees with its history. Access, Auth, Workflow, Rates, Bookings, Pricing, FlexAvailability,
-- FlexBookings, Payments, Settlements, Cancellations, Leads, Cloudbeds and, in their children,
-- Professionals and Ambassadors each model the service that their first line names, a method
-- `executeCancellation` as the definition `execute_cancellation`, with the same guards in the same
-- order; their other children hold proofs, but Payments/Event, which reads the event of a
-- notification (src/modules/payments/mercadopago-webhook.util.ts). Auth/Requests and
-- Cloudbeds/Requests serve sequences of requests of one module, Requests those of the services
-- that write bookings, with the changes of their commissions and settlements. Tests has a small
-- database and, in its children, the theorems at it.
--
-- What is simplified. Ids, uuids in the code, are numbers, since they are only compared. Amounts
-- are whole cents and rates hundredths of a percent, as the columns hold them, and sums of them
-- are exact as those of Decimal are; dates are milliseconds, and are valid; a column without a
-- time keeps the midnight before (`date_of`), and the dates of searches and intents are given
-- without one. Quotes are computed in doubles: they give the nearest cent, and where the exact
-- amount is half-way between two cents, which of the two is a parameter (`ties_up`). The rows of
-- the roles are there, so that granting a role does not fail. What comes from outside is a
-- parameter: the clock, the rounding of a column Decimal(10,2), the generator of ids, the payment
-- token, random tokens, hashes and signed tokens, the answers of Mercado Pago, Google and the
-- booking engine, `none` where a call throws, and whether a mail of invitation can be sent.
-- Letters are changed to upper or lower case within ASCII, and a text is compared by its
-- characters. A table is a list in the order in which the database returns its rows; theorems hold
-- for every order. A query with a condition on a relation looks the related row up. Requests are
-- served one after the other, each reading what the one before has left, so races between two
-- requests are not covered. Mails and notifications, whose failure the code only logs, are
-- appended to an outbox. Loops run over lists; only the search for a free day takes fuel, for
-- which a unit for each day of its horizon is enough.
--
-- What is not modelled. The formatting of answers, pagination and lists, log lines, the validation
-- of input by decorators, and the routes; media, which rest on third-party services; the provider
-- that requests and parses the pages of the booking engine; the opening of an ambassador's
-- session, and the parsing of the fields of a notice, of which the result is given; the signature
-- of a notification; the request to be an ambassador, of which the checks of its team are
-- modelled, and its documents; the editing of properties, units and one's own profile; the
-- dashboards.
pub mod Prelude
pub mod Store
pub mod History
pub mod Access
pub mod Auth
pub mod Workflow
pub mod Professionals
pub mod Rates
pub mod Bookings
pub mod Pricing
pub mod Cloudbeds
pub mod Ambassadors
pub mod FlexAvailability
pub mod FlexBookings
pub mod Leads
pub mod Payments
pub mod Settlements
pub mod Cancellations
pub mod Requests
pub mod Tests
