-- ===== src/History.antt =====
-- The status history of the bookings (`BookingStatusHistory` of prisma/schema.prisma), which every
-- change of a booking's status appends to, as the specification of the registry: the history
-- replayed gives each booking's status.
pub mod Laws
use deptoflex_back.Prelude.{
  All, List, Option, [], create, exists, false, if◌then◌else◌, includes, none, some, true, ℕ, ◌==◌,
  ◌or_else◌, ◌∷◌, ◌≡◌,
}
use deptoflex_back.Store.{Booking, BookingStatus, StatusHistory}

-- The status that the history gives a booking: that of its last entry.
unfoldable pub replay : ℕ → List StatusHistory → Option BookingStatus
replay id [] = none
replay id (h ∷ hs) = replay id hs or_else (if h.booking_id == id then some h.to_status else none)

-- Every entry starts where the history before it has left its booking.
unfoldable pub IsChained : List StatusHistory → List StatusHistory → Type 0
IsChained before [] = Unit
IsChained before (h ∷ hs) =
    (h.from_status ≡ replay h.booking_id before) × IsChained (create h before) hs

pub record IsLogged (bookings : List Booking) (history : List StatusHistory) : Type 0 where
  pub current : All (λ b. replay b.id history ≡ some b.status) bookings
  pub chained : IsChained [] history
  pub known : All (λ h. exists (λ b. b.id == h.booking_id) bookings ≡ true) history

-- What the generator of ids is relied on for: it returns no id in use.
pub record IsFresh (fresh : List ℕ → ℕ) : Type 0 where
  pub unused : (ids : List ℕ) → includes ids (fresh ids) ≡ false
