-- ===== src/Leads/History.antt =====
-- `LeadsService` beside the registry of bookings and its history.
use deptoflex_back.Bookings.Added.{add_booking_rule}
use deptoflex_back.Bookings.Rules.{DbIsLogged, SameLog, frame_rule}
use deptoflex_back.History.{IsFresh, IsLogged}
use deptoflex_back.Leads.Service.{
  ConvertToBooking, CreateLead, UpdateLead, add_note, booking_of_lead, convert_to_booking,
  create_lead, find_lead, mark_converted, soft_delete_lead, update_lead, update_lead_row,
}
use deptoflex_back.Prelude.{Option, String, arith, none, refl, some, ℕ}
use deptoflex_back.Store.{Actor, BookingStatus, Db, Env, Lead, ◌>>=◌}
use deptoflex_back.Store.Hoare.{
  Triple-bind, Triple-final, Triple-gets, Triple-pure, Triple-throw_if, Triple-transaction,
}

update_lead_row-SameLog : (id : ℕ) (f : Lead → Lead) (s : Db) → SameLog s (update_lead_row id f s)
unfolding update_lead_row
update_lead_row-SameLog id f s = (ground arith, ground arith)

find_lead-SameLog : (id : ℕ) (s : Db) → SameLog s (find_lead id s)
unfolding find_lead ◌>>=◌
find_lead-SameLog id s = (ground arith, ground arith)

-- `convertToBooking` starts the history of a new booking, given that the generated id is not in use.
pub convert_to_booking-IsLogged :
    (env : Env) (id : ℕ) (dto : ConvertToBooking) (by : Actor) (s : Db)
    → IsFresh env.fresh
    → DbIsLogged s
    → DbIsLogged (convert_to_booking env id dto by s).1
unfolding convert_to_booking booking_of_lead
convert_to_booking-IsLogged env id dto by s f l =
    Triple-final DbIsLogged DbIsLogged (convert_to_booking env id dto by) s
      (Triple-bind (λ _. DbIsLogged) _ _
        (frame_rule DbIsLogged IsLogged (find_lead id) (λ _ h. h) (find_lead-SameLog id))
        λ lead.
          Triple-bind (λ _. DbIsLogged) _ _ (Triple-gets _ (λ _ h. h))
            λ taken.
              Triple-bind (λ _. DbIsLogged) _ _ (Triple-throw_if taken _ (λ _ h. h) (λ _ _ h. h))
                λ _.
                  Triple-bind (λ _. DbIsLogged) _ _ (Triple-throw_if _ _ (λ _ h. h) (λ _ _ h. h))
                    λ _.
                      Triple-transaction _ (λ _ h. h)
                        (add_booking_rule env f (λ rows. booking_of_lead env lead dto rows)
                          (λ _. refl) BookingStatus.pending (λ _. refl) none (some by) _
                          λ b.
                            Triple-bind (λ _. DbIsLogged) _ _
                              (frame_rule (λ _. Unit) IsLogged _ (λ _ _. tt)
                                (update_lead_row-SameLog id mark_converted))
                              λ _. Triple-pure b.id (λ _ h. h)))
      l

pub create_lead-SameLog :
    (env : Env) (dto : CreateLead) (profile : Option ℕ) (s : Db)
    → SameLog s (create_lead env dto profile s)
unfolding create_lead ◌>>=◌
create_lead-SameLog env dto profile s = (refl, refl)

pub update_lead-SameLog : (id : ℕ) (dto : UpdateLead) (s : Db) → SameLog s (update_lead id dto s)
unfolding update_lead find_lead update_lead_row ◌>>=◌
update_lead-SameLog id dto s = (ground arith, ground arith)

pub add_note-SameLog :
    (id : ℕ) (message : String) (by : ℕ) (s : Db) → SameLog s (add_note id message by s)
unfolding add_note find_lead ◌>>=◌
add_note-SameLog id message by s = (ground arith, ground arith)

pub soft_delete_lead-SameLog : (env : Env) (id : ℕ) (s : Db) → SameLog s (soft_delete_lead env id s)
unfolding soft_delete_lead find_lead update_lead_row ◌>>=◌
soft_delete_lead-SameLog env id s = (ground arith, ground arith)
