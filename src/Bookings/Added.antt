-- ===== src/Bookings/Added.antt =====
-- A row that is added to the registry with the first entry of its history, as the transactions of
-- src/modules/bookings, src/modules/leads, src/modules/cloudbeds and src/modules/ambassadors do.
use deptoflex_back.Bookings.Rules.{DbIsLogged, add_history_rule}
use deptoflex_back.History.{IsFresh, IsLogged}
use deptoflex_back.History.Laws.{IsLogged-create}
use deptoflex_back.Prelude.{
  List, Option, String, create, exists, false, map, none, refl, sym, ◌==◌, ◌∙◌, ◌≡◌,
}
use deptoflex_back.Prelude.Table.Laws.{includes-map}
use deptoflex_back.Store.{
  Action, Actor, Booking, BookingStatus, Env, add_history, gets, history_row, modify, ◌>>=◌, ◌>>◌,
}
use deptoflex_back.Store.Hoare.{Triple, Triple-bind, Triple-gets, Triple-modify}

-- A new booking's id is in no row.
pub fresh_id :
    (env : Env)
    → IsFresh env.fresh
    → (bs : List Booking) → exists (λ b. b.id == env.fresh (map (λ b. b.id) bs)) bs ≡ false
fresh_id env f bs =
    sym (includes-map (λ b. b.id) bs (env.fresh (map (λ b. b.id) bs)))
    ∙ f.unused (map (λ b. b.id) bs)

module _ {A : Type 0} (env : Env) (fresh : IsFresh env.fresh) (make : List Booking → Booking)
    (own : (rows : List Booking) → (make rows).id ≡ env.fresh (map (λ b. b.id) rows))
    (to : BookingStatus) (stands : (rows : List Booking) → (make rows).status ≡ to)
    (reason : Option String) (by : Option Actor) where
  pub add_booking_rule :
      (rest : Booking → Action A)
      → ((b : Booking) → Triple (λ _. Unit) DbIsLogged (rest b) (λ _. DbIsLogged))
      → Triple
          (λ _. Unit)
          DbIsLogged
          (gets (λ s. make s.bookings) >>= λ b.
            modify (λ s. record s { bookings = create b s.bookings })
            >> (add_history b.id none to reason by >> rest b))
          (λ _. DbIsLogged)
  add_booking_rule rest t =
      Triple-bind (λ b s. (b ≡ make s.bookings) × DbIsLogged s) _ _
        (Triple-gets _ (λ _ h. (refl, h)))
        λ b.
          Triple-bind
            (λ _ s.
              IsLogged s.bookings (create (history_row b.id none to reason by) s.status_history))
            _ _
            (Triple-modify _ (λ s p.
              IsLogged-create s.bookings s.status_history b (history_row b.id none to reason by)
                (rw (p.0, own s.bookings) (fresh_id env fresh s.bookings)) refl refl
                (rw (p.0, stands s.bookings) refl) p.1))
            λ _.
              Triple-bind (λ _. DbIsLogged) _ _ (add_history_rule b.id none to reason by) λ _. t b
