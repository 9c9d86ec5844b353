-- ===== src/FlexBookings/Availability.antt =====
-- No double booking: `create` of src/modules/flex-bookings/flex-bookings.service.ts takes no stay
-- that overlaps another of the same property.
use deptoflex_back.Prelude.{
  Bool, List, Option, String, [], arith, create, date_of, exists, false, is_none, ltb, none, not,
  refl, some, sym, ℕ, ◌&&◌, ◌===◌, ◌==◌, ◌∙◌, ◌∷◌, ◌≡◌,
}
use deptoflex_back.FlexBookings.Create.{
  CreateFlexBooking, amounts_differ, create_flex_booking, new_flex_booking, overlaps, profile_for,
  register,
}
use deptoflex_back.Prelude.Table.Laws.{exists-create}
use deptoflex_back.Pricing.{PricingQuote, ensure_property, quote, quote_from}
use deptoflex_back.Store.{
  Action, Actor, BookingStatus, Commission, Db, Env, FlexBooking, FlexBookingStatus, Message,
  Result, add_commission, add_history, bad_request, booking_status_enum, database, err,
  flex_booking_status_enum, not_found, ok, send, ◌>>=◌,
}
use deptoflex_back.Access.{CurrentUser, assert_can_operate_as_ambassador}
use deptoflex_back.Store.Hoare.{
  Post, Triple, Triple-bind, Triple-final, Triple-gets, Triple-modify, Triple-pure, Triple-throw_if,
  Triple-transaction, Triple-when,
}

-- A row that holds its property: neither deleted nor cancelled.
abbrev pub is_active : FlexBooking → Bool
is_active b = is_none b.deleted_at && not (b.status === FlexBookingStatus.cancelled)

-- Two stays of one property that both hold it for some time.
abbrev pub clash : FlexBooking → FlexBooking → Bool
clash a b =
    is_active a
    && is_active b
    && a.property_flex_id == b.property_flex_id
    && ltb a.start_date b.end_date
    && ltb b.start_date a.end_date

-- No two rows clash.
abbrev pub IsFree : List FlexBooking → Type 0
IsFree [] = Unit
IsFree (b ∷ bs) = (exists (clash b) bs ≡ false) × IsFree bs

abbrev pub DbIsFree : Db → Type 0
DbIsFree s = IsFree s.flex_bookings

clash-overlaps :
    (a b : FlexBooking)
    → overlaps b.property_flex_id b.start_date b.end_date a ≡ false
    → clash a b ≡ false
unfolding overlaps
clash-overlaps a b h = ground arith

IsFree-create :
    (b : FlexBooking) (bs : List FlexBooking)
    → exists (overlaps b.property_flex_id b.start_date b.end_date) bs ≡ false
    → IsFree bs
    → IsFree (create b bs)
unfolding exists
IsFree-create b [] e h = (refl, tt)
IsFree-create b (d ∷ ds) e h = (
  exists-create (clash d) b ds ∙ rw (h.0) (clash-overlaps d b (ground arith)),
  IsFree-create b ds (ground arith) h.1,
)

-- What an action leaves alone: the flex bookings.
abbrev SameFlex : {A : Type 0} → Db → Result A × Db → Type 0
SameFlex s r = r.1.flex_bookings ≡ s.flex_bookings

module _ {A : Type 0} (E : Db → Type 0) (P : List FlexBooking → Type 0) where
  same_flex :
      (s : Db) (r : Result A × Db)
      → ((s' : Db) → P s'.flex_bookings → E s')
      → SameFlex s r
      → P s.flex_bookings
      → Post E (λ _ s'. P s'.flex_bookings) r
  same_flex s (ok a, s') h e l = rw e l
  same_flex s (err x, s') h e l = h s' (rw e l)

  flex_rule :
      (m : Action A)
      → ((s : Db) → P s.flex_bookings → E s)
      → ((s : Db) → SameFlex s (m s))
      → Triple E (λ s. P s.flex_bookings) m (λ _ s. P s.flex_bookings)
  flex_rule m h f = record { at = λ s l. same_flex s (m s) h (f s) l }

add_history-SameFlex :
    (id : ℕ) (from : Option BookingStatus) (to : BookingStatus) (reason : Option String)
    (by : Option Actor) (s : Db)
    → SameFlex s (add_history id from to reason by s)
unfolding add_history ◌>>=◌
add_history-SameFlex id from to reason none s = refl
add_history-SameFlex id from to reason (some Actor.system) s = refl
add_history-SameFlex id from to reason (some (Actor.user u)) s = refl

add_commission-SameFlex : (c : Commission) (s : Db) → SameFlex s (add_commission c s)
unfolding add_commission
add_commission-SameFlex c s = ground arith

quote-SameFlex :
    (env : Env) (id months : ℕ) (plan : Option ℕ) (s : Db) → SameFlex s (quote env id months plan s)
unfolding quote ensure_property quote_from ◌>>=◌
quote-SameFlex env id months plan s = ground arith

profile_for-SameFlex :
    (dto : CreateFlexBooking) (u : Option CurrentUser) (s : Db) → SameFlex s (profile_for dto u s)
unfolding profile_for assert_can_operate_as_ambassador ◌>>=◌
profile_for-SameFlex dto none s = refl
profile_for-SameFlex dto (some u) s = ground arith

module _ (dto : CreateFlexBooking) where
  -- The rows are free, and so is the stay of the request.
  abbrev CanTake : List FlexBooking → Type 0
  CanTake bs =
      (exists (overlaps dto.property_flex_id (date_of dto.start_date) (date_of dto.end_date)) bs
        ≡ false)
      × IsFree bs

  register-IsFree :
      (env : Env) (q : PricingQuote) (profile : Option ℕ)
      → Triple DbIsFree (λ s. CanTake s.flex_bookings) (register env dto q profile) (λ _. DbIsFree)
  unfolding register
  register-IsFree env q profile =
      Triple-transaction _ (λ _ p. p.1)
        (Triple-bind
          (λ b s.
            (b ≡ new_flex_booking env dto q profile s.flex_bookings) × CanTake s.flex_bookings)
          _ _ (Triple-gets _ (λ _ p. (refl, p)))
          λ b.
            Triple-bind
              (λ _ s.
                (b ≡ new_flex_booking env dto q profile s.flex_bookings) × CanTake s.flex_bookings)
              _ _ (Triple-gets _ (λ _ p. p))
              λ taken.
                Triple-bind
                  (λ _ s.
                    (b ≡ new_flex_booking env dto q profile s.flex_bookings)
                    × CanTake s.flex_bookings)
                  _ _ (Triple-throw_if taken database (λ _ _. tt) (λ _ _ p. p))
                  λ _.
                    Triple-bind (λ _. DbIsFree) _ _
                      (Triple-modify _
                        (λ s p. IsFree-create b s.flex_bookings (rw p.0 p.1.0) p.1.1))
                      λ _.
                        Triple-bind (λ _. DbIsFree) _ _ (Triple-gets _ (λ _ h. h))
                          λ row.
                            Triple-bind (λ _. DbIsFree) _ _ (Triple-modify _ (λ _ h. h))
                              λ _.
                                Triple-bind (λ _. DbIsFree) _ _
                                  (flex_rule _ IsFree _ (λ _ _. tt)
                                    (add_history-SameFlex row.id none BookingStatus.pending
                                      (some "Flex booking created") none))
                                  λ _.
                                    Triple-bind (λ _. DbIsFree) _ _ (Triple-gets _ (λ _ h. h))
                                      λ rate.
                                        Triple-bind (λ _. DbIsFree) _ _ (Triple-gets _ (λ _ h. h))
                                          λ c.
                                            Triple-bind (λ _. DbIsFree) _ _
                                              (flex_rule _ IsFree _ (λ _ _. tt)
                                                (add_commission-SameFlex c))
                                              λ _. Triple-pure _ (λ _ h. h))

  send_free : (m : Message) → Triple DbIsFree DbIsFree (send m) (λ _. DbIsFree)
  unfolding ◌>>=◌
  send_free m = record { at = λ s l. l }

  -- From the quote on, once the stay is known to be free.
  abbrev StaysFree : Db → Type 0
  StaysFree s = CanTake s.flex_bookings

  -- No two reservations of one property that are neither deleted nor cancelled overlap, after
  -- `create` as before it, whether it returns or throws.
  pub create_flex_booking-IsFree :
      (env : Env) (user : Option CurrentUser) (s : Db)
      → IsFree s.flex_bookings
      → IsFree (create_flex_booking env dto user s).1.flex_bookings
  unfolding create_flex_booking
  create_flex_booking-IsFree env user s l =
      Triple-final DbIsFree DbIsFree (create_flex_booking env dto user) s
        (Triple-bind (λ _. DbIsFree) _ _ (Triple-gets _ (λ _ h. h))
          λ there.
            Triple-bind (λ _. DbIsFree) _ _ (Triple-throw_if _ not_found (λ _ h. h) (λ _ _ h. h))
              λ _.
                Triple-bind (λ _. DbIsFree) _ _
                  (Triple-throw_if _ bad_request (λ _ h. h) (λ _ _ h. h))
                  λ _.
                    Triple-bind
                      (λ taken s.
                        (taken
                          ≡ exists
                              (overlaps dto.property_flex_id (date_of dto.start_date)
                                (date_of dto.end_date))
                              s.flex_bookings)
                        × DbIsFree s)
                      _ _ (Triple-gets _ (λ _ h. (refl, h)))
                      λ taken.
                        Triple-bind (λ _. StaysFree) _ _
                          (Triple-throw_if taken bad_request (λ _ p. p.1)
                            (λ e s p. (sym p.0 ∙ e, p.1)))
                          λ _.
                            Triple-bind (λ _. StaysFree) _ _
                              (flex_rule _ CanTake _ (λ _ p. p.1)
                                (quote-SameFlex env dto.property_flex_id dto.total_months
                                  dto.pricing_plan_id))
                              λ q.
                                Triple-bind (λ _. StaysFree) _ _
                                  (Triple-throw_if (amounts_differ dto q) bad_request (λ _ p. p.1)
                                    (λ _ _ p. p))
                                  λ _.
                                    Triple-bind (λ _. StaysFree) _ _
                                      (flex_rule _ CanTake _ (λ _ p. p.1)
                                        (profile_for-SameFlex dto user))
                                      λ profile.
                                        Triple-bind (λ _. DbIsFree) _ _
                                          (register-IsFree env q profile)
                                          λ r.
                                            Triple-bind (λ _. DbIsFree) _ _
                                              (send_free (Message.booking_created r.1))
                                              λ _.
                                                Triple-bind (λ _. DbIsFree) _ _
                                                  (Triple-when _ _ (λ _. send_free _) (λ _ h. h))
                                                  λ _. Triple-pure r.0 (λ _ h. h))
        l
