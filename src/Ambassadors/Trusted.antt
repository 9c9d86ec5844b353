-- ===== src/Ambassadors/Trusted.antt =====
-- What a notice, which anyone can send, may bring about.
use deptoflex_back.Ambassadors.Notice.{
  NoticeAnswer, ReservationNotice, created, duplicate, handle_cloudbeds_reservation, is_past,
  notice_in, notice_once, noticed_commission, noticed_row, register_notice, token_fits,
}
use deptoflex_back.Prelude.{
  ==_iff, ==_self, Bool, List, Option, String, ap, arith, exists, false, find_first, has_text,
  if◌then◌else◌, map, none, not, refl, some, sym, trim, true, ℕ, ◌&&◌, ◌===◌, ◌==?◌, ◌==◌, ◌≡◌, ◌≤◌,
}
use deptoflex_back.Store.{
  AmbassadorSession, Booking, BookingStatus, Commission, CommissionStatus, Db, Env, add_commission,
  add_history, booking_status_enum, commission_status_enum, database, err, ok, ◌>>=◌,
}
use deptoflex_back.Store.Hoare.{
  Post, Triple, Triple-bind, Triple-branch, Triple-gets, Triple-modify, Triple-pure,
  Triple-throw_if, Triple-transaction,
}
use deptoflex_back.Prelude.Table.Laws.{exists-created}

-- A pending booking of the profile, under the id
abbrev pub is_noticed : ℕ → ℕ → Booking → Bool
is_noticed profile id b =
    b.id == id && b.status === BookingStatus.pending && b.professional_profile_id ==? profile

-- A commission of the booking that waits for validation
abbrev pub awaits_validation : ℕ → Commission → Bool
awaits_validation id c = c.booking_id == id && c.status === CommissionStatus.pending_validation

-- The session has not ended, if it ends at all.
abbrev pub IsOpen : ℕ → Option ℕ → Type 0
IsOpen now none = Unit
IsOpen now (some time) = now ≤ time

-- The sender has the token of a session that asks for one: a text of the hash that the session keeps.
abbrev pub HasToken : (String → ℕ) → Option ℕ → Option String → Type 0
HasToken hash none token = Unit
HasToken hash (some expected) none = ⊥
HasToken hash (some expected) (some token) =
    (has_text token ≡ true) × (hash (trim token) ≡ expected)

is_past-IsOpen : (env : Env) (time : Option ℕ) → is_past env time ≡ false → IsOpen env.now time
unfolding is_past
is_past-IsOpen env none e = tt
is_past-IsOpen env (some time) e = ground (arith, e)

token_fits-HasToken :
    (hash : String → ℕ) (expected : Option ℕ) (token : Option String)
    → not (token_fits hash expected token) ≡ false
    → HasToken hash expected token
unfolding token_fits
token_fits-HasToken hash none token e = tt
token_fits-HasToken hash (some expected) none e = absurd (ground (arith, e))
token_fits-HasToken hash (some expected) (some token) e =
    (ground (arith, e), (==_iff (hash (trim token)) expected).0 (ground (arith, e)))

-- What a created booking needs and brings
pub record IsTracked (env : Env) (hash : String → ℕ) (dto : ReservationNotice) (s : Db) (id : ℕ)
    (s' : Db) : Type 0 where
  pub session : AmbassadorSession
  pub found : find_first (λ x. x.id == dto.session_id) s.ambassador_sessions ≡ some session
  pub stands : IsOpen env.now session.expires_at
  pub token : HasToken hash session.tracking_token_hash dto.tracking_token
  pub booked : exists (is_noticed session.professional_profile_id id) s'.bookings ≡ true
  pub unpaid : exists (awaits_validation id) s'.commissions ≡ true

module _ (env : Env) (hash : String → ℕ) (dto : ReservationNotice) (s : Db) where
  abbrev Same : Db → Type 0
  Same s' = s' ≡ s

  -- A notice creates a booking, or changes nothing.
  abbrev pub IsSafe : NoticeAnswer → Db → Type 0
  IsSafe (created id) s' = IsTracked env hash dto s id s'
  IsSafe (duplicate id) s' = s' ≡ s
  IsSafe NoticeAnswer.session_not_found s' = s' ≡ s
  IsSafe NoticeAnswer.session_expired s' = s' ≡ s
  IsSafe NoticeAnswer.invalid_token s' = s' ≡ s

  module _ (x : AmbassadorSession) where
    abbrev Booked : ℕ → Db → Type 0
    Booked id s' = exists (is_noticed x.professional_profile_id id) s'.bookings ≡ true

    abbrev Anything : Db → Type 0
    Anything s' = Unit

    history_kept :
        (id : ℕ) (to : BookingStatus) (reason : Option String)
        → Triple Anything (Booked id) (add_history id none to reason none) (λ _. Booked id)
    unfolding add_history ◌>>=◌
    history_kept id to reason = record { at = λ s' h. h }

    -- A booking is under the id, and a commission of it waits for validation.
    abbrev Tracked : ℕ → Db → Type 0
    Tracked id s' = Booked id s' × (exists (awaits_validation id) s'.commissions ≡ true)

    either_way :
        (b : Bool) (s₁ s₂ : Db) (Q : Unit {0} → Db → Type 0)
        → Q tt s₂
        → Post Anything Q (if b then (err database, s₁) else (ok tt, s₂))
    either_way true s₁ s₂ Q q = tt
    either_way false s₁ s₂ Q q = q

    commission_added :
        (id : ℕ) (c : Commission)
        → Triple Anything
            (λ s'. (awaits_validation id c ≡ true) × Booked id s')
            (add_commission c)
            (λ _. Tracked id)
    unfolding add_commission
    commission_added id c = record {
      at = λ s' h.
          either_way _ _ _ (λ _. Tracked id)
            (h.1, exists-created (awaits_validation id) c s'.commissions h.0);
    }

    own_row :
        (place : Option ℕ × Option ℕ) (rows : List Booking)
        → let b = noticed_row env dto x place rows in
          is_noticed x.professional_profile_id b.id b ≡ true
    unfolding noticed_row
    own_row place rows =
        rw (==_self (env.fresh (map (λ b. b.id) rows)), ==_self x.professional_profile_id) refl

    register_notice-Tracked :
        (place : Option ℕ × Option ℕ) → Triple Same Same (register_notice env dto x place) Tracked
    unfolding register_notice noticed_row noticed_commission
    register_notice-Tracked place =
        Triple-transaction _ (λ _ e. e)
          (Triple-bind (λ _. Anything) _ _ (Triple-gets _ (λ _ _. tt))
            λ _.
              Triple-bind (λ _. Anything) _ _ (Triple-throw_if _ _ (λ _ _. tt) (λ _ _ _. tt))
                λ _.
                  Triple-bind (λ b s'. b ≡ noticed_row env dto x place s'.bookings) _ _
                    (Triple-gets _ (λ _ _. refl))
                    λ b.
                      Triple-bind (λ _. Booked b.id) _ _
                        (Triple-modify _ (λ s' e.
                          exists-created (is_noticed x.professional_profile_id b.id) b s'.bookings
                            (rw e (own_row place s'.bookings))))
                        λ _.
                          Triple-bind (λ _. Booked b.id) _ _ (history_kept b.id _ _)
                            λ _.
                              Triple-bind (λ _. Booked b.id) _ _ (Triple-gets _ (λ _ h. h))
                                λ rate.
                                  Triple-bind
                                    (λ c s'. (awaits_validation b.id c ≡ true) × Booked b.id s') _ _
                                    (Triple-gets _ (λ s' h. (rw (==_self b.id) refl, h)))
                                    λ c.
                                      Triple-bind (λ _. Tracked b.id) _ _ (commission_added b.id c)
                                        λ _.
                                          Triple-bind (λ _. Tracked b.id) _ _
                                            (Triple-modify _ (λ _ h. h))
                                            λ _. Triple-pure _ (λ _ h. h))

    notice_once-IsSafe :
        find_first (λ x. x.id == dto.session_id) s.ambassador_sessions ≡ some x
        → IsOpen env.now x.expires_at
        → HasToken hash x.tracking_token_hash dto.tracking_token
        → (existing : Option ℕ) → Triple Same Same (notice_once env dto x existing) IsSafe
    unfolding notice_once
    notice_once-IsSafe f o k (some id) = Triple-pure _ (λ _ e. e)
    notice_once-IsSafe f o k none =
        Triple-bind (λ _. Same) _ _ (Triple-gets _ (λ _ e. e))
          λ _.
            Triple-bind (λ _. Same) _ _ (Triple-gets _ (λ _ e. e))
              λ place. Triple-bind Tracked _ _ (register_notice-Tracked place) λ id.
                Triple-pure _ (λ s' h. record {
                  session = x;
                  found = f;
                  stands = o;
                  token = k;
                  booked = h.0;
                  unpaid = h.1;
                })

  notice_in-IsSafe :
      (o : Option AmbassadorSession)
      → find_first (λ x. x.id == dto.session_id) s.ambassador_sessions ≡ o
      → Triple Same Same (notice_in env hash dto o) IsSafe
  unfolding notice_in
  notice_in-IsSafe none f = Triple-pure _ (λ _ e. e)
  notice_in-IsSafe (some x) f =
      Triple-branch _ _ _ (λ _. Triple-pure _ (λ _ e. e))
        (λ p.
          Triple-branch _ _ _ (λ _. Triple-pure _ (λ _ e. e))
            (λ q.
              Triple-bind (λ _. Same) _ _ (Triple-gets _ (λ _ e. e))
                λ existing.
                  notice_once-IsSafe x f (is_past-IsOpen env x.expires_at p)
                    (token_fits-HasToken hash x.tracking_token_hash dto.tracking_token q) existing))

  -- A notice, which anyone can send, changes nothing unless it creates a booking. Then the session that
  -- it names is there and open, and the notice has the session's token if it asks for one; the booking
  -- is PENDING and the session's ambassador's, whatever the notice says, and a commission of it is
  -- PENDING_VALIDATION.
  pub handle_cloudbeds_reservation-IsSafe :
      Post Same IsSafe (handle_cloudbeds_reservation env hash dto s)
  unfolding handle_cloudbeds_reservation
  handle_cloudbeds_reservation-IsSafe =
      Triple.at
        (Triple-bind
          (λ o s'. (find_first (λ x. x.id == dto.session_id) s.ambassador_sessions ≡ o) × Same s') _
          _
          (Triple-gets _ (λ s' e.
            (ap (λ r. find_first (λ x. x.id == dto.session_id) r.ambassador_sessions) (sym e), e)))
          λ o. record { at = λ s' e. (notice_in-IsSafe o e.0).at s' e.1 })
        s refl
