-- ===== src/Tests/Accounts.antt =====
-- The theorems about accounts and leads, at one account of the office.
use deptoflex_back.Auth.{
  AuthRequest, Meta, Register, ResetPassword, Security, find_session, find_token, find_user,
  is_void, login, refresh, register_user, reset_password, run_auth, verify_email,
}
use deptoflex_back.Auth.Spent.{run_auth-refuses}
use deptoflex_back.Prelude.{
  All, Option, [], arith, create, exists, find_first, is_some, none, refl, same_text, some, true, ℕ,
  ◌+◌, ◌==◌, ◌∷◌, ◌≡◌,
}
use deptoflex_back.Store.{
  Actor, Booking, BookingStatus, Db, Lead, LeadStatus, Session, TokenType, User, VerificationToken,
  bad_request, err, is_ok, ok, unauthorized,
}
use deptoflex_back.Tests.{env, office}
use deptoflex_back.Auth.Enrolment.{register_user-logs_in}
use deptoflex_back.Auth.Reset.{reset_password-recovers}
use deptoflex_back.Auth.Reuse.{refresh-revokes_reuse}
use deptoflex_back.Leads.{ConvertToBooking, convert_to_booking, live_lead, mark_converted}
use deptoflex_back.Leads.Converted.{convert_to_booking-once}

abbrev security : ℕ → Security
security drawn = record {
  random_token = drawn;
  random_password = "x";
  sha256 = λ token. token + 1;
  argon2_hash = λ _. 7;
  argon2_verify = λ hash _. hash == 7;
  sign = λ id _ _. id;
  google_payload = λ _. none;
  refresh_days = 7;
}

abbrev browser : Meta
browser = record { user_agent = none; ip_address = none }

abbrev eva : User
eva = record {
  id = 20;
  email = "eva@example.org";
  password_hash = 5;
  first_name = none;
  last_name = none;
  phone = none;
  email_verified = true;
  email_verified_at = some 1;
  terms_accepted_at = some 1;
  is_active = true;
  deleted_at = none;
}

abbrev session : ℕ → ℕ → Option ℕ → Session
session id hash revoked = record {
  id = id;
  user_id = 20;
  refresh_token = hash;
  user_agent = none;
  ip_address = none;
  expires_at = 2000;
  revoked_at = revoked;
}

abbrev reset_token : VerificationToken
reset_token = record {
  id = 1;
  user_id = 20;
  token = 30;
  token_type = TokenType.password_reset;
  expires_at = 2000;
  used_at = none;
}

abbrev request : Lead
request = record {
  id = 1;
  professional_profile_id = some 1;
  unit_id = none;
  client_name = "Leo";
  client_email = none;
  client_phone = none;
  check_in_date = none;
  check_out_date = none;
  adults = 2;
  children = 0;
  notes = none;
  status = LeadStatus.qualified;
  source = none;
  deleted_at = none;
}

-- Eva has a session of the token 40 and a revoked one of the token 50.
abbrev accounts : Db
accounts = record office {
  users = eva ∷ [];
  sessions = session 1 41 none ∷ session 2 51 (some 900) ∷ [];
  verification_tokens = reset_token ∷ [];
  leads = request ∷ [];
}

refresh-revokes_reuse_example :
    let r =
      refresh env (security 61) 40 browser (refresh env (security 60) 40 browser accounts).1 in
    (r.0 ≡ err unauthorized)
    × All (λ (y : Session). (y.user_id == 20) ≡ true → is_some y.revoked_at ≡ true) r.1.sessions
unfolding find_session find_first
refresh-revokes_reuse_example =
    refresh-revokes_reuse env env (security 60) (security 61) 40 browser browser accounts
      (session 1 41 none) refl refl

run_auth-refuses_example :
    (refresh env (security 61) 50 browser (
      run_auth
        ((env, security 60, AuthRequest.renew 40 browser)
          ∷ (env, security 70, AuthRequest.log_out 50)
          ∷ [])
        accounts)).0
    ≡ err unauthorized
unfolding find_session find_first
run_auth-refuses_example =
    run_auth-refuses
      ((env, security 60, AuthRequest.renew 40 browser)
        ∷ (env, security 70, AuthRequest.log_out 50)
        ∷ [])
      env (security 61) 50 browser accounts (session 2 51 (some 900)) refl refl

abbrev new_secret : ResetPassword
new_secret = record { token = 30; password = "secret" }

reset_password-recovers_example :
    let r = reset_password env (security 60) new_secret accounts in
    (r.0 ≡ ok tt)
    × ((reset_password env (security 61) (record { token = 30; password = "again" }) r.1).0
        ≡ err bad_request)
    × All (λ (x : Session). (x.user_id == 20) ≡ true → is_some x.revoked_at ≡ true) r.1.sessions
    × (is_ok
          (login env
            (security 61)
            (record { email = "eva@example.org"; password = "secret" })
            browser
            r.1).0
        ≡ true)
unfolding find_token is_void find_user find_first exists same_text
reset_password-recovers_example =
    reset_password-recovers env env (security 60) (security 61) new_secret "again" browser accounts
      reset_token eva refl refl refl refl refl refl refl refl

abbrev newcomer : Register
newcomer = record {
  email = "noa@example.org";
  password = "secret";
  first_name = "Noa";
  last_name = "Paz";
  phone = none;
}

register_user-logs_in_example :
    let r = register_user env (security 60) newcomer accounts in
    let v = verify_email env (some 60) r.1 in
    (is_ok r.0 ≡ true)
    × (v.0 ≡ ok tt)
    × (is_ok
          (login env
            (security 61)
            (record { email = "noa@example.org"; password = "secret" })
            browser
            v.1).0
        ≡ true)
unfolding exists same_text
register_user-logs_in_example =
    register_user-logs_in env env env (security 60) (security 61) newcomer browser accounts refl
      refl refl (omega arith) refl refl

abbrev stay : ConvertToBooking
stay = record {
  unit_id = 3;
  check_in_date = 3000000000;
  check_out_date = 4000000000;
  base_amount = 90000;
  total_amount = 90000;
  currency = none;
  notes = none;
}

convert_to_booking-once_example :
    let r = convert_to_booking env 1 stay (Actor.user 2) accounts in
    (r.0 ≡ ok 7)
    × ((b : Booking) × (r.1.bookings ≡ create b accounts.bookings)
        × (b.lead_id ≡ some 1)
        × (b.status ≡ BookingStatus.pending)
        × (b.professional_profile_id ≡ some 1)
        × (b.client_name ≡ "Leo"))
    × (find_first (live_lead 1) r.1.leads ≡ some (mark_converted request))
    × ((convert_to_booking env 1 stay (Actor.user 2) r.1).0 ≡ err bad_request)
unfolding find_first exists
convert_to_booking-once_example =
    convert_to_booking-once env env 1 2 stay stay (Actor.user 2) accounts request refl refl
      (omega arith)
