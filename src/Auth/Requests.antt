-- ===== src/Auth/Requests.antt =====
-- The requests of src/modules/auth, and what the server does with a sequence of them.
use deptoflex_back.Auth.Service.{
  LogIn, Register, ResetPassword, forgot_password, google_login, login, logout, refresh,
  register_user, resend_verification, reset_password, verify_email,
}
use deptoflex_back.Auth.Tokens.{Meta, Security}
use deptoflex_back.Prelude.{List, Option, String, [], ℕ, ◌∷◌}
use deptoflex_back.Store.{Db, Env}

pub data AuthRequest : Type 0 where
  sign_up : Register → AuthRequest
  log_in : LogIn → Meta → AuthRequest
  log_in_with_google : ℕ → Meta → AuthRequest
  renew : ℕ → Meta → AuthRequest
  log_out : ℕ → AuthRequest
  verify_address : Option ℕ → AuthRequest
  resend : String → AuthRequest
  forgot : String → AuthRequest
  reset : ResetPassword → AuthRequest

unfoldable pub serve_auth : Env → Security → AuthRequest → Db → Db
serve_auth env sec (AuthRequest.sign_up dto) s = (register_user env sec dto s).1
serve_auth env sec (AuthRequest.log_in dto agent) s = (login env sec dto agent s).1
serve_auth env sec (AuthRequest.log_in_with_google token agent) s =
    (google_login env sec token agent s).1
serve_auth env sec (AuthRequest.renew raw_token agent) s = (refresh env sec raw_token agent s).1
serve_auth env sec (AuthRequest.log_out raw_token) s = (logout env sec raw_token s).1
serve_auth env sec (AuthRequest.verify_address token) s = (verify_email env token s).1
serve_auth env sec (AuthRequest.resend email) s = (resend_verification env sec email s).1
serve_auth env sec (AuthRequest.forgot email) s = (forgot_password env sec email s).1
serve_auth env sec (AuthRequest.reset dto) s = (reset_password env sec dto s).1

unfoldable pub run_auth : List (Env × Security × AuthRequest) → Db → Db
unfolding serve_auth
run_auth [] s = s
run_auth ((env, sec, r) ∷ rs) s = run_auth rs (serve_auth env sec r s)
