-- ===== src/Auth.antt =====
-- app/auth/passwords.py, app/core/csrf.py, app/services/audit.py, app/web/auth.py and the guards of
-- app/web/dashboard.py and app/web/admin.py: who may do what, and the login and logout handlers.
pub mod Laws
mod Examples
use billsons_forms.Base.{
  Bool, List, Option, Text, [], all, contains, false, find, if◌then◌else◌, inl, inr, is_some, leb,
  length, lit, ltb, nat_beq, nat_eq, none, not, some, text_beq, text_eq, true, ℕ, ◌&&◌, ◌==◌, ◌∷◌,
  ◌⊎◌,
}
use billsons_forms.Models.{AuditLog, Database, User, fits, insert}
use billsons_forms.Strings.{contains_text, strip, truthy}
use billsons_forms.Http.{
  Request, Response, http_error, page, raised, redirect, redirect_with_cookie,
  redirect_without_cookie,
}
use billsons_forms.ClientIp.{get_client_ip}
use billsons_forms.RateLimit.{check_rate_limit, decision}
use billsons_forms.Sessions.{create_user_session, delete_user_session, get_user_from_session_token}
use billsons_forms.Platform.{Platform, Verification, invalid_hash, mismatch, verified}

-- `value or other` for an optional text.
abbrev pub or_text : Option Text → Text → Text
or_text none other = other
or_text (some []) other = other
or_text (some (c ∷ cs)) other = c ∷ cs

abbrev is_ascii : ℕ → Bool
is_ascii c = leb c 127

-- A test that appends its message.
abbrev pub error_if : Bool → Text → List Text → List Text
error_if test message errors = if test then message ∷ errors else errors

module _ (p : Platform) where
  unfoldable pub password_errors : Text → Text → List Text
  password_errors password username =
      error_if (ltb (length password) 12) (lit "Password must be at least 12 characters.") (
        error_if (ltb 1024 (length password)) (lit "Password is too long.") (
          error_if
            (truthy username && contains_text (p.unicode.lower password) (p.unicode.lower username))
            (lit "Password must not contain the username.")
            (error_if
              (contains (p.unicode.lower password)
                (lit "passwordpassword" ∷ lit "change-me-now" ∷ lit "billsonsforms" ∷ []))
              (lit "Choose a less common password.") [])))

  abbrev pub hash_password : Text → Text → Text
  hash_password salt password = p.argon2_hash salt password

  abbrev pub verification : Verification → Option Bool
  verification verified = some true
  verification mismatch = some false
  verification invalid_hash = none

  -- `none` where the exception is not caught.
  unfoldable pub verify_password : Text → Text → Option Bool
  verify_password password password_hash = verification (p.argon2_verify password_hash password)

  abbrev pub csrf_token : Text → Text
  csrf_token seed = p.hmac p.settings.app_secret_key seed

  -- `CSRFCookieMiddleware.dispatch`: the token that the pages carry, and the cookie that is set.
  -- `fresh` is what `secrets.token_urlsafe(32)` returns.
  unfoldable pub dispatch : Request → Text → Text × Option Text
  dispatch request fresh =
      let cookie = request.cookie (lit "billsons_forms_csrf") in
      let seed = or_text cookie fresh in
      (csrf_token seed, if is_some cookie then none else some seed)

  -- `compare_digest` raises a TypeError on text that is not ASCII. Equal tokens are, for the
  -- digest is in hex.
  abbrev refused_token : Text → Response
  refused_token csrf_token_value =
      if all is_ascii csrf_token_value then http_error 403 (lit "Invalid CSRF token.") else raised

  -- `require_csrf`: the exception that it raises, if any.
  unfoldable pub require_csrf : Request → Text → Option Response
  require_csrf request csrf_token_value = elim (request.cookie (lit "billsons_forms_csrf")) [
    | none ↦ some (http_error 403 (lit "Invalid CSRF token."))
    | some seed ↦
        if not (truthy seed)
        then some (http_error 403 (lit "Invalid CSRF token."))
        else if csrf_token seed == csrf_token_value
        then none
        else some (refused_token csrf_token_value)
  ]

  abbrev pub ip_of : Request → Option Text
  ip_of request = get_client_ip p.unicode p.ip_library p.trusted_proxy_networks request

  abbrev pub new_audit_log :
      Text → Option User → Option Text → Option Text → Option Text → ℕ → ℕ → AuditLog
  new_audit_log action user username details ip_address now id = record {
    id = id;
    user_id = elim user [ none ↦ none | some r ↦ some r.id ];
    username = elim user [ none ↦ username | some r ↦ some r.username ];
    action = action;
    details = details;
    ip_address = ip_address;
    created_at = now;
  }

  -- `create_audit_log`, which is always given the request.
  unfoldable pub create_audit_log :
      Database → Text → Option User → Option Text → Request → Option Text → ℕ → Database
  create_audit_log db action user username request details now = record db {
    audits = insert (new_audit_log action user username details (ip_of request) now) db.audits;
  }

  unfoldable pub get_current_user : Request → Database → ℕ → Option User
  get_current_user request db now =
      get_user_from_session_token p.digest db (request.cookie (lit "billsons_forms_session")) now

  -- `User | RedirectResponse`.
  unfoldable pub require_user : Option User → Response ⊎ User
  require_user none = inl (redirect (lit "/login"))
  require_user (some u) = inr u

  unfoldable pub require_admin : Response ⊎ User → Response ⊎ User
  require_admin (inl response) = inl response
  require_admin (inr u) = if u.role == lit "admin" then inr u else inl (redirect (lit "/dashboard"))

  abbrev pub may_log_in : Text → User → Bool
  may_log_in username r = r.username == username && r.is_active && not r.is_deleted

  abbrev pub hash_or_dummy : Option User → Text → Text
  hash_or_dummy none dummy_hash = dummy_hash
  hash_or_dummy (some u) dummy_hash = u.password_hash

  -- The audit log's column refuses a name of more than 100 characters.
  abbrev pub refuse_login : Request → Text → ℕ → Database → Response × Database
  refuse_login request username now db =
      if fits 100 (some username)
      then (
        page (lit "auth/login.html") 401 (some (lit "Invalid username or password.")),
        create_audit_log db (lit "Failed Login") none (some username) request
            (some (lit "Invalid credentials.")) now,
      )
      else (raised, db)

  -- Whether the column of the session takes the user agent.
  abbrev pub fits_session : Request → Bool
  fits_session request = fits 500 (request.header (lit "user-agent"))

  abbrev pub accept_login : Request → Text → User → Text → ℕ → Database → Response × Database
  accept_login request client_ip u raw_token now db =
      let (session_token, db') =
        create_user_session p.digest p.settings db u (some client_ip)
          (request.header (lit "user-agent")) raw_token now in
      (
        redirect_with_cookie (lit "/dashboard") session_token,
        create_audit_log db' (lit "Login") (some u) none request (some (lit "User logged in.")) now,
      )

  -- The part of `login_submit` behind the rate limit.
  unfoldable pub check_credentials :
      Request → Text → Text → Text → Text → Text → ℕ → Database → Response × Database
  check_credentials request client_ip username password dummy_hash raw_token now db =
      let user = find (may_log_in username) db.users.rows in
      elim (verify_password password (hash_or_dummy user dummy_hash)) [
        | none ↦ (raised, db)
        | some valid ↦ elim user [
          | none ↦ refuse_login request username now db
          | some u ↦
              if not valid
              then refuse_login request username now db
              else if fits_session request
              then accept_login request client_ip u raw_token now db
              else (raised, db)
        ]
      ]

  -- `login_submit`. The count of the rate limit is committed before the password is looked at.
  unfoldable pub login_submit :
      Request → Text → Text → Text → Text → ℕ → Database → Response × Database
  login_submit request username password dummy_hash raw_token now db =
      let client_ip = or_text (ip_of request) (lit "unknown") in
      let (decision, buckets) =
        check_rate_limit p.digest db.buckets (lit "login") client_ip
          p.settings.login_rate_limit_requests p.settings.login_rate_limit_window_seconds now in
      let db' = record db { buckets = buckets } in
      if not decision.allowed
      then (
        page (lit "auth/login.html") 429 (some (lit "Too many login attempts. Try again later.")),
        db',
      )
      else check_credentials request client_ip (strip p.unicode username) password dummy_hash
          raw_token now db'

  abbrev logged_out : Request → ℕ → Database → Option User → Database
  logged_out request now db none = db
  logged_out request now db (some u) =
      create_audit_log db (lit "Logout") (some u) none request (some (lit "User logged out.")) now

  unfoldable pub logout : Request → ℕ → Database → Response × Database
  logout request now db =
      let token = request.cookie (lit "billsons_forms_session") in
      let user = get_user_from_session_token p.digest db token now in
      let db' = logged_out request now db user in
      (redirect_without_cookie (lit "/login"), delete_user_session p.digest db' token)
