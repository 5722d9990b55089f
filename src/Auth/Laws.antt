-- ===== src/Auth/Laws.antt =====
-- What logins, logouts and form tokens guarantee.
use billsons_forms.RateLimit.{RateLimitResult, check_rate_limit}
use billsons_forms.Base.{
  Bool-cases, In, In-find, Option, Option-cases, Text, ap, arith, false, find, find-holds, inl, inr,
  lit, none, refl, some, text_beq_iff, true, ℕ, ◌↔◌, ◌∙◌, ◌≡◌, ◌⊎◌,
}
use billsons_forms.Models.{Database, RateLimitBucket, Table, User, fits, insert}
use billsons_forms.Strings.{strip, truthy}
use billsons_forms.Http.{Request, Response, redirect_with_cookie}
use billsons_forms.Sessions.{create_user_session, get_user_from_session_token, new_session}
use billsons_forms.Platform.{Platform, Verification, invalid_hash, mismatch, verified}
use billsons_forms.Auth.{
  accept_login, check_credentials, create_audit_log, csrf_token, dispatch, fits_session, ip_of,
  login_submit, may_log_in, or_text, require_csrf, verify_password,
}

Verification-cases : (v : Verification) → (v ≡ verified) ⊎ (v ≡ mismatch) ⊎ (v ≡ invalid_hash)
Verification-cases verified = inl refl
Verification-cases mismatch = inr (inl refl)
Verification-cases invalid_hash = inr (inr refl)

module _ (p : Platform) where
  -- A page's token fits the cookie that came with the page, and a request passes only with the
  -- token of its own cookie's seed.
  pub dispatch-require_csrf :
      (request later : Request) (fresh sent : Text)
      → truthy fresh ≡ true
      → request.cookie (lit "billsons_forms_csrf") ≡ none
      → later.cookie (lit "billsons_forms_csrf") ≡ (dispatch p request fresh).1
      → (require_csrf p later sent ≡ none) ↔ ((dispatch p request fresh).0 ≡ sent)
  unfolding require_csrf dispatch
  dispatch-require_csrf request later fresh sent ok first same = (
    λ passed. ground (arith, text_beq_iff (csrf_token p fresh) sent),
    λ fits. ground (arith, text_beq_iff (csrf_token p fresh) sent),
  )

  pub get_user-create_audit_log :
      (db : Database) (action : Text) (user : Option User) (username : Option Text)
      (request : Request) (details : Option Text) (now : ℕ) (token : Option Text) (later : ℕ)
      → get_user_from_session_token p.digest
          (create_audit_log p db action user username request details now)
          token
          later
        ≡ get_user_from_session_token p.digest db token later
  unfolding get_user_from_session_token create_audit_log
  get_user-create_audit_log db action user username request details now none later = refl
  get_user-create_audit_log db action user username request details now (some t) later = refl

  -- A login answers with a session only for a user that is active, not deleted, of the given name
  -- and with a stored hash that the password verifies against.
  pub record IsEntitled (db : Database) (username password : Text) (u : User) : Type 0 where
    pub known : In u db.users.rows
    pub named : u.username ≡ username
    pub active : u.is_active ≡ true
    pub not_deleted : u.is_deleted ≡ false
    pub password_matches : p.argon2_verify u.password_hash password ≡ verified

  module _ (request : Request) (client_ip username password dummy_hash raw_token : Text) (now : ℕ)
      (db : Database) where
    abbrev checked : Response × Database
    checked = check_credentials p request client_ip username password dummy_hash raw_token now db

    check_credentials-cases :
        (checked.1.sessions ≡ db.sessions)
        ⊎ ((u : User) × IsEntitled db username password u
            × (checked ≡ accept_login p request client_ip u raw_token now db))
    unfolding check_credentials verify_password create_user_session create_audit_log
    check_credentials-cases = elim (Option-cases (find (may_log_in p username) db.users.rows)) [
      | inl absent ↦ inl (ground arith)
      | inr (u, found) ↦ elim (Verification-cases (p.argon2_verify u.password_hash password)) [
        | inl fits ↦ elim (Bool-cases (fits_session p request)) [
          | inr long ↦ inl (ground (arith, long))
          | inl short ↦ inr (
            u,
            record {
              known = In-find _ db.users.rows found;
              named =
                  ground
                    (arith, find-holds _ db.users.rows u found, text_beq_iff u.username username);
              active = ground (arith, find-holds _ db.users.rows u found);
              not_deleted = ground (arith, find-holds _ db.users.rows u found);
              password_matches = fits;
            },
            ground (arith, short),
          )
        ]
        | inr (inl differs) ↦ inl (ground arith)
        | inr (inr invalid) ↦ inl (ground arith)
      ]
    ]

    -- The user that is found is let in with a password that verifies.
    pub check_credentials-accept_login :
        (u : User)
        → find (may_log_in p username) db.users.rows ≡ some u
        → p.argon2_verify u.password_hash password ≡ verified
        → fits_session p request ≡ true
        → checked ≡ accept_login p request client_ip u raw_token now db
    unfolding check_credentials verify_password create_audit_log create_user_session
    check_credentials-accept_login u found fits short = ground arith

  module _ (request : Request) (now : ℕ) (db : Database) where
    abbrev pub login_ip : Text
    login_ip = or_text (ip_of p request) (lit "unknown")

    -- The rate limit's answer to the request, and the table with the request counted.
    abbrev pub login_limit : RateLimitResult × Table RateLimitBucket
    login_limit =
        check_rate_limit p.digest db.buckets (lit "login") login_ip
          p.settings.login_rate_limit_requests p.settings.login_rate_limit_window_seconds now

    abbrev pub counted : Database
    counted = record db { buckets = login_limit.1 }

  module _ (request : Request) (username password dummy_hash raw_token : Text) (now : ℕ)
      (db : Database) where
    abbrev limit : RateLimitResult × Table RateLimitBucket
    limit = login_limit request now db

    abbrev login : Response × Database
    login = login_submit p request username password dummy_hash raw_token now db

    login_submit-limited : limit.0.allowed ≡ false → login.1 ≡ (counted request now db)
    unfolding login_submit
    login_submit-limited over = ground arith

    pub login_submit-allowed :
        limit.0.allowed ≡ true
        → login
          ≡ check_credentials p request
              (login_ip request now db)
              (strip p.unicode username)
              password
              dummy_hash
              raw_token
              now
              (counted request now db)
    unfolding login_submit
    login_submit-allowed under = ground arith

    -- A login opens a session only for a user that is active and not deleted, has the stripped name,
    -- and whose stored hash the password verifies against. The session is that user's, and the
    -- answer carries its token. Any other login leaves the sessions as they were.
    pub login_submit-IsEntitled :
        (login.1.sessions ≡ db.sessions)
        ⊎ ((u : User) × IsEntitled db (strip p.unicode username) password u
            × (login.0 ≡ redirect_with_cookie (lit "/dashboard") raw_token)
            × (login.1.sessions
                ≡ insert
                    (new_session p.digest p.settings u
                      (some (login_ip request now db))
                      (request.header (lit "user-agent"))
                      raw_token
                      now)
                    db.sessions))
    unfolding create_user_session create_audit_log
    login_submit-IsEntitled = elim (Bool-cases limit.0.allowed) [
      | inl under ↦
          elim (check_credentials-cases request (login_ip request now db) (strip p.unicode username)
            password dummy_hash raw_token now (counted request now db)) [
              | inl same ↦ inl (ap (λ x. x.1.sessions) (login_submit-allowed under) ∙ same)
              | inr (u, entitled, e) ↦
                  let all = login_submit-allowed under ∙ e in
                  inr (
                    u,
                    record {
                      known = entitled.known;
                      named = entitled.named;
                      active = entitled.active;
                      not_deleted = entitled.not_deleted;
                      password_matches = entitled.password_matches;
                    },
                    ap (λ x. x.0) all,
                    ap (λ x. x.1.sessions) all,
                  )
            ]
      | inr over ↦ inl (ap (λ x. x.sessions) (login_submit-limited over))
    ]
