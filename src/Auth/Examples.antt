-- ===== src/Auth/Examples.antt =====
-- A form token, and logins that are let in and refused.
use billsons_forms.Strings.{strip}
use billsons_forms.Base.{[], find, lit, none, refl, some, text_beq, ◌↔◌, ◌≡◌, ◌⊎◌}
use billsons_forms.Models.{User, insert}
use billsons_forms.Http.{Request, page, redirect_with_cookie}
use billsons_forms.RateLimit.{check_rate_limit, upsert}
use billsons_forms.Sessions.{create_user_session, new_session}
use billsons_forms.Platform.Samples.{request_with, sample, sample_settings, sample_unicode, site}
use billsons_forms.Auth.{check_credentials, dispatch, login_submit, require_csrf, verify_password}
use billsons_forms.Auth.Laws.{IsEntitled, dispatch-require_csrf, login_ip, login_submit-IsEntitled}

abbrev first_visit : Request
first_visit = request_with none none

abbrev later_visit : Request
later_visit = request_with none (some (lit "s"))

dispatch-require_csrf_example :
    (require_csrf sample later_visit (lit "s") ≡ none)
    ↔ ((dispatch sample first_visit (lit "s")).0 ≡ lit "s")
unfolding dispatch lit text_beq
dispatch-require_csrf_example =
    dispatch-require_csrf sample first_visit later_visit (lit "s") (lit "s") refl refl refl

login_submit-IsEntitled_example :
    ((login_submit sample first_visit
        (lit " ada")
        (lit "battery staple")
        []
        (lit "t")
        5
        site).1.sessions
      ≡ site.sessions)
    ⊎ ((u : User) × IsEntitled sample site
          (strip sample_unicode (lit " ada"))
          (lit "battery staple")
          u
        × ((login_submit sample first_visit
              (lit " ada")
              (lit "battery staple")
              []
              (lit "t")
              5
              site).0
            ≡ redirect_with_cookie (lit "/dashboard") (lit "t"))
        × ((login_submit sample first_visit
              (lit " ada")
              (lit "battery staple")
              []
              (lit "t")
              5
              site).1.sessions
            ≡ insert
                (new_session
                  (λ t. t)
                  sample_settings
                  u
                  (some (login_ip sample first_visit 5 site))
                  none
                  (lit "t")
                  5)
                site.sessions))
login_submit-IsEntitled_example =
    login_submit-IsEntitled sample first_visit (lit " ada") (lit "battery staple") [] (lit "t") 5
      site

login_runs :
    (login_submit sample first_visit (lit " ada") (lit "battery staple") [] (lit "t") 5 site).0
    ≡ redirect_with_cookie (lit "/dashboard") (lit "t")
unfolding login_submit check_credentials check_rate_limit verify_password create_user_session upsert
    find text_beq lit strip
login_runs = refl

wrong_password_runs :
    (login_submit sample first_visit (lit "ada") (lit "guess") [] (lit "t") 5 site).0
    ≡ page (lit "auth/login.html") 401 (some (lit "Invalid username or password."))
unfolding login_submit check_credentials check_rate_limit verify_password create_user_session upsert
    find text_beq lit strip
wrong_password_runs = refl
