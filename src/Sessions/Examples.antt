-- ===== src/Sessions/Examples.antt =====
-- A login, a cleanup and a logout.
use billsons_forms.Base.{
  In, Text, [], false, find, here, none, refl, some, sym, text_beq, there, true, ◌∙◌, ◌∷◌, ◌≡◌,
}
use billsons_forms.Models.{Database, User, UserSession, empty, insert}
use billsons_forms.Config.{Settings}
use billsons_forms.Sessions.{create_user_session, get_user_from_session_token, new_session}
use billsons_forms.Sessions.Laws.{
  IsAuthentic, create-get_user, get_user_from_session_token-IsAuthentic,
}

abbrev same_text : Text → Text
same_text t = t

abbrev two_hours : Settings
two_hours = record {
  app_secret_key = [];
  base_url = [];
  secure_cookies = true;
  session_lifetime_hours = 2;
  login_rate_limit_requests = 10;
  login_rate_limit_window_seconds = 900;
  absolute_max_payload_kb = 1024;
  delivery_log_retention_days = 365;
  audit_log_retention_days = 730;
  expired_session_retention_days = 30;
  rate_limit_retention_hours = 0;
  queue_terminal_retention_days = 7;
  queue_max_attempts = 6;
  queue_lock_timeout_seconds = 300;
  queue_heartbeat_seconds = 60;
}

abbrev ada : User
ada = record {
  id = 1;
  username = 97 ∷ [];
  display_name = 65 ∷ [];
  password_hash = [];
  role = [];
  is_active = true;
  is_deleted = false;
}

abbrev site : Database
site = record {
  jobs = empty;
  logs = empty;
  buckets = empty;
  audits = empty;
  settings = empty;
  users = record { rows = ada ∷ []; next_id = 2 };
  sessions = empty;
  endpoints = empty;
  recipients = empty;
}

abbrev token : Text
token = 116 ∷ []

abbrev logged_in : Database
logged_in = record site {
  sessions = insert (new_session same_text two_hours ada none none token 5) empty;
}

create-get_user_example :
    get_user_from_session_token same_text
      (create_user_session same_text two_hours site ada none none token 5).1
      (some token)
      9
    ≡ some ada
create-get_user_example =
    create-get_user same_text two_hours site ada none none token 5 9 (tt, tt) (here refl) refl refl
      refl tt

get_user_runs : get_user_from_session_token same_text logged_in (some token) 9 ≡ some ada
unfolding get_user_from_session_token find text_beq
get_user_runs = refl

get_user_from_session_token-IsAuthentic_example : IsAuthentic same_text logged_in token 9 ada
get_user_from_session_token-IsAuthentic_example =
    get_user_from_session_token-IsAuthentic same_text logged_in token 9 ada get_user_runs

one_session :
    (r q : UserSession)
    → In r logged_in.sessions.rows
    → In q logged_in.sessions.rows
    → r.session_token_hash ≡ q.session_token_hash
    → r ≡ q
one_session r q (here e) (here f) _ = sym e ∙ f
one_session r q (here e) (there j) _ = elim j [ ]
one_session r q (there i) j _ = elim i [ ]
