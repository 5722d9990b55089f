-- ===== src/Platform/Samples.antt =====
-- Concrete libraries, settings, users and a database, for the examples.
use billsons_forms.Network.{NetworkLibrary}
use billsons_forms.Base.{
  Option, Text, [], false, if◌then◌else◌, leb, lit, ltb, nat_beq, none, some, text_beq, true, ℕ,
  ◌&&◌, ◌++◌, ◌-◌, ◌∷◌,
}
use billsons_forms.Models.{Database, User, UserSession, empty}
use billsons_forms.Strings.{Unicode, join}
use billsons_forms.Config.{Settings}
use billsons_forms.Origins.{OriginLibrary}
use billsons_forms.Http.{Request}
use billsons_forms.ClientIp.{IpLibrary}
use billsons_forms.Platform.{Platform, mismatch, verified}

abbrev pub sample_settings : Settings
sample_settings = record {
  app_secret_key = [];
  base_url = [];
  secure_cookies = true;
  session_lifetime_hours = 2;
  login_rate_limit_requests = 2;
  login_rate_limit_window_seconds = 900;
  absolute_max_payload_kb = 1024;
  delivery_log_retention_days = 365;
  audit_log_retention_days = 730;
  expired_session_retention_days = 30;
  rate_limit_retention_hours = 0;
  queue_terminal_retention_days = 7;
  queue_max_attempts = 6;
  queue_lock_timeout_seconds = 300;
  queue_heartbeat_seconds = 60;
}

-- Blanks are the only spaces, and texts are their own lower case.
abbrev pub sample_unicode : Unicode
sample_unicode = record {
  is_space = λ c. nat_beq c 32;
  lower = λ t. t;
  upper = λ t. t;
  is_other = λ c. ltb c 32;
  digit = λ c. if leb b'0' c && leb c b'9' then some (c - b'0') else none;
}

-- Every text is the address that it prints.
abbrev pub sample_ip : IpLibrary Text Text
sample_ip = record { ip_address = λ t. some t; show = λ a. a; is_in = λ a n. text_beq a n }

-- The hashes are the texts themselves.
abbrev pub sample : Platform
sample = record {
  Address = Text;
  Network = Text;
  ip_library = sample_ip;
  trusted_proxy_networks = [];
  unicode = sample_unicode;
  settings = sample_settings;
  digest = λ t. t;
  hmac = λ key seed. key ++ seed;
  argon2_hash = λ salt password. password;
  argon2_verify = λ h password. if text_beq h password then verified else mismatch;
}

abbrev pub root_user : User
root_user = record {
  id = 1;
  username = lit "root";
  display_name = lit "Root";
  password_hash = lit "correct horse";
  role = lit "admin";
  is_active = true;
  is_deleted = false;
}

abbrev pub ada : User
ada = record {
  id = 2;
  username = lit "ada";
  display_name = lit "Ada";
  password_hash = lit "battery staple";
  role = lit "user";
  is_active = true;
  is_deleted = false;
}

abbrev pub session_of : ℕ → ℕ → Text → UserSession
session_of n user_id token = record {
  id = n;
  user_id = user_id;
  session_token_hash = token;
  expires_at = 1000;
  ip_address = none;
  user_agent = none;
}

-- The two users, each logged in.
abbrev pub site : Database
site = record {
  jobs = empty;
  logs = empty;
  buckets = empty;
  audits = empty;
  settings = empty;
  users = record { rows = root_user ∷ ada ∷ []; next_id = 3 };
  sessions = record {
    rows = session_of 1 1 (lit "r") ∷ session_of 2 2 (lit "a") ∷ [];
    next_id = 3;
  };
  endpoints = empty;
  recipients = empty;
}

-- A request with a session and a form token's seed.
abbrev pub request_with : Option Text → Option Text → Request
request_with session seed = record {
  client_host = some (lit "10.0.0.1");
  header = λ name. none;
  cookie = λ name.
      if text_beq name (lit "billsons_forms_session")
      then session
      else if text_beq name (lit "billsons_forms_csrf")
      then seed
      else none;
}

-- No text is an IP address, IDNA leaves names alone, and every text is an address.
abbrev pub sample_network : NetworkLibrary
sample_network = record {
  ip_compressed = λ t. none;
  idna = λ t. some t;
  is_digit = λ c. leb b'0' c && leb c b'9';
  parseaddr = λ t. ([], t);
}

-- Every text is split into one URL, with and without its default port.
abbrev pub sample_origins : OriginLibrary
sample_origins = record {
  urlsplit = λ t. some (record {
    scheme = lit "http";
    hostname = some (lit "b.c");
    username = none;
    password = none;
    port = if text_beq t (lit "http://b.c:80") then some 80 else none;
    netloc = lit "b.c";
    path = [];
    query = [];
    fragment = [];
  });
  load_list = λ t. none;
  dump_list = λ ts. join (lit ",") ts;
  urlunsplit = λ scheme netloc path query. scheme ++ lit "://" ++ netloc ++ path ++ query;
}
