-- ===== src/Production.antt =====
-- `production_errors` of app/core/config.py, and app/scripts/check_config.py. Fernet's check of a key
-- and the networks of `ipaddress` are parameters.
use billsons_forms.Base.{
  All, Bool, List, Option, Text, [], any, arith, false, holds, if◌then◌else◌, is_empty, is_empty-[],
  length, lit, ltb, map, nat_eq, none, not, refl, select, some, text_beq_iff, text_eq, true, ℕ,
  ◌&&◌, ◌++◌, ◌==◌, ◌||◌, ◌∷◌, ◌≡◌, ◌≢◌, ◌≤◌,
}
use billsons_forms.Strings.{Unicode, contains_text, join, split_char, starts_with, strip, truthy}
use billsons_forms.Network.{Result, err, ok}
use billsons_forms.ClientIp.{sequence}

-- The settings that only this check reads, and those it shares.
pub record Environment : Type 0 where
  pub app_env : Text
  pub app_debug : Bool
  pub app_secret_key : Text
  pub app_encryption_key : Text
  pub base_url : Text
  pub database_url : Text
  pub trusted_proxies : Text
  pub secure_cookies : Bool

pub record SubnetLibrary (Subnet : Type 0) : Type 0 where
  -- `ip_network(text, strict=False)`, `none` for its ValueError.
  pub ip_network : Text → Option Subnet
  pub prefixlen : Subnet → ℕ
  pub is_private : Subnet → Bool
  pub version : Subnet → ℕ
  -- `==` of two networks.
  pub same : Subnet → Subnet → Bool
  -- Whether `Fernet(text.encode("ascii"))` takes the key.
  pub is_fernet_key : Text → Bool

-- The messages of the checks that fail, in order.
unfoldable pub failures : List (Bool × Text) → List Text
failures [] = []
failures ((passed, message) ∷ checks) =
    let rest = failures checks in if passed then rest else message ∷ rest

failures-none : (checks : List (Bool × Text)) → failures checks ≡ [] → All (λ c. c.0 ≡ true) checks
unfolding failures
failures-none [] h = tt
failures-none ((true, message) ∷ checks) h = (refl, failures-none checks h)
failures-none ((false, message) ∷ checks) h = absurd (cc)

append-none : {A : Type 0} (xs ys : List A) → xs ++ ys ≡ [] → (xs ≡ []) × (ys ≡ [])
append-none [] ys h = (refl, h)
append-none (x ∷ xs) ys h = absurd (cc)

any-none : {A : Type 0} (p : A → Bool) (xs : List A) → any p xs ≡ false → All (λ x. p x ≡ false) xs
any-none p [] h = tt
any-none p (x ∷ xs) h = (ground arith, any-none p xs (ground arith))

abbrev pub development_key : Text
development_key = lit "lvrmNO5YoDl8_pLcV4H_nTpg4LS7WwO8qSkEubdg76E="

module _ {Subnet : Type 0} (u : Unicode) (lib : SubnetLibrary Subnet) where
  unfoldable pub trusted_proxy_networks : Text → Option (List Subnet)
  trusted_proxy_networks trusted_proxies = sequence (
      map (λ item. lib.ip_network (strip u item))
        (select (λ item. truthy (strip u item)) (split_char b',' trusted_proxies)))

  abbrev is_broad_private : Subnet → Bool
  is_broad_private network =
      any (λ text. holds (lib.same network) (lib.ip_network text))
        (lit "10.0.0.0/8" ∷ lit "172.16.0.0/12" ∷ lit "192.168.0.0/16" ∷ lit "fc00::/7" ∷ [])

  unfoldable pub is_too_broad : Subnet → Bool
  is_too_broad network =
      lib.prefixlen network == 0
      || is_broad_private network
      || lib.is_private network && lib.version network == 4 && ltb (lib.prefixlen network) 16
      || lib.is_private network && lib.version network == 6 && ltb (lib.prefixlen network) 64

  abbrev pub proxy_errors : Option (List Subnet) → List Text
  proxy_errors none = lit "TRUSTED_PROXIES contains an invalid IP network" ∷ []
  proxy_errors (some networks) = failures (
      (not (is_empty networks), lit "TRUSTED_PROXIES must name the Traefik proxy network")
      ∷ (
        not (any is_too_broad networks),
        lit
            "TRUSTED_PROXIES must use the actual edge-network subnet, not a broad private or catch-all range",
      )
      ∷ [])

  abbrev pub checks : Environment → List (Bool × Text)
  checks s =
      (
        starts_with s.database_url (lit "postgresql://")
            || starts_with s.database_url (lit "postgresql+psycopg://"),
        lit "DATABASE_URL must use PostgreSQL",
      )
      ∷ (
        not (
            any (λ marker. contains_text (u.lower s.database_url) marker)
              (lit "change-this" ∷ lit "replace-with" ∷ lit ":password@" ∷ [])),
        lit "DATABASE_URL must not contain a placeholder database password",
      )
      ∷ (
        not (
            ltb (length s.app_secret_key) 32
            || contains_text (u.lower s.app_secret_key) (lit "change")),
        lit "APP_SECRET_KEY must be a non-placeholder secret of at least 32 characters",
      )
      ∷ (
        lib.is_fernet_key s.app_encryption_key,
        lit "APP_ENCRYPTION_KEY must be a valid Fernet key",
      )
      ∷ (
        not (s.app_encryption_key == development_key),
        lit "APP_ENCRYPTION_KEY must not use the development placeholder key",
      )
      ∷ (not s.app_debug, lit "APP_DEBUG must be false in production")
      ∷ (s.secure_cookies, lit "SECURE_COOKIES must be true in production")
      ∷ (starts_with s.base_url (lit "https://"), lit "BASE_URL must use HTTPS in production")
      ∷ []

  unfoldable pub production_errors : Environment → List Text
  production_errors s =
      failures (checks s) ++ proxy_errors (trusted_proxy_networks s.trusted_proxies)

  -- `main` of the script: what it prints, or the message that it exits with.
  unfoldable pub check_config : Environment → Result Text
  check_config s =
      let errors = if u.lower s.app_env == lit "production" then production_errors s else [] in
      if is_empty errors
      then ok (lit "configuration valid")
      else err
          (lit "Invalid production configuration:" ++ 10 ∷ lit "- " ++ join (10 ∷ lit "- ") errors)

  -- What a checked production configuration is safe from.
  pub record IsHardened (s : Environment) : Type 0 where
    pub secret_long : 32 ≤ length s.app_secret_key
    pub key_valid : lib.is_fernet_key s.app_encryption_key ≡ true
    pub key_changed : s.app_encryption_key ≢ development_key
    pub debug_off : s.app_debug ≡ false
    pub cookies_secure : s.secure_cookies ≡ true
    pub proxies_narrow :
        (networks : List Subnet) × (trusted_proxy_networks s.trusted_proxies ≡ some networks)
        × (networks ≢ [])
        × All (λ network. is_too_broad network ≡ false) networks

  narrow_proxies :
      (found : Option (List Subnet))
      → proxy_errors found ≡ []
      → (networks : List Subnet) × (found ≡ some networks)
        × (networks ≢ [])
        × All (λ network. is_too_broad network ≡ false) networks
  narrow_proxies none h = absurd (cc)
  narrow_proxies (some networks) h =
      let passed = failures-none _ h in
      (
        networks,
        refl,
        λ e. ground (arith, passed.0, e),
        any-none is_too_broad networks (ground (arith, passed.1)),
      )

  no_errors :
      (s : Environment)
      → u.lower s.app_env ≡ lit "production"
      → check_config s ≡ ok (lit "configuration valid")
      → is_empty (production_errors s) ≡ true
  unfolding check_config
  no_errors s production passed =
      ground (arith, passed, text_beq_iff (u.lower s.app_env) (lit "production"), production)

  -- A production configuration that passes the script's check has a long secret, an encryption key
  -- that is valid and not the one of the repository, no debug mode, cookies that are sent over HTTPS
  -- only, and trusts proxies in networks that are neither private ranges nor catch-alls.
  pub check_config-IsHardened :
      (s : Environment)
      → u.lower s.app_env ≡ lit "production"
      → check_config s ≡ ok (lit "configuration valid")
      → IsHardened s
  unfolding production_errors
  check_config-IsHardened s production passed =
      let (first, last) =
        append-none (failures (checks s)) _ (is_empty-[] _ (no_errors s production passed)) in
      let held = failures-none _ first in
      record {
        secret_long = ground (arith, held.1.1.0);
        key_valid = held.1.1.1.0;
        key_changed = λ e.
            ground (arith, held.1.1.1.1.0, text_beq_iff s.app_encryption_key development_key, e);
        debug_off = ground (arith, held.1.1.1.1.1.0);
        cookies_secure = held.1.1.1.1.1.1.0;
        proxies_narrow = narrow_proxies (trusted_proxy_networks s.trusted_proxies) last;
      }
