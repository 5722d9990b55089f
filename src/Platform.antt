-- ===== src/Platform.antt =====
-- What the program takes from third-party libraries, as one record that the handlers are
-- parameterised by: `ipaddress`, the Unicode database, SHA-256, HMAC and argon2.
pub mod Samples
use billsons_forms.Base.{List, Text}
use billsons_forms.Strings.{Unicode}
use billsons_forms.ClientIp.{IpLibrary}
use billsons_forms.Config.{Settings}

-- `PasswordHasher.verify`: it returns true, raises one of the two errors that are caught, or raises
-- because the stored text is no hash.
pub data Verification : Type 0 where
  verified mismatch invalid_hash : Verification

pub record Platform : Type 1 where
  pub Address : Type 0
  pub Network : Type 0
  pub ip_library : IpLibrary Address Network
  pub trusted_proxy_networks : List Network
  pub unicode : Unicode
  pub settings : Settings
  -- `sha256(text).hexdigest()`.
  pub digest : Text → Text
  -- `hmac.new(key, seed, sha256).hexdigest()`.
  pub hmac : Text → Text → Text
  -- `PasswordHasher.hash`, with the salt that it draws, and `PasswordHasher.verify`.
  pub argon2_hash : Text → Text → Text
  pub argon2_verify : Text → Text → Verification
