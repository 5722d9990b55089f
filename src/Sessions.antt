-- ===== src/Sessions.antt =====
-- app/core/security.py and app/auth/sessions.py: login sessions. `digest` is SHA-256 in hex, and a
-- raw token is the text that `secrets.token_urlsafe` returned.
pub mod Laws
mod Examples
use billsons_forms.Base.{
  Bool, Option, Text, delete_where, find, if◌then◌else◌, ltb, nat_beq, nat_eq, none, not, some,
  text_beq, text_eq, ℕ, ◌&&◌, ◌*◌, ◌+◌, ◌==◌,
}
use billsons_forms.Models.{Database, User, UserSession, insert, seconds, with_rows}
use billsons_forms.Config.{Settings}
use billsons_forms.Strings.{truthy}

module _ (digest : Text → Text) where
  -- `hash_token`.
  abbrev pub hash_token : Text → Text
  hash_token token = digest token

  -- `verify_token`: `secrets.compare_digest` is equality of texts.
  abbrev pub verify_token : Text → Text → Bool
  verify_token token token_hash = hash_token token == token_hash

  abbrev pub new_session : Settings → User → Option Text → Option Text → Text → ℕ → ℕ → UserSession
  new_session s user ip_address user_agent raw_token now id = record {
    id = id;
    user_id = user.id;
    session_token_hash = hash_token raw_token;
    expires_at = now + seconds (3600 * s.session_lifetime_hours);
    ip_address = ip_address;
    user_agent = user_agent;
  }

  unfoldable pub create_user_session :
      Settings → Database → User → Option Text → Option Text → Text → ℕ → Text × Database
  create_user_session s db user ip_address user_agent raw_token now = (
    raw_token,
    record db {
      sessions = insert (new_session s user ip_address user_agent raw_token now) db.sessions;
    },
  )

  abbrev pub session_matches : Text → ℕ → UserSession → Bool
  session_matches token_hash now r = r.session_token_hash == token_hash && ltb now r.expires_at

  abbrev pub may_use : ℕ → User → Bool
  may_use user_id r = r.id == user_id && r.is_active && not r.is_deleted

  unfoldable pub get_user_from_session_token : Database → Option Text → ℕ → Option User
  get_user_from_session_token db none now = none
  get_user_from_session_token db (some raw_token) now =
      if truthy raw_token
      then elim (find (session_matches (hash_token raw_token) now) db.sessions.rows) [
        | none ↦ none
        | some session ↦
            if verify_token raw_token session.session_token_hash
            then find (may_use session.user_id) db.users.rows
            else none
      ]
      else none

  abbrev pub has_hash : Text → UserSession → Bool
  has_hash token_hash r = r.session_token_hash == token_hash

  unfoldable pub delete_user_session : Database → Option Text → Database
  delete_user_session db none = db
  delete_user_session db (some raw_token) =
      if truthy raw_token
      then elim (find (has_hash (hash_token raw_token)) db.sessions.rows) [
        | none ↦ db
        | some session ↦ record db {
          sessions =
              with_rows db.sessions (delete_where (λ r. r.id == session.id) db.sessions.rows);
        }
      ]
      else db

abbrev pub of_user : ℕ → UserSession → Bool
of_user user_id r = r.user_id == user_id

unfoldable pub delete_user_sessions : Database → ℕ → Database
delete_user_sessions db user_id = record db {
  sessions = with_rows db.sessions (delete_where (of_user user_id) db.sessions.rows);
}
