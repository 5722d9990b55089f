-- ===== src/Snapshot.antt =====
-- The snapshot of a delivery, app/services/delivery_queue.py, and app/core/encryption.py. JSON with
-- pydantic's type checks, and the Fernet cipher, are parameters.
pub mod Laws
pub mod Samples
mod Examples
use billsons_forms.Base.{
  Bool, List, Option, Text, [], any, contains, false, if◌then◌else◌, is_empty, leb, length, lit,
  ltb, nat_beq, nat_eq, none, not, some, text_beq, text_eq, true, ℕ, ◌&&◌, ◌==◌, ◌||◌, ◌∷◌,
}
use billsons_forms.Models.{EmailDeliveryJob, Table}
use billsons_forms.Config.{Settings}
use billsons_forms.Strings.{Unicode, truthy, truthy_option}
use billsons_forms.Network.{NetworkLibrary, Result, err, is_email, normalize_hostname, ok}
use billsons_forms.Queue.{enqueue_payload}

-- `Value` is `JsonValue`; the version, which is always 1, is left out.
pub record DeliverySnapshot (Value : Type 0) : Type 0 where
  pub submitted_fields : List (Text × Value)
  pub recipients : List Text
  pub sender_email : Text
  pub sender_name : Option Text
  pub subject : Text
  pub smtp_host : Text
  pub smtp_port : ℕ
  pub smtp_username : Option Text
  pub smtp_password : Option Text
  pub smtp_security : Text
  pub reply_to_email : Option Text

pub record Codec (Value : Type 0) : Type 0 where
  -- `snapshot.model_dump_json()`.
  pub dump : DeliverySnapshot Value → Text
  -- `json.loads` and the check of the fields' types, `none` where either raises.
  pub load : Text → Option (DeliverySnapshot Value)
  -- `fernet.encrypt`, with the nonce and the time that it takes, and `fernet.decrypt`, `none` for
  -- an InvalidToken.
  pub encrypt : Text → Text → Text
  pub decrypt : Text → Option Text

-- `len(set(values)) != len(values)`.
unfoldable pub has_duplicates : List Text → Bool
has_duplicates [] = false
has_duplicates (x ∷ xs) = contains x xs || has_duplicates xs

abbrev pub is_security : Text → Bool
is_security value = contains value (lit "none" ∷ lit "starttls" ∷ lit "ssl" ∷ [])

abbrev pub is_host : Text → Result Text → Bool
is_host value (ok normalized) = normalized == value
is_host value (err message) = false

module _ {Value : Type 0} (u : Unicode) (net : NetworkLibrary) (codec : Codec Value) where
  abbrev pub validate_recipients : List Text → Bool
  validate_recipients recipients =
      not (is_empty recipients || any (λ value. not (is_email u net value)) recipients)
      && not (has_duplicates recipients)

  abbrev pub validate_reply_to : Option Text → Bool
  validate_reply_to none = true
  validate_reply_to (some value) = is_email u net value

  abbrev pub validate_smtp_host : Text → Bool
  validate_smtp_host value = is_host value (normalize_hostname u net value)

  abbrev pub validate_smtp_port : ℕ → Bool
  validate_smtp_port value = leb 1 value && leb value 65535

  abbrev pub validate_strings : DeliverySnapshot Value → Bool
  validate_strings s =
      truthy s.subject
      && leb (length s.subject) 255
      && not (any (λ (key, value). not (truthy key) || ltb 500 (length key)) s.submitted_fields)

  -- The validators of the model, in order.
  unfoldable pub is_valid : DeliverySnapshot Value → Bool
  is_valid s =
      validate_recipients s.recipients
      && is_email u net s.sender_email
      && validate_reply_to s.reply_to_email
      && validate_smtp_host s.smtp_host
      && validate_smtp_port s.smtp_port
      && is_security s.smtp_security
      && validate_strings s

  -- `DeliverySnapshot.model_validate` behind the check of the types.
  abbrev pub model_validate : DeliverySnapshot Value → Option (DeliverySnapshot Value)
  model_validate s = if is_valid s then some s else none

  -- `create_delivery_snapshot`, `none` for a DeliverySnapshotError, on the fields as they are given.
  unfoldable pub create_delivery_snapshot : DeliverySnapshot Value → Option (DeliverySnapshot Value)
  create_delivery_snapshot fields = elim (normalize_hostname u net fields.smtp_host) [
    | err message ↦ none
    | ok host ↦ model_validate (record fields { smtp_host = host })
  ]

  unfoldable pub encrypt_value : Text → Option Text → Option Text
  encrypt_value nonce none = none
  encrypt_value nonce (some value) =
      if not (truthy value) then none else some (codec.encrypt nonce value)

  -- The result is `none` where decryption raises, and holds a `none` for an empty value.
  unfoldable pub decrypt_value : Option Text → Option (Option Text)
  decrypt_value none = some none
  decrypt_value (some value) =
      if not (truthy value)
      then some none
      else elim (codec.decrypt value) [ none ↦ none | some text ↦ some (some text) ]

  unfoldable pub enqueue_delivery :
      Settings
      → Table EmailDeliveryJob
      → Option ℕ
      → DeliverySnapshot Value
      → Text
      → ℕ
      → EmailDeliveryJob × Table EmailDeliveryJob
  enqueue_delivery s jobs endpoint_id snapshot nonce now =
      enqueue_payload s jobs endpoint_id (encrypt_value nonce (some (codec.dump snapshot))) now

  abbrev load_snapshot : Option (Option Text) → Option (DeliverySnapshot Value)
  load_snapshot (some (some raw)) = elim (codec.load raw) [
    | none ↦ none
    | some s ↦ model_validate s
  ]
  load_snapshot (some none) = none
  load_snapshot none = none

  -- The two errors that `decrypt_job_snapshot` raises.
  abbrev checked_snapshot : Option (DeliverySnapshot Value) → Result (DeliverySnapshot Value)
  checked_snapshot none = err (lit "Queued delivery snapshot could not be decrypted or validated.")
  checked_snapshot (some s) = ok s

  unfoldable pub decrypt_job_snapshot : EmailDeliveryJob → Result (DeliverySnapshot Value)
  decrypt_job_snapshot job =
      if not (truthy_option job.encrypted_payload)
      then err (lit "Queued delivery snapshot is missing.")
      else checked_snapshot (load_snapshot (decrypt_value job.encrypted_payload))
