-- ===== src/Payloads.antt =====
-- app/services/payloads.py: the body of a submission, read in the chunks that it arrives in, and its
-- two encodings. JSON, UTF-8 and `parse_qs` are parameters. Bytes are numbers below 256, and a header holds characters of Latin-1.
pub mod Laws
mod Examples
use billsons_forms.Http.{Request}
use billsons_forms.Integers.{ParsedInt, natural, negative, parse_int, value_error}
use billsons_forms.Base.{
  Bool, List, Option, Text, [], if◌then◌else◌, is_empty, length, lit, ltb, map, nat_beq, nat_eq,
  none, not, some, text_beq, text_eq, ℕ, ◌++◌, ◌==◌, ◌||◌, ◌∷◌,
}
use billsons_forms.Strings.{Unicode, or_empty, split_first, strip, truthy_option}

pub data BodyResult : Type 0 where
  body : Text → BodyResult
  body_error : ℕ → Text → BodyResult

-- The loop over the stream, on the bytes so far.
unfoldable pub read_chunks : ℕ → Text → List Text → BodyResult
read_chunks limit_bytes so_far [] = body so_far
read_chunks limit_bytes so_far (chunk ∷ chunks) =
    let rest = read_chunks limit_bytes (so_far ++ chunk) chunks in
    if ltb limit_bytes (length (so_far ++ chunk))
    then body_error 413 (lit "Payload too large.")
    else rest

abbrev pub declared_error : ℕ → ParsedInt → Option BodyResult
declared_error limit_bytes value_error =
    some (body_error 400 (lit "Invalid Content-Length header."))
declared_error limit_bytes negative = some (body_error 400 (lit "Invalid Content-Length header."))
declared_error limit_bytes (natural n) =
    if ltb limit_bytes n then some (body_error 413 (lit "Payload too large.")) else none

module _ (u : Unicode) where
  -- The error that the header alone makes.
  unfoldable pub content_length_error : Option Text → ℕ → Option BodyResult
  content_length_error content_length limit_bytes =
      if truthy_option content_length
      then declared_error limit_bytes (parse_int u (or_empty content_length))
      else none

  unfoldable pub read_limited_body : Option Text → List Text → ℕ → BodyResult
  read_limited_body content_length chunks limit_bytes =
      elim (content_length_error content_length limit_bytes) [
        | some error ↦ error
        | none ↦ read_chunks limit_bytes [] chunks
      ]

-- `json.loads`: an object, another value, a ValueError, or the RecursionError of a deep nesting.
pub data JsonResult (Value : Type 0) : Type 0 where
  json_object : List (Text × Value) → JsonResult Value
  json_other json_error json_too_deep : JsonResult Value

pub record PayloadLibrary (Value : Type 0) : Type 0 where
  pub loads : Text → JsonResult Value
  -- `body.decode("utf-8", errors="strict")`.
  pub decode_utf8 : Text → Option Text
  -- `parse_qs` with the options of the call, `none` for its ValueError.
  pub parse_qs : Text → Option (List (Text × List Text))
  -- A text and a list of texts as values, and `isinstance(value, str)`, `bool` and `str` of a value.
  pub text_value : Text → Value
  pub list_value : List Text → Value
  pub as_text : Value → Option Text
  pub is_truthy : Value → Bool
  pub show : Value → Text

-- The payload with its size, the HTTPException, or the exception that is not caught.
pub data ParsedPayload (Value : Type 0) : Type 0 where
  payload : List (Text × Value) → ℕ → ParsedPayload Value
  payload_error : ℕ → Text → ParsedPayload Value
  payload_raised : ParsedPayload Value

module _ {Value : Type 0} (u : Unicode) (lib : PayloadLibrary Value) where
  abbrev malformed : ParsedPayload Value
  malformed = payload_error 400 (lit "Malformed submission body.")

  abbrev from_json : ℕ → JsonResult Value → ParsedPayload Value
  from_json size (json_object fields) = payload fields size
  from_json size json_other = malformed
  from_json size json_error = malformed
  from_json size json_too_deep = payload_raised

  -- `values[-1] if len(values) == 1 else values`.
  abbrev form_value : Text × List Text → Text × Value
  form_value (key, value ∷ []) = (key, lib.text_value value)
  form_value (key, []) = (key, lib.list_value [])
  form_value (key, v ∷ w ∷ ws) = (key, lib.list_value (v ∷ w ∷ ws))

  abbrev from_form : ℕ → Option (List (Text × List Text)) → ParsedPayload Value
  from_form size none = malformed
  from_form size (some parsed) = payload (map form_value parsed) size

  abbrev decoded_form : Text → Option Text → ParsedPayload Value
  decoded_form bytes none = malformed
  decoded_form bytes (some decoded) = from_form (length bytes) (lib.parse_qs decoded)

  -- The two decoders, behind the read of the body.
  abbrev parse_body : Bool → BodyResult → ParsedPayload Value
  parse_body is_json (body_error status_code detail) = payload_error status_code detail
  parse_body is_json (body bytes) =
      if is_json
      then from_json (length bytes) (lib.loads (if is_empty bytes then lit "{}" else bytes))
      else decoded_form bytes (lib.decode_utf8 bytes)

  abbrev before_semicolon : Text → Text
  before_semicolon text = elim (split_first b';' text) [
    | none ↦ text
    | some (before, after) ↦ before
  ]

  unfoldable pub parse_submission_payload : Request → List Text → ℕ → ParsedPayload Value
  parse_submission_payload request chunks limit_bytes =
      let media_type =
        u.lower (strip u (before_semicolon (or_empty (request.header (lit "content-type"))))) in
      if not (
        media_type == lit "application/json"
        || media_type == lit "application/x-www-form-urlencoded")
      then payload_error 415 (
          lit
            "Only application/json and application/x-www-form-urlencoded are supported; file uploads are not accepted.")
      else parse_body (media_type == lit "application/json")
          (read_limited_body u (request.header (lit "content-length")) chunks limit_bytes)
