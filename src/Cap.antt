-- ===== src/Cap.antt =====
-- app/services/cap.py: the verification of CAP tokens. The HTTP client is a parameter.
pub mod Laws
mod Examples
use billsons_forms.Base.{
  Bool, Option, Text, [], false, if◌then◌else◌, is_empty, leb, lit, nat_beq, nat_eq, none, not,
  some, text_beq, text_eq, true, ℕ, ◌++◌, ◌==◌, ◌||◌, ◌∷◌,
}
use billsons_forms.Strings.{Unicode, decimal, truthy}
use billsons_forms.Network.{NetworkLibrary}
use billsons_forms.Origins.{OriginLibrary}
use billsons_forms.Validation.Checks.{validate_endpoint_config}
use billsons_forms.Validation.{Errors, validate_http_url}

pub data CapStatus : Type 0 where
  success rejected unavailable invalid_config malformed_response : CapStatus

-- `status.value`.
abbrev pub status_value : CapStatus → Text
status_value success = lit "success"
status_value rejected = lit "rejected"
status_value unavailable = lit "unavailable"
status_value invalid_config = lit "invalid_config"
status_value malformed_response = lit "malformed_response"

pub record CapResult : Type 0 where
  pub status : CapStatus
  pub diagnostic : Text

abbrev pub is_success : CapStatus → Bool
is_success success = true
is_success _ = false

abbrev pub is_rejected : CapStatus → Bool
is_rejected rejected = true
is_rejected _ = false

abbrev pub verified : CapResult → Bool
verified result = is_success result.status

-- `response.json()`: a ValueError, no object with a boolean `success`, or that boolean.
pub data CapBody : Type 0 where
  not_json no_boolean : CapBody
  boolean : Bool → CapBody

-- `client.post`: a timeout or network error of the named type, another exception, or a response.
pub data CapReply : Type 0 where
  network_error : Text → CapReply
  other_exception : CapReply
  response : ℕ → CapBody → CapReply

-- The URL, and the secret and the token that are posted to it.
abbrev pub CapPost : Type 0
CapPost = Text → Text → Text → CapReply

abbrev pub error_of : Text → Errors → Text → Text
error_of field [] default = default
error_of field ((f, m) ∷ errors) default = if f == field then m else error_of field errors default

abbrev unavailable_status : ℕ → CapResult
unavailable_status status_code = record {
  status = unavailable;
  diagnostic = lit "CAP service returned HTTP " ++ decimal status_code ++ lit ".";
}

abbrev token_result : CapBody → CapResult
token_result not_json = record {
  status = malformed_response;
  diagnostic = lit "CAP service returned non-JSON data.";
}
token_result no_boolean = record {
  status = malformed_response;
  diagnostic = lit "CAP response did not contain a boolean success value.";
}
token_result (boolean true) = record { status = success; diagnostic = lit "CAP token accepted." }
token_result (boolean false) = record { status = rejected; diagnostic = lit "CAP token rejected." }

abbrev unreachable : Text → CapResult
unreachable name = record {
  status = unavailable;
  diagnostic = lit "CAP service unavailable: " ++ name;
}

-- `none` where the exception is not caught.
unfoldable pub read_token_reply : CapReply → Option CapResult
read_token_reply (network_error name) = some (unreachable name)
read_token_reply other_exception = none
read_token_reply (response status_code body) =
    if leb 500 status_code
    then some (unavailable_status status_code)
    else if leb 400 status_code
    then some (record {
      status = malformed_response;
      diagnostic = lit "CAP service returned HTTP " ++ decimal status_code ++ lit ".";
    })
    else some (token_result body)

abbrev service_result : CapBody → CapResult
service_result not_json = record {
  status = malformed_response;
  diagnostic = lit "CAP service did not return JSON.";
}
service_result no_boolean = record {
  status = malformed_response;
  diagnostic = lit "CAP response shape was not recognised.";
}
service_result (boolean b) = record {
  status = success;
  diagnostic = lit "CAP siteverify endpoint is reachable and returned the expected response shape.";
}

unfoldable pub read_service_reply : CapReply → Option CapResult
read_service_reply (network_error name) = some (unreachable name)
read_service_reply other_exception = none
read_service_reply (response status_code body) =
    if leb 500 status_code
    then some (unavailable_status status_code)
    else some (service_result body)

module _ (u : Unicode) (net : NetworkLibrary) (lib : OriginLibrary) (post : CapPost) where
  abbrev pub url_errors : Text → Errors
  url_errors verify_url = (validate_http_url u net lib verify_url (lit "url") [] true).1

  unfoldable pub verify_cap_token : Text → Text → Text → Option CapResult
  verify_cap_token verify_url secret_key token =
      if not (is_empty (url_errors verify_url)) || not (truthy secret_key)
      then some (record {
        status = invalid_config;
        diagnostic =
            error_of (lit "url") (url_errors verify_url) (lit "CAP secret is not configured.");
      })
      else if not (truthy token)
      then some (record { status = rejected; diagnostic = lit "CAP token was missing." })
      else read_token_reply (post verify_url secret_key token)

  unfoldable pub test_cap_service : Text → Option CapResult
  test_cap_service verify_url =
      if not (is_empty (url_errors verify_url))
      then some (record {
        status = invalid_config;
        diagnostic = error_of (lit "url") (url_errors verify_url) [];
      })
      else read_service_reply
          (post verify_url (lit "configuration-test") (lit "configuration-test"))
