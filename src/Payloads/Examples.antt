-- ===== src/Payloads/Examples.antt =====
-- A body in two chunks.
use billsons_forms.Integers.{int_digits, parse_int}
use billsons_forms.Base.{
  List, Text, [], if◌then◌else◌, leb, length, lit, none, refl, some, text_beq, ◌∷◌, ◌≡◌,
}
use billsons_forms.Strings.{count_char, split_first, strip, truthy}
use billsons_forms.Platform.Samples.{sample_unicode}
use billsons_forms.Http.{Request}
use billsons_forms.Payloads.{
  PayloadLibrary, body, body_error, content_length_error, json_error, parse_submission_payload,
  payload, read_chunks, read_limited_body,
}
use billsons_forms.Payloads.Laws.{concat_chunks, read_limited_body-limited}

abbrev two_chunks : List Text
two_chunks = lit "a=1" ∷ lit "&b" ∷ []

header_runs : content_length_error sample_unicode (some (lit "5")) 5 ≡ none
unfolding content_length_error strip lit int_digits parse_int count_char
header_runs = refl

read_limited_body-limited_example :
    read_limited_body sample_unicode (some (lit "5")) two_chunks 5 ≡ (
      if leb (length (concat_chunks two_chunks)) 5
      then body (concat_chunks two_chunks)
      else body_error 413 (lit "Payload too large."))
read_limited_body-limited_example =
    read_limited_body-limited sample_unicode (some (lit "5")) two_chunks 5 header_runs

too_long_runs :
    read_limited_body sample_unicode none two_chunks 4 ≡ body_error 413 (lit "Payload too large.")
unfolding read_limited_body content_length_error read_chunks lit
too_long_runs = refl

abbrev plain : PayloadLibrary Text
plain = record {
  loads = λ t. json_error;
  decode_utf8 = λ t. some t;
  parse_qs = λ t. some ((t, t ∷ []) ∷ []);
  text_value = λ t. t;
  list_value = λ ts. [];
  as_text = λ t. some t;
  is_truthy = truthy;
  show = λ t. t;
}

abbrev form_request : Request
form_request = record {
  client_host = none;
  header = λ name.
      if text_beq name (lit "content-type")
      then some (lit "application/x-www-form-urlencoded; charset=utf-8")
      else none;
  cookie = λ name. none;
}

parse_runs :
    parse_submission_payload sample_unicode plain form_request two_chunks 5
    ≡ payload ((lit "a=1&b", lit "a=1&b") ∷ []) 5
unfolding parse_submission_payload text_beq strip split_first lit read_limited_body
    content_length_error read_chunks
parse_runs = refl
