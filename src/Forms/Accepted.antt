-- ===== src/Forms/Accepted.antt =====
-- The submission of the samples passes every gate.
use mathlib.Core.Bool.{false≢true}
use billsons_forms.Base.{[], contains, find, lit, nat_eq, none, refl, select, text_beq, text_eq}
use billsons_forms.Strings.{
  contains_text, decimal, ends_with, split_char, split_first, split_last, starts_with, strip,
}
use billsons_forms.Payloads.{
  content_length_error, parse_submission_payload, read_chunks, read_limited_body,
}
use billsons_forms.Snapshot.{
  create_delivery_snapshot, decrypt_value, encrypt_value, enqueue_delivery, has_duplicates,
  is_valid,
}
use billsons_forms.Snapshot.Samples.{mail}
use billsons_forms.Queue.{enqueue_payload}
use billsons_forms.RateLimit.{check_rate_limit, upsert, window}
use billsons_forms.Origins.{apply_cors, origin_is_allowed, origins_from_storage}
use billsons_forms.ClientIp.{get_client_ip}
use billsons_forms.Network.{
  contains_unsafe_text, dns_host, is_dns_label, is_email, normalize_hostname,
}
use billsons_forms.Forms.Samples.{chunks, contact, contact_site, post, sample_forms}
use billsons_forms.Forms.{
  delivery_log, endpoint_response, first_truthy, get_endpoint, lookup, reply_of,
}
use billsons_forms.Forms.Stages.{
  accept, address_submission, limit_submission, queue_submission, read_submission, submit_form,
  submit_to, verify_submission,
}
use billsons_forms.Forms.Acceptance.{IsAcceptance, IsAdmissible}

unfoldable pub admissible : IsAdmissible sample_forms contact post 5 6 [] chunks contact_site
unfolding lit text_beq strip starts_with ends_with contains_text contains split_char split_last
    split_first normalize_hostname contains_unsafe_text dns_host is_dns_label is_email
    has_duplicates is_valid create_delivery_snapshot decrypt_value encrypt_value enqueue_delivery
    enqueue_payload origins_from_storage origin_is_allowed check_rate_limit window upsert decimal
    get_client_ip reply_of first_truthy lookup endpoint_response delivery_log get_endpoint accept
    queue_submission address_submission verify_submission read_submission limit_submission submit_to
    submit_form parse_submission_payload read_limited_body content_length_error read_chunks
    apply_cors find select
admissible = record {
  active = refl;
  allowed = refl;
  within_limit = λ on. refl;
  fields = mail.submitted_fields;
  size = 2;
  parsed = refl;
  cap_confirmed = λ on. absurd (false≢true on);
  some_recipient = refl;
  address = none;
  replied = refl;
  password = none;
  decrypted = refl;
  snapshot = mail;
  created = refl;
  loggable = refl;
}

-- The submission to the form is accepted.
unfoldable pub accepted :
    IsAcceptance sample_forms contact post 5 6 [] chunks contact_site
      (submit_form sample_forms contact_site (lit "c") post 5 6 [] chunks)
unfolding admissible lit text_beq strip starts_with ends_with contains_text contains split_char
    split_last split_first normalize_hostname contains_unsafe_text dns_host is_dns_label is_email
    has_duplicates is_valid create_delivery_snapshot decrypt_value encrypt_value enqueue_delivery
    enqueue_payload origins_from_storage origin_is_allowed check_rate_limit window upsert decimal
    get_client_ip reply_of first_truthy lookup endpoint_response delivery_log get_endpoint accept
    queue_submission address_submission verify_submission read_submission limit_submission submit_to
    submit_form parse_submission_payload read_limited_body content_length_error read_chunks
    apply_cors find select
accepted = record {
  passed = admissible;
  queued_once = refl;
  logged_once = (_, refl, refl, refl);
  answered = refl;
}
