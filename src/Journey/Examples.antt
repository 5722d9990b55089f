-- ===== src/Journey/Examples.antt =====
-- The submission of the samples, and the round of the worker that sends it.
use billsons_forms.Network.{
  contains_unsafe_text, dns_host, is_dns_label, is_email, normalize_hostname,
}
use billsons_forms.Strings.{
  contains_text, decimal, ends_with, split_char, split_first, split_last, starts_with, strip,
}
use billsons_forms.Base.{
  Text, [], contains, false, find, lit, nat_eq, refl, select, some, text_beq, text_eq, true, ◌∷◌,
  ◌≡◌,
}
use billsons_forms.Models.{Database, EmailDeliveryJob}
use billsons_forms.Email.{SmtpLibrary, send_submission_email, sent}
use billsons_forms.Forms.Accepted.{accepted, admissible}
use billsons_forms.Forms.Samples.{chunks, contact, contact_site, post, sample_forms}
use billsons_forms.Forms.Stages.{
  accept, address_submission, limit_submission, queue_submission, read_submission, submit_form,
  submit_to, verify_submission,
}
use billsons_forms.Queue.{
  claim_job, claimable, claimed, enqueue_payload, first_in_order, queued_job,
}
use billsons_forms.Queue.Steps.{start}
use billsons_forms.Platform.Samples.{sample_network, sample_settings, sample_unicode}
use billsons_forms.Snapshot.Samples.{codec, mail}
use billsons_forms.Worker.{Schedule, process_one}
use billsons_forms.Worker.Laws.{Written, outcome_row}
use billsons_forms.Journey.{submit_form-process_one}
use billsons_forms.Payloads.{
  content_length_error, parse_submission_payload, read_chunks, read_limited_body,
}
use billsons_forms.Snapshot.{
  create_delivery_snapshot, decrypt_value, encrypt_value, enqueue_delivery, has_duplicates,
  is_valid,
}
use billsons_forms.RateLimit.{check_rate_limit, upsert, window}
use billsons_forms.Origins.{apply_cors, origin_is_allowed, origins_from_storage}
use billsons_forms.ClientIp.{get_client_ip}
use billsons_forms.Forms.{
  delivery_log, endpoint_response, first_truthy, get_endpoint, lookup, reply_of,
}

abbrev smtp : SmtpLibrary Text
smtp = record { session = λ m. sent; show = λ t. t }

abbrev accepted_site : Database
accepted_site = (submit_form sample_forms contact_site (lit "c") post 5 6 [] chunks).1

abbrev undisturbed : Schedule
undisturbed = record {
  busy = λ id. false;
  claim_at = 7;
  ticks = record { others = λ d. d; at = 8; raises = false } ∷ [];
  others = λ d. d;
  finish_at = 9;
}

abbrev job : EmailDeliveryJob
job =
    claimed (lit "w") 7
      (queued_job sample_settings (some 1) (some (codec.encrypt [] mail.subject)) 6 1)

claim_runs : (claim_job sample_settings (λ id. false) accepted_site.jobs (lit "w") 7).0 ≡ some job
unfolding claim_job first_in_order claimable lit text_beq strip starts_with ends_with contains_text
    contains split_char split_last split_first normalize_hostname contains_unsafe_text dns_host
    is_dns_label is_email has_duplicates is_valid create_delivery_snapshot decrypt_value
    encrypt_value enqueue_delivery enqueue_payload origins_from_storage origin_is_allowed
    check_rate_limit window upsert decimal get_client_ip reply_of first_truthy lookup
    endpoint_response delivery_log get_endpoint accept queue_submission address_submission
    verify_submission read_submission limit_submission submit_to submit_form
    parse_submission_payload read_limited_body content_length_error read_chunks apply_cors find
    select
claim_runs = refl

submit_form-process_one_example :
    let round =
      process_one sample_settings sample_unicode sample_network codec smtp
        (lit "w")
        undisturbed
        accepted_site in
    let outcome = send_submission_email sample_unicode smtp mail in
    (round.0 ≡ true)
    × (row : EmailDeliveryJob) × (row.id ≡ 1)
    × Written 1 outcome (outcome_row 9 outcome row) round.1
unfolding accepted admissible lit text_beq
submit_form-process_one_example =
    submit_form-process_one sample_forms smtp contact_site (lit "c") post 5 6 [] contact chunks
      accepted accepted_site (lit "w") undisturbed job refl refl refl refl
      (record { keyed = tt; below = tt }) start (record { nobody = λ d. refl; succeeds = refl }, tt)
      (λ d. refl) claim_runs refl
