-- ===== src/Forms/Examples.antt =====
-- A form with one recipient, a submission to it in JSON, and one that is over the limit.
use billsons_forms.Queue.Steps.{start}
use billsons_forms.Queue.Lifecycle.{is_terminal}
use billsons_forms.Email.Laws.{IsReport}
use billsons_forms.Email.{SmtpLibrary, build_submission_email_body, mail_of, sent}
use billsons_forms.Base.{
  In, Text, [], contains, find, if◌then◌else◌, inr, lit, map, nat_eq, none, refl, select, some,
  text_beq, text_eq, true, ◌∷◌, ◌≡◌, ◌⊎◌,
}
use billsons_forms.Models.{Database, EmailDeliveryJob, FormEndpoint}
use billsons_forms.Strings.{join, split_char, strip}
use billsons_forms.Http.{Request}
use billsons_forms.Snapshot.{decrypt_job_snapshot}
use billsons_forms.Snapshot.Samples.{codec, mail}
use billsons_forms.RateLimit.{check_rate_limit, upsert}
use billsons_forms.Origins.{apply_cors, origin_is_allowed, origins_from_storage, preflight_response}
use billsons_forms.Network.{ok}
use billsons_forms.Platform.Samples.{sample_network, sample_unicode}
use billsons_forms.Forms.Accepted.{accepted, admissible}
use billsons_forms.Forms.Samples.{chunks, contact, contact_site, post, sample_forms}
use billsons_forms.Forms.{form_preflight, get_endpoint, origin_allowed}
use billsons_forms.Forms.Stages.{active_recipients, not_found, submit_form}
use billsons_forms.Forms.Refusals.{IsRefusal}
use billsons_forms.Forms.Acceptance.{IsAcceptance}
use billsons_forms.Forms.Submission.{
  form_preflight-origin_allowed, mail_of-IsAcceptance, submit_form-cases, submit_form-decrypt,
  submit_form_unread,
}

found_runs : get_endpoint contact_site (lit "c") ≡ some contact
unfolding get_endpoint find text_beq lit
found_runs = refl

submit_form-cases_example :
    let result = submit_form sample_forms contact_site (lit "c") post 5 6 [] chunks in
    (result ≡ (some (not_found sample_forms), contact_site))
    ⊎ ((e : FormEndpoint) × (get_endpoint contact_site (lit "c") ≡ some e)
        × (IsRefusal e.error_redirect_url contact_site result
            ⊎ IsAcceptance sample_forms e post 5 6 [] chunks contact_site result))
submit_form-cases_example = submit_form-cases sample_forms contact_site (lit "c") post 5 6 [] chunks

submit_form-decrypt_example :
    (k : EmailDeliveryJob) × In k
      (submit_form sample_forms contact_site (lit "c") post 5 6 [] chunks).1.jobs.rows
    × (k.id ≡ 1)
    × ((decrypt_job_snapshot sample_unicode sample_network codec k ≡ ok mail)
        ⊎ (is_terminal k.status ≡ true))
unfolding lit text_beq accepted admissible
submit_form-decrypt_example =
    submit_form-decrypt sample_forms contact_site (lit "c") post 5 6 [] contact chunks accepted
      (submit_form sample_forms contact_site (lit "c") post 5 6 [] chunks).1.jobs refl refl refl
      refl (record { keyed = tt; below = tt }) start

abbrev smtp : SmtpLibrary Text
smtp = record { session = λ m. sent; show = λ t. t }

mail_of-IsAcceptance_example :
    let sent_mail = mail_of sample_unicode smtp mail in
    (sent_mail.to
      ≡ join
          (lit ", ")
          (map (λ r. r.email) (active_recipients sample_forms contact post contact_site)))
    × (sent_mail.from ≡ ([], mail.sender_email))
    × (sent_mail.subject ≡ mail.subject)
    × IsReport smtp.show mail.submitted_fields sent_mail.body
    × (sent_mail.reply_to ≡ none)
    × (sent_mail.port ≡ mail.smtp_port)
unfolding accepted admissible build_submission_email_body join mail_of
mail_of-IsAcceptance_example =
    mail_of-IsAcceptance sample_forms contact_site (lit "c") post 5 6 [] smtp contact chunks
      accepted

-- The endpoint without any quota.
abbrev closed_site : Database
closed_site = record contact_site {
  endpoints = record { rows = record contact { rate_limit_requests = 0 } ∷ []; next_id = 2 };
}

submit_form_unread_example :
    submit_form sample_forms closed_site (lit "c") post 5 6 [] chunks
    ≡ submit_form sample_forms closed_site (lit "c") post 5 6 [] []
unfolding check_rate_limit upsert get_endpoint lit find text_beq
submit_form_unread_example =
    submit_form_unread sample_forms closed_site (lit "c") post 5 6 []
      (record contact { rate_limit_requests = 0 }) chunks [] refl (inr (refl, refl))

abbrev preflight : Request
preflight = record post {
  header = λ name.
      if text_beq name (lit "origin")
      then some (lit "http://b.c")
      else if text_beq name (lit "access-control-request-method")
      then some (lit "POST")
      else none;
}

preflight_runs : (form_preflight sample_forms contact_site (lit "c") preflight).status_code ≡ 204
unfolding lit text_beq strip split_char contains origins_from_storage origin_is_allowed get_endpoint
    apply_cors form_preflight preflight_response find select
preflight_runs = refl

form_preflight-origin_allowed_example :
    (e : FormEndpoint) × (get_endpoint contact_site (lit "c") ≡ some e)
    × (e.is_active ≡ true)
    × (origin_allowed sample_forms e preflight ≡ true)
form_preflight-origin_allowed_example =
    form_preflight-origin_allowed sample_forms contact_site (lit "c") preflight preflight
      preflight_runs refl
