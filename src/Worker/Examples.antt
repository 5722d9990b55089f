-- ===== src/Worker/Examples.antt =====
-- Rounds of a worker that deliver, fail and lose a job.
use billsons_forms.Queue.Cases.{job_key}
use billsons_forms.Base.{
  Text, [], arith, contains, false, lit, nat_eq, none, refl, select, some, text_beq, text_eq, ◌∷◌,
  ◌≡◌,
}
use billsons_forms.Models.{Database, EmailDeliveryJob, processing, queued}
use billsons_forms.Models.Tables.{IsTable}
use billsons_forms.Strings.{contains_text, ends_with, split_char, split_last, starts_with, strip}
use billsons_forms.Network.{
  contains_unsafe_text, dns_host, is_dns_label, is_email, normalize_hostname, ok,
}
use billsons_forms.Queue.{claim_job, claimable, first_in_order}
use billsons_forms.Queue.Ownership.{Owns}
use billsons_forms.Platform.Samples.{sample_network, sample_settings, sample_unicode, site}
use billsons_forms.Snapshot.{decrypt_job_snapshot, decrypt_value, has_duplicates, is_valid}
use billsons_forms.Snapshot.Samples.{codec, mail}
use billsons_forms.Email.{SmtpLibrary, sent}
use billsons_forms.Worker.{Schedule}

-- A server that takes every mail.
abbrev smtp : SmtpLibrary Text
smtp = record { session = λ m. sent; show = λ t. t }

nobody_owns : ¬ Owns site.jobs 1 (lit "w")
nobody_owns (j, i, own) = elim i [ ]

abbrev held_job : EmailDeliveryJob
held_job = record {
  id = 1;
  endpoint_id = none;
  encrypted_payload = some (1 ∷ mail.subject);
  status = processing;
  attempts = 1;
  max_attempts = 3;
  available_at = 0;
  locked_at = some 5;
  locked_by = some (lit "w");
  delivered_at = none;
  terminal_at = none;
  last_error = none;
}

abbrev held : Database
held = record site { jobs = record { rows = held_job ∷ []; next_id = 2 } }

abbrev waiting : Database
waiting = record site {
  jobs = record {
    rows =
        record held_job { status = queued; locked_at = none; locked_by = none; attempts = 0 } ∷ [];
    next_id = 2;
  };
}

waiting-IsTable : IsTable job_key waiting.jobs
waiting-IsTable = record { keyed = (tt, tt); below = (omega arith, tt) }

abbrev undisturbed : Schedule
undisturbed = record {
  busy = λ id. false;
  claim_at = 5;
  ticks = record { others = λ d. d; at = 6; raises = false } ∷ [];
  others = λ d. d;
  finish_at = 9;
}

claim_runs : (claim_job sample_settings (λ id. false) waiting.jobs (lit "w") 5).0 ≡ some held_job
unfolding claim_job select first_in_order lit claimable
claim_runs = refl

readable_runs : decrypt_job_snapshot sample_unicode sample_network codec held_job ≡ ok mail
unfolding lit text_beq strip starts_with ends_with contains_text contains split_char split_last
    normalize_hostname contains_unsafe_text dns_host is_dns_label is_email has_duplicates is_valid
    decrypt_job_snapshot decrypt_value
readable_runs = refl
