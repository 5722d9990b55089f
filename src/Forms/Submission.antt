-- ===== src/Forms/Submission.antt =====
-- What the API promises of a submission, from the request to the worker.
use billsons_forms.Base.{
  In, List, Option-cases, Text, [], ap, arith, false, inl, inr, lit, map, refl, some, subst, sym,
  true, ℕ, ◌≡◌, ◌⊎◌,
}
use billsons_forms.Models.{Database, EmailDeliveryJob, FormEndpoint}
use billsons_forms.Models.Tables.{IsTable}
use billsons_forms.Strings.{join, or_empty, or_none, truthy}
use billsons_forms.Http.{Request}
use billsons_forms.Snapshot.{decrypt_job_snapshot, enqueue_delivery}
use billsons_forms.Snapshot.Laws.{create_delivery_snapshot_lem, enqueue-decrypt}
use billsons_forms.Queue.{enqueue_payload}
use billsons_forms.Queue.Cases.{Jobs, job_key}
use billsons_forms.Queue.Steps.{Reach}
use billsons_forms.Queue.Lifecycle.{is_terminal}
use billsons_forms.Origins.{preflight_response}
use billsons_forms.Email.Laws.{IsReport, build_submission_email_body-IsReport}
use billsons_forms.Email.{SmtpLibrary, build_submission_email_body, mail_of}
use billsons_forms.Network.{ok}
use billsons_forms.Forms.{FormsPlatform, form_preflight, get_endpoint, origin_allowed}
use billsons_forms.Forms.Stages.{
  active_recipients, count_submission, limit_submission, not_found, submit_form, submit_to,
}
use billsons_forms.Forms.Refusals.{IsRefusal}
use billsons_forms.Forms.Acceptance.{IsAcceptance}
use billsons_forms.Forms.Laws.{submit_to-cases}

module _ (p : FormsPlatform) (db : Database) (slug : Text) (request : Request) (now later : ℕ)
    (nonce : Text) where
  -- A submission to no endpoint is answered as such. Any other one either is refused: the job table
  -- is as it was, the answer is an error, and at most one log is added, of a failure. Or it has
  -- passed every gate: the endpoint is active, the origin allowed, the limit kept, the payload read,
  -- the CAP token confirmed where one is wanted, the reply address valid, and the headers fit the log; then one job and one
  -- log with its id are added, and the answer is the success.
  pub submit_form-cases :
      (chunks : List Text)
      → let result = submit_form p db slug request now later nonce chunks in
        (result ≡ (some (not_found p), db))
        ⊎ ((e : FormEndpoint) × (get_endpoint db slug ≡ some e)
            × (IsRefusal e.error_redirect_url db result
                ⊎ IsAcceptance p e request now later nonce chunks db result))
  unfolding submit_form
  submit_form-cases chunks = elim (Option-cases (get_endpoint db slug)) [
    | inl missing ↦ rw (missing, submit_form) (inl refl)
    | inr (e, found) ↦
        rw (found, submit_form)
          (inr (e, refl, submit_to-cases p e request now later nonce chunks db))
  ]

  -- The body is not read where the origin is not allowed, or the limit is exceeded: the outcome is
  -- the same for every body.
  pub submit_form_unread :
      (e : FormEndpoint) (chunks others : List Text)
      → get_endpoint db slug ≡ some e
      → (origin_allowed p e request ≡ false)
        ⊎ ((e.rate_limit_enabled ≡ true)
            × ((count_submission p e request now later nonce [] db).0.allowed ≡ false))
      → submit_form p db slug request now later nonce chunks
        ≡ submit_form p db slug request now later nonce others
  unfolding submit_form submit_to limit_submission
  submit_form_unread e chunks others found (inl foreign) =
      rw (found, submit_form) (ground (arith, foreign))
  submit_form_unread e chunks others found (inr (on, over)) =
      rw (found, submit_form) (ground (arith, on, over))

  -- The worker gets what was accepted: whatever the queue has done since, the job with the id that
  -- is in the log decrypts to the snapshot of the submission, unless it has finished, where the
  -- jobs have distinct keys and JSON and the cipher read back what they wrote.
  pub submit_form-decrypt :
      (e : FormEndpoint) (chunks : List Text)
      (accepted : IsAcceptance p e request now later nonce chunks db
        (submit_form p db slug request now later nonce chunks))
      (after : Jobs)
      → p.codec.load (p.codec.dump accepted.passed.snapshot) ≡ some accepted.passed.snapshot
      → truthy (p.codec.dump accepted.passed.snapshot) ≡ true
      → p.codec.decrypt (p.codec.encrypt nonce (p.codec.dump accepted.passed.snapshot))
        ≡ some (p.codec.dump accepted.passed.snapshot)
      → truthy (p.codec.encrypt nonce (p.codec.dump accepted.passed.snapshot)) ≡ true
      → IsTable job_key db.jobs
      → Reach p.platform.settings
          (submit_form p db slug request now later nonce chunks).1.jobs
          after
      → (k : EmailDeliveryJob) × In k after.rows
        × (k.id ≡ db.jobs.next_id)
        × ((decrypt_job_snapshot p.platform.unicode p.network p.codec k
              ≡ ok accepted.passed.snapshot)
            ⊎ (is_terminal k.status ≡ true))
  unfolding enqueue_delivery enqueue_payload
  submit_form-decrypt e chunks accepted after loads filled decrypts sealed keyed reach =
      enqueue-decrypt p.platform.unicode p.network p.codec accepted.passed.snapshot nonce loads
        filled decrypts sealed p.platform.settings db.jobs after (some e.id) _ later keyed
        accepted.passed.created
        (subst (λ jobs. Reach p.platform.settings jobs after) accepted.queued_once reach)

  -- The mail that is made of an accepted submission goes to the endpoint's active recipients, comes
  -- from its sender, bears its subject, and its body is the heading and then a line for each field that
  -- was posted, in order, with its name and value; it is answered to the address that the payload
  -- gave, and sent over the endpoint's port.
  pub mail_of-IsAcceptance :
      (smtp : SmtpLibrary p.Value) (e : FormEndpoint) (chunks : List Text)
      (accepted : IsAcceptance p e request now later nonce chunks db
        (submit_form p db slug request now later nonce chunks))
      → let mail = mail_of p.platform.unicode smtp accepted.passed.snapshot in
        (mail.to ≡ join (lit ", ") (map (λ r. r.email) (active_recipients p e request db)))
        × (mail.from ≡ (or_empty e.sender_name, e.sender_email))
        × (mail.subject ≡ e.email_subject)
        × IsReport smtp.show accepted.passed.fields mail.body
        × (mail.reply_to ≡ or_none (or_empty accepted.passed.address))
        × (mail.port ≡ e.smtp_port)
  unfolding mail_of build_submission_email_body
  mail_of-IsAcceptance smtp e chunks accepted =
      let same =
        (create_delivery_snapshot_lem p.platform.unicode p.network p.codec _
          accepted.passed.snapshot accepted.passed.created).2 in
      (
        ap (λ s. join (lit ", ") s.recipients) (sym same),
        ap (λ s. (or_empty s.sender_name, s.sender_email)) (sym same),
        ap (λ s. s.subject) (sym same),
        subst
            (λ s.
              IsReport smtp.show accepted.passed.fields
                (build_submission_email_body p.platform.unicode smtp s.submitted_fields))
            same
            (build_submission_email_body-IsReport p.platform.unicode smtp accepted.passed.fields),
        ap (λ s. or_none (or_empty s.reply_to_email)) (sym same),
        ap (λ s. s.smtp_port) (sym same),
      )

module _ (p : FormsPlatform) (db : Database) (slug : Text) (request : Request) where
  -- A preflight that is answered with 204 does not mislead the browser: there is an active endpoint,
  -- and a submission with the same origin passes the endpoint's check of it.
  pub form_preflight-origin_allowed :
      (post : Request)
      → (form_preflight p db slug request).status_code ≡ 204
      → post.header (lit "origin") ≡ request.header (lit "origin")
      → (e : FormEndpoint) × (get_endpoint db slug ≡ some e)
        × (e.is_active ≡ true)
        × (origin_allowed p e post ≡ true)
  unfolding form_preflight preflight_response
  form_preflight-origin_allowed post good same = elim (Option-cases (get_endpoint db slug)) [
    | inl missing ↦ absurd (ground arith)
    | inr (e, found) ↦ (e, found, ground arith, ground arith)
  ]
