-- ===== src/Forms/Counted.antt =====
-- What becomes of a submission once it is counted, on each branch.
use billsons_forms.Base.{
  Bool, Bool-cases, List, Option, Option-cases, Text, arith, false, inl, inr, is_empty, lit, none,
  refl, some, true, ℕ, ◌≡◌, ◌⊎◌,
}
use billsons_forms.Models.{Database, FormEndpoint, RateLimitBucket, Table, empty}
use billsons_forms.Http.{Request}
use billsons_forms.Payloads.{
  ParsedPayload, parse_submission_payload, payload, payload_error, payload_raised,
}
use billsons_forms.Snapshot.{create_delivery_snapshot, decrypt_value, enqueue_delivery}
use billsons_forms.Cap.{is_rejected, is_success}
use billsons_forms.Cap.Laws.{IsVerified}
use billsons_forms.Queue.{enqueue_payload}
use billsons_forms.Forms.{
  Fields, FormsPlatform, Outcome, ReplyTo, bad_reply, delivery_log, fits_log, no_entry,
  origin_allowed, reply_of, reply_to,
}
use billsons_forms.Forms.Stages.{
  accept, active_recipients, address_submission, cap_error, cap_result, checked_entry,
  count_submission, max_bytes, not_queued, queue_submission, read_cap, read_submission,
  snapshot_fields, verify_submission,
}
use billsons_forms.Forms.Refusals.{IsRefusal, answer-IsError, refuse-IsRefusal}
use billsons_forms.Forms.Acceptance.{IsAcceptance}

ReplyTo-cases : (r : ReplyTo) → (r ≡ bad_reply) ⊎ ((address : Option Text) × (r ≡ reply_to address))
ReplyTo-cases bad_reply = inl refl
ReplyTo-cases (reply_to address) = inr (address, refl)

ParsedPayload-cases :
    {Value : Type 0} (r : ParsedPayload Value)
    → (r ≡ payload_raised)
      ⊎ ((status_code : ℕ) × (detail : Text) × (r ≡ payload_error status_code detail))
      ⊎ ((fields : List (Text × Value)) × (size : ℕ) × (r ≡ payload fields size))
ParsedPayload-cases payload_raised = inl refl
ParsedPayload-cases (payload_error status_code detail) = inr (inl (status_code, detail, refl))
ParsedPayload-cases (payload fields size) = inr (inr (fields, size, refl))

module _ (p : FormsPlatform) (e : FormEndpoint) (request : Request) (now later : ℕ) (nonce : Text)
    (chunks : List Text) (db : Database) where
  module _ (active : e.is_active ≡ true) (allowed : origin_allowed p e request ≡ true)
      (within_limit : e.rate_limit_enabled ≡ true
        → (count_submission p e request now later nonce chunks db).0.allowed ≡ true)
      (buckets : Table RateLimitBucket) where
    -- What a stage makes of the database with the new buckets.
    abbrev pub Case : (Database → Outcome p) → Type 0
    Case stage =
        let result = stage (record db { buckets = buckets }) in
        IsRefusal e.error_redirect_url db result
        ⊎ IsAcceptance p e request now later nonce chunks db result

    not_queued-IsRefusal :
        IsRefusal e.error_redirect_url db
          (not_queued p e request now later nonce chunks (record db { buckets = buckets }))
    not_queued-IsRefusal = record {
      jobs_kept = refl;
      logs_kept = inl refl;
      answer_error = answer-IsError p e request _ _ _;
    }

    crash-IsRefusal : IsRefusal e.error_redirect_url db (none, record db { buckets = buckets })
    crash-IsRefusal = record { jobs_kept = refl; logs_kept = inl refl; answer_error = tt }

    module _ (fields : Fields p) (size : ℕ)
        (parsed : parse_submission_payload p.platform.unicode p.payloads request chunks
            (max_bytes p e request now later nonce chunks)
          ≡ payload fields size) where
      module _ (cap_verified : Bool)
          (cap_confirmed : e.cap_enabled ≡ true
            → (secret : Option Text) × (decrypt_value p.platform.unicode p.network p.codec
                  e.cap_secret_key
                ≡ some secret)
              × IsVerified (cap_result p e request now later nonce chunks fields secret)) where
        queue_submission-cases :
            is_empty (active_recipients p e request db) ≡ false
            → (address : Option Text) → reply_of p e fields ≡ reply_to address
            → Case (
                queue_submission p e request now later nonce chunks cap_verified fields size
                  (active_recipients p e request db)
                  address)
        unfolding queue_submission accept delivery_log enqueue_delivery enqueue_payload
        queue_submission-cases some_recipient address replied =
            elim (Option-cases
              (decrypt_value p.platform.unicode p.network p.codec e.smtp_password)) [
                | inl broken ↦ rw (broken, queue_submission) (inl not_queued-IsRefusal)
                | inr (password, decrypted) ↦
                    elim (Option-cases (
                      create_delivery_snapshot p.platform.unicode p.network p.codec (
                        snapshot_fields p e request fields (active_recipients p e request db)
                          address password))) [
                            | inl invalid ↦
                                rw (decrypted, queue_submission)
                                  (rw invalid (inl not_queued-IsRefusal))
                            | inr (snapshot, created) ↦
                                rw (decrypted, queue_submission)
                                  (rw created (elim (Bool-cases (fits_log p e request)) [
                                    | inr long ↦ rw long (inl not_queued-IsRefusal)
                                    | inl fit ↦ rw fit (
                                        inr (record {
                                          passed = record {
                                            active = active;
                                            allowed = allowed;
                                            within_limit = within_limit;
                                            fields = fields;
                                            size = size;
                                            parsed = parsed;
                                            cap_confirmed = cap_confirmed;
                                            address = address;
                                            replied = replied;
                                            password = password;
                                            decrypted = decrypted;
                                            snapshot = snapshot;
                                            created = created;
                                            some_recipient = some_recipient;
                                            loggable = fit;
                                          };
                                          queued_once = refl;
                                          logged_once = (_, refl, refl, refl);
                                          answered = refl;
                                        }))
                                  ]))
                          ]
              ]

        address_submission-cases :
            Case (address_submission p e request now later nonce chunks cap_verified fields size)
        unfolding address_submission
        address_submission-cases = elim (Bool-cases (is_empty (active_recipients p e request db))) [
          | inl empty ↦ rw empty (
              inl (
                refuse-IsRefusal p e request
                  (checked_entry p e request now later nonce chunks cap_verified size
                    (lit "No active recipients configured."))
                  _ _ _ later db buckets refl refl))
          | inr filled ↦ rw filled (elim (ReplyTo-cases (reply_of p e fields)) [
            | inl bad ↦ rw bad (
                inl (
                  refuse-IsRefusal p e request
                    (checked_entry p e request now later nonce chunks cap_verified size
                      (lit "Reply-To field did not contain a valid email address."))
                    _ _ _ later db buckets refl refl))
            | inr (address, good) ↦ rw good (queue_submission-cases filled address good)
          ])
        ]

      cap_result-cases :
          (secret : Option Text)
          → decrypt_value p.platform.unicode p.network p.codec e.cap_secret_key ≡ some secret
          → Case (
              read_cap p e request now later nonce chunks fields size
                (cap_result p e request now later nonce chunks fields secret))
      cap_result-cases secret decrypted =
          elim (Option-cases (cap_result p e request now later nonce chunks fields secret)) [
            | inl thrown ↦ rw thrown (inl crash-IsRefusal)
            | inr (result, got) ↦ rw got (elim (Bool-cases (is_success result.status)) [
              | inl confirmed ↦
                  rw confirmed
                    (address_submission-cases true (λ on. (secret, decrypted, rw got confirmed)))
              | inr refused ↦ rw refused (elim (Bool-cases (is_rejected result.status)) [
                | inl said_no ↦ rw said_no (
                    inl (
                      refuse-IsRefusal p e request
                        (checked_entry p e request now later nonce chunks false size
                          (cap_error p e request now later nonce chunks result))
                        _ _ _ later db buckets refl refl))
                | inr said_nothing ↦ rw said_nothing (
                    inl (
                      refuse-IsRefusal p e request
                        (checked_entry p e request now later nonce chunks false size
                          (cap_error p e request now later nonce chunks result))
                        _ _ _ later db buckets refl refl))
              ])
            ])
          ]

      verify_submission-cases :
          Case (verify_submission p e request now later nonce chunks fields size)
      unfolding verify_submission
      verify_submission-cases = elim (Bool-cases e.cap_enabled) [
        | inr off ↦
            simp (off)
              (address_submission-cases false (λ enabled. absurd (ground (arith, enabled))))
        | inl on ↦
            simp (on)
              (elim (Option-cases
                (decrypt_value p.platform.unicode p.network p.codec e.cap_secret_key)) [
                  | inl broken ↦ rw broken (inl crash-IsRefusal)
                  | inr (secret, decrypted) ↦ rw decrypted (cap_result-cases secret decrypted)
                ])
      ]

    pub read_submission-cases : Case (read_submission p e request now later nonce chunks)
    unfolding read_submission
    read_submission-cases =
        elim (ParsedPayload-cases (
          parse_submission_payload p.platform.unicode p.payloads request chunks
            (max_bytes p e request now later nonce chunks))) [
              | inl thrown ↦ rw (thrown, read_submission) (inl crash-IsRefusal)
              | inr (inl (status_code, detail, bad)) ↦
                  rw (bad, read_submission)
                    (inl (
                      refuse-IsRefusal p e request (record no_entry { error = some detail }) _ _ _
                        later db buckets refl refl))
              | inr (inr (fields, size, parsed)) ↦
                  rw (parsed, read_submission) (verify_submission-cases fields size parsed)
            ]
