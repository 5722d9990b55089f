-- ===== src/Journey.antt =====
-- A submission from app/api/forms.py through the queue to a round of app/services/worker.py.
mod Examples
use billsons_forms.Base.{
  All, Bool, In, In-unique, List, Text, ap, arith, false, inl, inr, refl, some, subst, sym, true, ℕ,
  ◌∙◌, ◌≡◌, ◌⊎◌,
}
use billsons_forms.Models.{Database, EmailDeliveryJob, FormEndpoint, queued}
use billsons_forms.Models.Tables.{IsTable, insert-IsTable}
use billsons_forms.Config.{Settings}
use billsons_forms.Strings.{truthy}
use billsons_forms.Http.{Request}
use billsons_forms.Network.{Result, ok}
use billsons_forms.Email.{SmtpLibrary, send_submission_email}
use billsons_forms.Queue.{claim_job, claimed, enqueue_payload, queued_job}
use billsons_forms.Queue.Cases.{Jobs, job_key}
use billsons_forms.Queue.Claims.{Claim, claim_job-Claim, nothing, taken}
use billsons_forms.Queue.Lifecycle.{Reach-IsTable, is_terminal}
use billsons_forms.Queue.Steps.{Reach, Step-IsTable, claims, next}
use billsons_forms.Snapshot.{decrypt_job_snapshot, encrypt_value, enqueue_delivery}
use billsons_forms.Forms.{FormsPlatform}
use billsons_forms.Forms.Acceptance.{IsAcceptance}
use billsons_forms.Forms.Stages.{submit_form}
use billsons_forms.Forms.Submission.{submit_form-decrypt}
use billsons_forms.Worker.{Schedule, process_one}
use billsons_forms.Worker.Laws.{Written, outcome_row}
use billsons_forms.Worker.Rounds.{IsQuiet, process_one-Written}

module _ (s : Settings) (busy : ℕ → Bool) (t : Jobs) (worker_id : Text) (now : ℕ)
    (job : EmailDeliveryJob) (claims_it : (claim_job s busy t worker_id now).0 ≡ some job) where
  -- What a claim returns is in the table, and in progress.
  claimed_row :
      Claim s busy t worker_id now (claim_job s busy t worker_id now)
      → In job (claim_job s busy t worker_id now).1.rows × (is_terminal job.status ≡ false)
  claimed_row (nothing none_taken all_busy) =
      absurd (ground (arith, claims_it, ap (λ x. x.0) none_taken))
  claimed_row (taken j i ready first took at kept) =
      let same : claimed worker_id now j ≡ job = cc in
      (
        subst (λ x. In x (claim_job s busy t worker_id now).1.rows) same at,
        subst (λ (x : EmailDeliveryJob). is_terminal x.status ≡ false) same refl,
      )

  -- A job of which only the id is known is the one that is claimed.
  claimed_is :
      {A : Type 0} (read : EmailDeliveryJob → Result A) (a : A)
      → IsTable job_key t
      → (k : EmailDeliveryJob) × In k (claim_job s busy t worker_id now).1.rows
        × (k.id ≡ job.id)
        × ((read k ≡ ok a) ⊎ (is_terminal k.status ≡ true))
      → read job ≡ ok a
  claimed_is read a h (k, at, same, opened) =
      let (is_there, running) = claimed_row (claim_job-Claim s busy t worker_id now) in
      let keyed = (Step-IsTable s (claims busy worker_id now) h).keyed in
      let one : k ≡ job = In-unique job_key _ keyed at is_there same in
      elim opened [
        | inl readable ↦ subst (λ x. read x ≡ ok a) one readable
        | inr done ↦
            absurd (
              ground
                (arith, running, ap (λ (x : EmailDeliveryJob). is_terminal x.status) one, done))
      ]

module _ (p : FormsPlatform) (smtp : SmtpLibrary p.Value) where
  -- The mail of an accepted submission is sent, and its fate written down: whatever the queue has done since,
  -- the worker that claims the job of the submission in a round that nobody disturbs makes the mail of what
  -- was accepted, and the row of the job and its logs tell afterwards how the sending ended. The jobs have
  -- distinct keys, and JSON and the cipher read back what they wrote.
  pub submit_form-process_one :
      (db : Database) (slug : Text) (request : Request) (now later : ℕ) (nonce : Text)
      (e : FormEndpoint) (chunks : List Text)
      (accepted : IsAcceptance p e request now later nonce chunks db
        (submit_form p db slug request now later nonce chunks))
      (site : Database) (worker_id : Text) (schedule : Schedule) (job : EmailDeliveryJob)
      → p.codec.load (p.codec.dump accepted.passed.snapshot) ≡ some accepted.passed.snapshot
      → truthy (p.codec.dump accepted.passed.snapshot) ≡ true
      → p.codec.decrypt (p.codec.encrypt nonce (p.codec.dump accepted.passed.snapshot))
        ≡ some (p.codec.dump accepted.passed.snapshot)
      → truthy (p.codec.encrypt nonce (p.codec.dump accepted.passed.snapshot)) ≡ true
      → IsTable job_key db.jobs
      → Reach p.platform.settings
          (submit_form p db slug request now later nonce chunks).1.jobs
          site.jobs
      → All IsQuiet schedule.ticks
      → ((d : Database) → schedule.others d ≡ d)
      → (claim_job p.platform.settings schedule.busy site.jobs worker_id schedule.claim_at).0
        ≡ some job
      → job.id ≡ db.jobs.next_id
      → let round =
          process_one p.platform.settings p.platform.unicode p.network p.codec smtp worker_id
            schedule site in
        let outcome = send_submission_email p.platform.unicode smtp accepted.passed.snapshot in
        (round.0 ≡ true)
        × (row : EmailDeliveryJob) × (row.id ≡ job.id)
        × Written job.id outcome (outcome_row schedule.finish_at outcome row) round.1
  unfolding enqueue_delivery enqueue_payload
  submit_form-process_one db slug request now later nonce e chunks accepted site worker_id schedule
        job loads filled decrypts sealed keyed reach quiet alone claims_it own =
      let snapshot = accepted.passed.snapshot in
      let queued : IsTable job_key (submit_form p db slug request now later nonce chunks).1.jobs =
        subst (IsTable job_key) (sym accepted.queued_once) (
          insert-IsTable job_key
            (queued_job p.platform.settings (some e.id)
              (encrypt_value p.platform.unicode p.network p.codec nonce
                (some (p.codec.dump snapshot)))
              later)
            db.jobs (λ n. refl) keyed) in
      let table = Reach-IsTable p.platform.settings reach queued in
      let (k, at, same, opened) =
        submit_form-decrypt p db slug request now later nonce e chunks accepted _ loads filled
          decrypts sealed keyed (next reach (claims schedule.busy worker_id schedule.claim_at)) in
      process_one-Written p.platform.settings p.platform.unicode p.network p.codec smtp worker_id
        schedule site job snapshot table quiet alone claims_it
        (claimed_is p.platform.settings schedule.busy site.jobs worker_id schedule.claim_at job
          claims_it (decrypt_job_snapshot p.platform.unicode p.network p.codec) snapshot table
          (k, at, same ∙ sym own, opened))
