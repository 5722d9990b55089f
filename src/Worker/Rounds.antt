-- ===== src/Worker/Rounds.antt =====
-- A whole round of a worker: from the claim through the heartbeat to the outcome.
use billsons_forms.Queue.Claims.{claim_job-Claim, nothing, taken}
use billsons_forms.Base.{
  All, Bool, List, Text, [], ap, arith, false, refl, some, subst, sym, text_beq_refl, true, ℕ, ◌∷◌,
  ◌≡◌,
}
use billsons_forms.Models.{Database, EmailDeliveryJob}
use billsons_forms.Models.Tables.{IsTable}
use billsons_forms.Config.{Settings}
use billsons_forms.Strings.{Unicode}
use billsons_forms.Network.{NetworkLibrary, ok}
use billsons_forms.Queue.{claim_job, claimed, refresh_job_heartbeat}
use billsons_forms.Queue.Cases.{job_key}
use billsons_forms.Queue.Steps.{Step-IsTable, beats, claims}
use billsons_forms.Queue.Ownership.{Owns, owner_moves_on}
use billsons_forms.Snapshot.{Codec, DeliverySnapshot, decrypt_job_snapshot}
use billsons_forms.Email.{SmtpLibrary, send_submission_email}
use billsons_forms.Worker.{Schedule, Tick, deliver, finish_delivery, heartbeat_job, process_one}
use billsons_forms.Worker.Laws.{Written, finish_delivery-owner, outcome_row}

-- Nobody else touches the database before the turn, and the turn's own call does not raise.
pub record IsQuiet (tick : Tick) : Type 0 where
  pub nobody : (db : Database) → tick.others db ≡ db
  pub succeeds : tick.raises ≡ false

-- The worker holds the job in a table with distinct keys.
pub record Holds (db : Database) (job_id : ℕ) (worker_id : Text) : Type 0 where
  pub table : IsTable job_key db.jobs
  pub owns : Owns db.jobs job_id worker_id

module _ (s : Settings) (job_id : ℕ) (worker_id : Text) where
  refreshed-Holds :
      (db : Database) (now : ℕ)
      → Holds db job_id worker_id
      → Holds
          (record db { jobs = (refresh_job_heartbeat db.jobs job_id worker_id now).1 })
          job_id
          worker_id
  refreshed-Holds db now h =
      let moved = owner_moves_on db.jobs job_id worker_id now [] false h.table h.owns in
      record {
        table = Step-IsTable s (beats job_id worker_id now) h.table;
        owns = (record h.owns.0 { locked_at = some now }, moved.1, h.owns.2);
      }

  -- Undisturbed, the heartbeat never reports the job as lost.
  heartbeat_job-Holds :
      (ticks : List Tick) (db : Database)
      → All IsQuiet ticks
      → Holds db job_id worker_id
      → ((heartbeat_job ticks job_id worker_id db).0 ≡ false)
        × Holds (heartbeat_job ticks job_id worker_id db).1 job_id worker_id
  unfolding heartbeat_job
  heartbeat_job-Holds [] db quiet h = (refl, h)
  heartbeat_job-Holds (tick ∷ ticks) db (q, quiet) h =
      let moved = owner_moves_on db.jobs job_id worker_id tick.at [] false h.table h.owns in
      rw (q.nobody db) (
        rw q.succeeds
          (rw (moved.0) (heartbeat_job-Holds ticks _ quiet (refreshed-Holds db tick.at h))))

  claimed-Holds :
      (busy : ℕ → Bool) (db : Database) (now : ℕ) (job : EmailDeliveryJob)
      → IsTable job_key db.jobs
      → (claim_job s busy db.jobs worker_id now).0 ≡ some job
      → job.id ≡ job_id
      → Holds (record db { jobs = (claim_job s busy db.jobs worker_id now).1 }) job_id worker_id
  claimed-Holds busy db now job h e same = record {
    table = Step-IsTable s (claims busy worker_id now) h;
    owns = elim (claim_job-Claim s busy db.jobs worker_id now) [
      | nothing none_taken all_busy ↦ absurd (ground (arith, e, ap (λ x. x.0) none_taken))
      | taken j i ready first took at kept ↦
          (claimed worker_id now j, at, ground (arith, e, took, same, text_beq_refl worker_id))
    ];
  }

module _ {Value : Type 0} (s : Settings) (u : Unicode) (net : NetworkLibrary) (codec : Codec Value)
    (smtp : SmtpLibrary Value) (worker_id : Text) (schedule : Schedule) (db : Database) where
  deliver-Written :
      (job : EmailDeliveryJob) (snapshot : DeliverySnapshot Value) (held : Database)
      → All IsQuiet schedule.ticks
      → ((d : Database) → schedule.others d ≡ d)
      → Holds held job.id worker_id
      → (row : EmailDeliveryJob) × (row.id ≡ job.id)
        × Written job.id
            (send_submission_email u smtp snapshot)
            (outcome_row schedule.finish_at (send_submission_email u smtp snapshot) row)
            (deliver s u net codec smtp worker_id schedule job.id snapshot
              (heartbeat_job schedule.ticks job.id worker_id held))
  unfolding Written
  deliver-Written job snapshot held quiet alone h =
      let (not_lost, still) = heartbeat_job-Holds s job.id worker_id schedule.ticks held quiet h in
      let final = (heartbeat_job schedule.ticks job.id worker_id held).1 in
      (
        still.owns.0,
        ground (arith, still.owns.2),
        rw (alone final) (
            rw not_lost (
              finish_delivery-owner final job.id worker_id schedule.finish_at
                (send_submission_email u smtp snapshot) still.table still.owns)),
      )

  process_one-claimed :
      (job : EmailDeliveryJob) (snapshot : DeliverySnapshot Value)
      → (claim_job s schedule.busy db.jobs worker_id schedule.claim_at).0 ≡ some job
      → decrypt_job_snapshot u net codec job ≡ ok snapshot
      → process_one s u net codec smtp worker_id schedule db ≡ (
        true,
        deliver s u net codec smtp worker_id schedule job.id snapshot (
            heartbeat_job schedule.ticks job.id worker_id (record db {
              jobs = (claim_job s schedule.busy db.jobs worker_id schedule.claim_at).1;
            })),
      )
  unfolding process_one finish_delivery
  process_one-claimed job snapshot claimed_job readable =
      rw (claimed_job, process_one) (rw readable refl)

  -- A round that nobody disturbs ends what it claims: where the claimed job's payload is readable,
  -- the job's row and logs tell afterwards how the sending ended, whatever number of heartbeats the
  -- sending took.
  pub process_one-Written :
      (job : EmailDeliveryJob) (snapshot : DeliverySnapshot Value)
      → IsTable job_key db.jobs
      → All IsQuiet schedule.ticks
      → ((d : Database) → schedule.others d ≡ d)
      → (claim_job s schedule.busy db.jobs worker_id schedule.claim_at).0 ≡ some job
      → decrypt_job_snapshot u net codec job ≡ ok snapshot
      → ((process_one s u net codec smtp worker_id schedule db).0 ≡ true)
        × (row : EmailDeliveryJob) × (row.id ≡ job.id)
        × Written job.id
            (send_submission_email u smtp snapshot)
            (outcome_row schedule.finish_at (send_submission_email u smtp snapshot) row)
            (process_one s u net codec smtp worker_id schedule db).1
  process_one-Written job snapshot h quiet alone claimed_job readable =
      let round = process_one-claimed job snapshot claimed_job readable in
      let (row, same, written) = deliver-Written job snapshot _ quiet alone (
        claimed-Holds s job.id worker_id schedule.busy db schedule.claim_at job h claimed_job
          refl) in
      (
        ap (λ x. x.0) round,
        row,
        same,
        subst
            (Written job.id (send_submission_email u smtp snapshot)
              (outcome_row schedule.finish_at (send_submission_email u smtp snapshot) row))
            (ap (λ x. x.1) (sym round)) written,
      )
