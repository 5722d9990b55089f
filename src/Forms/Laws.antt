-- ===== src/Forms/Laws.antt =====
-- A submission is either refused, and then nothing is queued, or it has passed every gate, and then
-- its job, its log and its answer go together.
use billsons_forms.Base.{
  Bool-cases, List, Text, arith, inl, inr, lit, refl, some, true, ℕ, ◌≡◌, ◌⊎◌,
}
use billsons_forms.Models.{Database, FormEndpoint}
use billsons_forms.Http.{Request}
use billsons_forms.Forms.{FormsPlatform, no_entry, origin_allowed}
use billsons_forms.Forms.Stages.{count_submission, limit_submission, submit_to}
use billsons_forms.Forms.Refusals.{IsRefusal, answer-IsError, refuse-IsRefusal}
use billsons_forms.Forms.Acceptance.{IsAcceptance}
use billsons_forms.Forms.Counted.{read_submission-cases}

module _ (p : FormsPlatform) (e : FormEndpoint) (request : Request) (now later : ℕ) (nonce : Text)
    (chunks : List Text) (db : Database) where
  limit_submission-cases :
      e.is_active ≡ true
      → origin_allowed p e request ≡ true
      → let result = limit_submission p e request now later nonce chunks db in
        IsRefusal e.error_redirect_url db result
        ⊎ IsAcceptance p e request now later nonce chunks db result
  unfolding limit_submission
  limit_submission-cases active allowed = elim (Bool-cases e.rate_limit_enabled) [
    | inr off ↦ simp (off) (
        read_submission-cases p e request now later nonce chunks db active allowed
          (λ on. absurd (ground (arith, on))) db.buckets)
    | inl on ↦
        simp (on)
          (elim (Bool-cases (count_submission p e request now later nonce chunks db).0.allowed) [
            | inl within ↦ rw within (
                read_submission-cases p e request now later nonce chunks db active allowed
                  (λ _. within) (count_submission p e request now later nonce chunks db).1)
            | inr over ↦ rw over (
                inl (
                  refuse-IsRefusal p e request
                    (record no_entry { error = some (lit "Submission rate limit exceeded.") }) _ _ _
                    now db (count_submission p e request now later nonce chunks db).1 refl refl))
          ])
  ]

  -- Every submission to an active endpoint is refused, or passes every gate.
  pub submit_to-cases :
      let result = submit_to p e request now later nonce chunks db in
      IsRefusal e.error_redirect_url db result
      ⊎ IsAcceptance p e request now later nonce chunks db result
  unfolding submit_to
  submit_to-cases = elim (Bool-cases e.is_active) [
    | inr off ↦ simp (off) (
        inl (record {
          jobs_kept = refl;
          logs_kept = inl refl;
          answer_error = answer-IsError p e request _ _ _;
        }))
    | inl active ↦ simp (active) (elim (Bool-cases (origin_allowed p e request)) [
      | inr foreign ↦ rw foreign (
          inl (
            refuse-IsRefusal p e request
              (record no_entry { error = some (lit "Origin missing, malformed or not allowed.") }) _
              _ _ now db db.buckets refl refl))
      | inl allowed ↦ rw allowed (limit_submission-cases active allowed)
    ])
  ]
