-- ===== src/Queue/Steps.antt =====
-- What any process may do to the job table, in any order, and what that does to one row: `Step` is
-- an operation on the table, and `Transition` is a move of a row's state machine.
use billsons_forms.Base.{
  All, All-of_In, Bool, Bool-cases, In, In-unique, List, Option, Text, [], arith, if◌then◌else◌,
  inl, inr, nat_eq, refl, some, subst, sym, text_eq, true, update_where, ℕ, ◌++◌, ◌==◌, ◌∷◌, ◌≡◌,
  ◌⊎◌,
}
use billsons_forms.Models.{EmailDeliveryJob}
use billsons_forms.Models.Tables.{IsTable, insert-IsTable, update_where-IsTable}
use billsons_forms.Queue.Cases.{
  Jobs, claim_job-cases, fail_job-cases, id-failure, job_key, save-IsTable,
}
use billsons_forms.Config.{Settings}
use billsons_forms.Queue.{
  claim_job, claimable, claimed, complete_job, completed, enqueue_payload, fail_job, failure, owned,
  queued_job, refresh_job_heartbeat,
}

module _ (s : Settings) where
  -- One operation by one process: any worker, any time, any rows held by others.
  pub data Step (t : Jobs) : Jobs → Type 0 where
    enqueues :
        (endpoint_id : Option ℕ) (payload : Text) (now : ℕ)
        → Step t (enqueue_payload s t endpoint_id (some payload) now).1
    claims :
        (busy : ℕ → Bool) (worker_id : Text) (now : ℕ) → Step t (claim_job s busy t worker_id now).1
    beats :
        (job_id : ℕ) (worker_id : Text) (now : ℕ)
        → Step t (refresh_job_heartbeat t job_id worker_id now).1
    completes :
        (job_id : ℕ) (worker_id : Text) (now : ℕ) → Step t (complete_job t job_id worker_id now).1
    fails :
        (job_id : ℕ) (worker_id : Text) (now : ℕ) (error : Text) (retryable : Bool)
        → Step t (fail_job t job_id worker_id now error retryable).1

  pub data Reach (t : Jobs) : Jobs → Type 0 where
    start : Reach t t
    next : {u v : Jobs} → Reach t u → Step u v → Reach t v

  -- What one operation may do to one row.
  pub data Transition (a b : EmailDeliveryJob) : Type 0 where
    claim :
        (worker_id : Text) (now : ℕ)
        → claimable s now a ≡ true
        → b ≡ claimed worker_id now a
        → Transition a b
    beat :
        (worker_id : Text) (now : ℕ)
        → owned a.id worker_id a ≡ true
        → b ≡ record a { locked_at = some now }
        → Transition a b
    complete :
        (worker_id : Text) (now : ℕ)
        → owned a.id worker_id a ≡ true
        → b ≡ completed now a
        → Transition a b
    fail :
        (worker_id : Text) (now : ℕ) (error : Text) (retryable : Bool)
        → owned a.id worker_id a ≡ true
        → b ≡ failure retryable now error a
        → Transition a b

  abbrev pub Moves : EmailDeliveryJob → EmailDeliveryJob → Type 0
  Moves a b = (a ≡ b) ⊎ Transition a b

  -- A row that `enqueue_delivery` has just added.
  abbrev pub IsFresh : EmailDeliveryJob → Type 0
  IsFresh b =
      (endpoint_id : Option ℕ) × (payload : Text) × (now : ℕ) × (id : ℕ) × (b
        ≡ queued_job s endpoint_id (some payload) now id)

  -- The rows after an operation: the old ones in place, each moved at most once, then new ones.
  abbrev pub Evolves : List EmailDeliveryJob → List EmailDeliveryJob → Type 0
  Evolves [] new = All IsFresh new
  Evolves (x ∷ xs) [] = ⊥
  Evolves (x ∷ xs) (y ∷ ys) = Moves x y × Evolves xs ys

  Evolves-append : (xs new : List EmailDeliveryJob) → All IsFresh new → Evolves xs (xs ++ new)
  Evolves-append [] new h = h
  Evolves-append (x ∷ xs) new h = (inl refl, Evolves-append xs new h)

  Evolves-refl : (xs : List EmailDeliveryJob) → Evolves xs xs
  Evolves-refl [] = tt
  Evolves-refl (x ∷ xs) = (inl refl, Evolves-refl xs)

  Evolves-update_where :
      (p : EmailDeliveryJob → Bool) (f : EmailDeliveryJob → EmailDeliveryJob)
      (xs : List EmailDeliveryJob)
      → All (λ a. p a ≡ true → Transition a (f a)) xs
      → Evolves xs (update_where p f xs)
  unfolding update_where
  Evolves-update_where p f [] h = tt
  Evolves-update_where p f (x ∷ xs) h = (here_move, Evolves-update_where p f xs h.1)
    where
      here_move : Moves x (if p x then f x else x)
      here_move = elim (Bool-cases (p x)) [
        | inl hit ↦ rw hit (inr (h.0 hit))
        | inr miss ↦ rw miss (inl refl)
      ]

  -- A row written back by its key is that row, in a table with distinct keys.
  Evolves-save :
      (t : Jobs) (a b : EmailDeliveryJob)
      → IsTable job_key t
      → In a t.rows
      → a.id ≡ b.id
      → Transition a b
      → Evolves t.rows (update_where (λ r. r.id == b.id) (λ _. b) t.rows)
  Evolves-save t a b h i same m = Evolves-update_where _ _ t.rows (
      All-of_In _ t.rows λ r j hit.
        subst (λ x. Transition x b) (In-unique job_key t.rows h.keyed i j (ground (arith))) m)

  -- Every operation keeps the primary keys distinct.
  pub Step-IsTable : {t u : Jobs} → Step t u → IsTable job_key t → IsTable job_key u
  unfolding enqueue_payload refresh_job_heartbeat complete_job
  Step-IsTable {t} (enqueues e p now) h =
      insert-IsTable job_key (queued_job s e (some p) now) t (λ n. refl) h
  Step-IsTable {t} (claims busy w now) h =
      claim_job-cases s busy t w now (λ r. IsTable job_key r.1) (λ _. h)
        (λ j _ _ _ _. save-IsTable t _ h)
  Step-IsTable {t} (beats id w now) h = update_where-IsTable job_key _ _ t (λ a _. refl) h
  Step-IsTable {t} (completes id w now) h = update_where-IsTable job_key _ _ t (λ a _. refl) h
  Step-IsTable {t} (fails id w now error r) h =
      fail_job-cases t id w now error r (λ r. IsTable job_key r.1) (λ _. h)
        (λ j _ _. save-IsTable t _ h)

  -- Every operation moves each row at most once, and adds fresh rows only.
  pub Step-Evolves : {t u : Jobs} → Step t u → IsTable job_key t → Evolves t.rows u.rows
  unfolding enqueue_payload refresh_job_heartbeat complete_job
  Step-Evolves {t} (enqueues e p now) h = Evolves-append t.rows _ ((e, p, now, t.next_id, refl), tt)
  Step-Evolves {t} (claims busy w now) h =
      claim_job-cases s busy t w now (λ r. Evolves t.rows r.1.rows) (λ _. Evolves-refl t.rows)
        (λ j i c _ _. Evolves-save t j _ h i refl (claim w now c refl))
  Step-Evolves {t} (beats id w now) h =
      Evolves-update_where _ _ t.rows
        (All-of_In _ t.rows (λ a _ hit. beat w now (ground arith) refl))
  Step-Evolves {t} (completes id w now) h =
      Evolves-update_where _ _ t.rows
        (All-of_In _ t.rows (λ a _ hit. complete w now (ground arith) refl))
  Step-Evolves {t} (fails id w now error r) h =
      fail_job-cases t id w now error r (λ q. Evolves t.rows q.1.rows) (λ _. Evolves-refl t.rows)
        (λ j i own.
          Evolves-save t j _ h i (sym (id-failure r now error j))
            (fail w now error r (ground arith) refl))
