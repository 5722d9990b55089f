-- ===== src/Queue/Lifecycle.antt =====
-- The life of a job: what holds of every row of every table that any sequence of operations makes.
use billsons_forms.Base.{
  All, All-map, Bool, In, List, [], arith, false, here, inl, inr, is_some, none, refl, subst, sym,
  there, true, ◌<◌, ◌∙◌, ◌∷◌, ◌≡◌, ◌≢◌, ◌≤◌, ◌⊎◌,
}
use billsons_forms.Models.{
  EmailDeliveryJob, JobStatus, delivered, empty, failed, processing, queued,
}
use billsons_forms.Models.Tables.{IsTable}
use billsons_forms.Queue.Cases.{Jobs, job_key}
use billsons_forms.Config.{Settings}
use billsons_forms.Queue.{claimable, failure}
use billsons_forms.Queue.Steps.{
  Evolves, IsFresh, Moves, Reach, Step-Evolves, Step-IsTable, Transition, beat, claim, complete,
  fail, next, start,
}

abbrev pub is_terminal : JobStatus → Bool
is_terminal delivered = true
is_terminal failed = true
is_terminal _ = false

-- The invariant of a row.
pub record IsSound (j : EmailDeliveryJob) : Type 0 where
  -- A job that may still be sent keeps its payload, and a finished one has none.
  pub payload_kept : is_terminal j.status ≡ false → is_some j.encrypted_payload ≡ true
  pub payload_destroyed : is_terminal j.status ≡ true → j.encrypted_payload ≡ none
  -- Exactly the jobs in progress are locked, by a worker and at a time.
  pub locked : j.status ≡ processing → (is_some j.locked_at ≡ true) × (is_some j.locked_by ≡ true)
  pub unlocked : j.status ≢ processing → (j.locked_at ≡ none) × (j.locked_by ≡ none)
  -- Exactly the finished jobs have a time of finishing, which is the delivery's if there was one.
  pub stamped : is_terminal j.status ≡ true → is_some j.terminal_at ≡ true
  pub unstamped : is_terminal j.status ≡ false → j.terminal_at ≡ none
  pub delivery_time : j.status ≡ delivered → j.delivered_at ≡ j.terminal_at
  pub no_delivery_time : j.status ≢ delivered → j.delivered_at ≡ none
  -- A job was attempted before it left the queue, and waits only while attempts are left.
  pub attempted : j.status ≢ queued → 0 < j.attempts
  pub waiting : j.status ≡ queued → (j.attempts ≡ 0) ⊎ (j.attempts < j.max_attempts)

module _ (s : Settings) where
  IsFresh-IsSound : (b : EmailDeliveryJob) → IsFresh s b → IsSound b
  IsFresh-IsSound b (e, p, now, id, eq) = subst IsSound (sym eq) (ground arith)

  Transition-IsSound : (a b : EmailDeliveryJob) → Transition s a b → IsSound a → IsSound b
  unfolding claimable failure
  Transition-IsSound a b (claim w now c e) h = subst IsSound (sym e) (ground arith)
  Transition-IsSound a b (beat w now o e) h = subst IsSound (sym e) (ground arith)
  Transition-IsSound a b (complete w now o e) h = subst IsSound (sym e) (ground arith)
  Transition-IsSound a b (fail w now error r o e) h = subst IsSound (sym e) (ground arith)

  Moves-IsSound : (a b : EmailDeliveryJob) → Moves s a b → IsSound a → IsSound b
  Moves-IsSound a b (inl e) h = subst IsSound e h
  Moves-IsSound a b (inr m) h = Transition-IsSound a b m h

  Evolves-IsSound :
      (old new : List EmailDeliveryJob) → Evolves s old new → All IsSound old → All IsSound new
  Evolves-IsSound [] new ev h = All-map (IsFresh s) IsSound new IsFresh-IsSound ev
  Evolves-IsSound (x ∷ xs) [] ev h = absurd ev
  Evolves-IsSound (x ∷ xs) (y ∷ ys) ev h =
      (Moves-IsSound x y ev.0 h.0, Evolves-IsSound xs ys ev.1 h.1)

  pub Reach-IsTable : {t u : Jobs} → Reach s t u → IsTable job_key t → IsTable job_key u
  Reach-IsTable start h = h
  Reach-IsTable (next r st) h = Step-IsTable s st (Reach-IsTable r h)

  Reach-IsSound :
      {t u : Jobs} → Reach s t u → IsTable job_key t → All IsSound t.rows → All IsSound u.rows
  Reach-IsSound start h k = k
  Reach-IsSound (next {u} {v} r st) h k =
      Evolves-IsSound u.rows v.rows (Step-Evolves s st (Reach-IsTable r h)) (Reach-IsSound r h k)

  -- Whatever processes enqueue, claim, refresh, complete and fail jobs, in any order and at any
  -- times, from the empty table on: every row satisfies `IsSound`, and the keys are distinct.
  pub reachable-IsSound : {t : Jobs} → Reach s empty t → IsTable job_key t × All IsSound t.rows
  reachable-IsSound r =
      let none_yet : IsTable job_key empty = record { keyed = tt; below = tt } in
      (Reach-IsTable r none_yet, Reach-IsSound r none_yet tt)

-- What later operations leave of a row: the delivery that was accepted, or nothing of its payload.
pub record Follows (j k : EmailDeliveryJob) : Type 0 where
  pub same_id : k.id ≡ j.id
  pub same_endpoint : k.endpoint_id ≡ j.endpoint_id
  pub same_limit : k.max_attempts ≡ j.max_attempts
  pub attempts_grow : j.attempts ≤ k.attempts
  pub payload_unaltered :
      (k.encrypted_payload ≡ j.encrypted_payload)
      ⊎ (k.encrypted_payload ≡ none) × (is_terminal k.status ≡ true)
  pub terminal_final : is_terminal j.status ≡ true → k ≡ j

Follows-refl : (j : EmailDeliveryJob) → Follows j j
Follows-refl j = record {
  same_id = refl;
  same_endpoint = refl;
  same_limit = refl;
  attempts_grow = omega arith;
  payload_unaltered = inl refl;
  terminal_final = λ _. refl;
}

Follows-trans : (i j k : EmailDeliveryJob) → Follows i j → Follows j k → Follows i k
Follows-trans i j k f g = record {
  same_id = g.same_id ∙ f.same_id;
  same_endpoint = g.same_endpoint ∙ f.same_endpoint;
  same_limit = g.same_limit ∙ f.same_limit;
  attempts_grow = omega (arith, f.attempts_grow, g.attempts_grow);
  payload_unaltered = ground (arith, f.payload_unaltered, g.payload_unaltered, g.terminal_final);
  terminal_final = λ h. later (f.terminal_final h) h ∙ f.terminal_final h;
}
  where
    later : j ≡ i → is_terminal i.status ≡ true → k ≡ j
    later e h = g.terminal_final (subst (λ x. is_terminal x.status ≡ true) (sym e) h)

module _ (s : Settings) where
  Moves-Follows : (a b : EmailDeliveryJob) → Moves s a b → Follows a b
  unfolding claimable failure
  Moves-Follows a b (inl e) = subst (Follows a) e (Follows-refl a)
  Moves-Follows a b (inr (claim w now c e)) = subst (Follows a) (sym e) (ground arith)
  Moves-Follows a b (inr (beat w now o e)) = subst (Follows a) (sym e) (ground arith)
  Moves-Follows a b (inr (complete w now o e)) = subst (Follows a) (sym e) (ground arith)
  Moves-Follows a b (inr (fail w now error r o e)) = subst (Follows a) (sym e) (ground arith)

  Evolves-Follows :
      (old new : List EmailDeliveryJob) {j : EmailDeliveryJob}
      → Evolves s old new
      → In j old
      → (k : EmailDeliveryJob) × In k new × Follows j k
  Evolves-Follows [] new ev i = elim i [ ]
  Evolves-Follows (x ∷ xs) [] ev i = absurd ev
  Evolves-Follows (x ∷ xs) (y ∷ ys) ev (here e) =
      (y, here refl, subst (λ j. Follows j y) e (Moves-Follows x y ev.0))
  Evolves-Follows (x ∷ xs) (y ∷ ys) ev (there i) =
      let (k, at, f) = Evolves-Follows xs ys ev.1 i in (k, there at, f)

  -- An accepted delivery follows its row through any sequence of operations: its key, endpoint and
  -- limit stay, its attempts never fall, its payload stays as it was until the job has finished and
  -- it is destroyed, and a finished job never changes again.
  pub Reach-Follows :
      {t u : Jobs} (j : EmailDeliveryJob)
      → Reach s t u
      → IsTable job_key t
      → In j t.rows
      → (k : EmailDeliveryJob) × In k u.rows × Follows j k
  Reach-Follows j start h i = (j, i, Follows-refl j)
  Reach-Follows j (next {u} {v} r st) h i =
      let (k, at, f) = Reach-Follows j r h i in
      let (l, there_too, g) =
        Evolves-Follows u.rows v.rows (Step-Evolves s st (Reach-IsTable s r h)) at in
      (l, there_too, Follows-trans j k l f g)
