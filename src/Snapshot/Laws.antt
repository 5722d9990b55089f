-- ===== src/Snapshot/Laws.antt =====
-- What a worker decrypts is what was accepted, and always fit for delivery.
use billsons_forms.Base.{
  All, Bool, Bool-cases, In, In-append_right, List, Option, Option-cases, Text, [], any, ap, arith,
  contains, false, here, inl, inr, length, nat_eq, none, not, refl, some, subst, sym, text_beq_iff,
  text_eq, true, ℕ, ◌∙◌, ◌∷◌, ◌≡◌, ◌≢◌, ◌≤◌, ◌⊎◌,
}
use billsons_forms.Models.{EmailDeliveryJob}
use billsons_forms.Models.Tables.{IsTable, insert-IsTable}
use billsons_forms.Config.{Settings}
use billsons_forms.Strings.{Unicode, truthy, truthy_option}
use billsons_forms.Network.{NetworkLibrary, Result, err, is_email, normalize_hostname, ok}
use billsons_forms.Queue.{enqueue_payload, queued_job}
use billsons_forms.Queue.Cases.{Jobs, job_key}
use billsons_forms.Queue.Steps.{Reach}
use billsons_forms.Queue.Lifecycle.{Follows, Reach-Follows, is_terminal}
use billsons_forms.Snapshot.{
  load_snapshot, checked_snapshot, Codec, DeliverySnapshot, create_delivery_snapshot,
  decrypt_job_snapshot, decrypt_value, encrypt_value, enqueue_delivery, has_duplicates, is_host,
  is_valid, model_validate,
}

-- Every value occurs once.
abbrev pub AllDistinct : List Text → Type 0
AllDistinct [] = Unit
AllDistinct (x ∷ xs) = All (λ y. y ≢ x) xs × AllDistinct xs

pub contains-All : (x : Text) (xs : List Text) → contains x xs ≡ false → All (λ y. y ≢ x) xs
unfolding contains
contains-All x [] h = tt
contains-All x (y ∷ ys) h =
    (λ e. ground (arith, h, text_beq_iff x y, sym e), contains-All x ys (ground arith))

has_duplicates-AllDistinct : (xs : List Text) → has_duplicates xs ≡ false → AllDistinct xs
unfolding has_duplicates
has_duplicates-AllDistinct [] h = tt
has_duplicates-AllDistinct (x ∷ xs) h =
    (contains-All x xs (ground arith), has_duplicates-AllDistinct xs (ground arith))

All-contains : (x : Text) (xs : List Text) → All (λ y. y ≢ x) xs → contains x xs ≡ false
unfolding contains
All-contains x [] h = refl
All-contains x (y ∷ ys) h = ground (arith, h.0, text_beq_iff y x, All-contains x ys h.1)

pub AllDistinct-has_duplicates : (xs : List Text) → AllDistinct xs → has_duplicates xs ≡ false
unfolding has_duplicates
AllDistinct-has_duplicates [] h = refl
AllDistinct-has_duplicates (x ∷ xs) h =
    rw (All-contains x xs h.0) (AllDistinct-has_duplicates xs h.1)

pub any-All :
    {A : Type 0} (p : A → Bool) (xs : List A)
    → any (λ x. not (p x)) xs ≡ false
    → All (λ x. p x ≡ true) xs
any-All p [] h = tt
any-All p (x ∷ xs) h = (ground arith, any-All p xs (ground arith))

pub Result-cases :
    {A : Type 0} (r : Result A) → ((a : A) × (r ≡ ok a)) ⊎ ((message : Text) × (r ≡ err message))
Result-cases (ok a) = inl (a, refl)
Result-cases (err message) = inr (message, refl)

some-injective : {A : Type 0} {a b : A} → some a ≡ some b → a ≡ b
some-injective e = cc

module _ {Value : Type 0} (u : Unicode) (net : NetworkLibrary) (codec : Codec Value) where
  -- Mail can be made and sent from the snapshot.
  pub record IsDeliverable (s : DeliverySnapshot Value) : Type 0 where
    pub some_recipient : s.recipients ≢ []
    pub recipients_valid : All (λ value. is_email u net value ≡ true) s.recipients
    pub recipients_distinct : AllDistinct s.recipients
    pub sender_valid : is_email u net s.sender_email ≡ true
    pub reply_to_valid :
        (value : Text) → s.reply_to_email ≡ some value → is_email u net value ≡ true
    pub host_canonical : normalize_hostname u net s.smtp_host ≡ ok s.smtp_host
    pub port_in_range : (1 ≤ s.smtp_port) × (s.smtp_port ≤ 65535)
    pub subject_present : s.subject ≢ []
    pub subject_fits : length s.subject ≤ 255

  is_host-ok : (value : Text) (r : Result Text) → is_host value r ≡ true → r ≡ ok value
  is_host-ok value (ok normalized) h = ap ok ((text_beq_iff normalized value).0 h)
  is_host-ok value (err message) h = absurd (ground (arith, h))

  is_valid-IsDeliverable :
      (s : DeliverySnapshot Value) → is_valid u net codec s ≡ true → IsDeliverable s
  unfolding is_valid
  is_valid-IsDeliverable s h = record {
    some_recipient = λ e. ground (arith, h, e);
    recipients_valid = any-All (is_email u net) s.recipients (ground arith);
    recipients_distinct = has_duplicates-AllDistinct s.recipients (ground arith);
    sender_valid = ground arith;
    reply_to_valid = λ value e. ground (arith, e);
    host_canonical = is_host-ok s.smtp_host _ (ground arith);
    port_in_range = ground arith;
    subject_present = λ e. ground (arith, h, e);
    subject_fits = ground arith;
  }

  validated :
      (r s : DeliverySnapshot Value)
      → model_validate u net codec r ≡ some s
      → is_valid u net codec s ≡ true
  validated r s e = elim (Bool-cases (is_valid u net codec r)) [
    | inl valid ↦
        let same : some r ≡ some s = ground arith in
        subst (λ x. is_valid u net codec x ≡ true) (some-injective same) valid
    | inr invalid ↦ absurd (ground arith)
  ]

  load_snapshot-valid :
      (text : Option (Option Text)) (s : DeliverySnapshot Value)
      → checked_snapshot u net codec (load_snapshot u net codec text) ≡ ok s
      → is_valid u net codec s ≡ true
  load_snapshot-valid none s e = absurd (ground arith)
  load_snapshot-valid (some none) s e = absurd (ground arith)
  load_snapshot-valid (some (some raw)) s e = elim (Option-cases (codec.load raw)) [
    | inl bad ↦ absurd (ground arith)
    | inr (r, loaded) ↦ validated r s (ground arith)
  ]

  -- Whatever the row holds, a snapshot that is decrypted from it can be delivered: it has
  -- recipients, all of them valid and distinct addresses, a valid sender and reply address, a
  -- canonical host, a port in range and a subject that fits.
  pub decrypt_job_snapshot-IsDeliverable :
      (job : EmailDeliveryJob) (s : DeliverySnapshot Value)
      → decrypt_job_snapshot u net codec job ≡ ok s
      → IsDeliverable s
  unfolding decrypt_job_snapshot
  decrypt_job_snapshot-IsDeliverable job s e =
      elim (Bool-cases (truthy_option job.encrypted_payload)) [
        | inl filled ↦
            is_valid-IsDeliverable s (
              load_snapshot-valid (decrypt_value u net codec job.encrypted_payload) s
                (ground arith))
        | inr missing ↦ absurd (ground arith)
      ]

  -- What is created is what was given, with the host normalized, and valid.
  pub create_delivery_snapshot_lem :
      (fields s : DeliverySnapshot Value)
      → create_delivery_snapshot u net codec fields ≡ some s
      → (host : Text) × (normalize_hostname u net fields.smtp_host ≡ ok host)
        × (record fields { smtp_host = host } ≡ s)
        × (is_valid u net codec s ≡ true)
  unfolding create_delivery_snapshot
  create_delivery_snapshot_lem fields s e =
      elim (Result-cases (normalize_hostname u net fields.smtp_host)) [
        | inl (host, normal) ↦
            elim (Bool-cases (is_valid u net codec (record fields { smtp_host = host }))) [
              | inl valid ↦
                  let same = some-injective (ground arith) in
                  (host, normal, same, subst (λ x. is_valid u net codec x ≡ true) same valid)
              | inr invalid ↦ absurd (ground arith)
            ]
        | inr (message, bad) ↦ absurd (ground arith)
      ]

  -- What is relied on of JSON and of the cipher, for one snapshot.
  module _ (s : DeliverySnapshot Value) (nonce : Text)
      (load-dump : codec.load (codec.dump s) ≡ some s) (dump_filled : truthy (codec.dump s) ≡ true)
      (decrypt-encrypt : codec.decrypt (codec.encrypt nonce (codec.dump s)) ≡ some (codec.dump s))
      (encrypt_filled : truthy (codec.encrypt nonce (codec.dump s)) ≡ true) where
    decrypt_payload :
        (job : EmailDeliveryJob)
        → is_valid u net codec s ≡ true
        → job.encrypted_payload ≡ some (codec.encrypt nonce (codec.dump s))
        → decrypt_job_snapshot u net codec job ≡ ok s
    unfolding decrypt_job_snapshot decrypt_value
    decrypt_payload job valid e = ground (arith, load-dump, decrypt-encrypt, encrypt_filled)

    -- The snapshot of an accepted submission comes out of its row as it went in, until the job has
    -- finished, whatever sequence of queue operations follows; the codec reads back what it wrote.
    pub enqueue-decrypt :
        (st : Settings) (jobs later : Jobs) (endpoint_id : Option ℕ)
        (fields : DeliverySnapshot Value) (now : ℕ)
        → IsTable job_key jobs
        → create_delivery_snapshot u net codec fields ≡ some s
        → Reach st (enqueue_delivery u net codec st jobs endpoint_id s nonce now).1 later
        → (k : EmailDeliveryJob) × In k later.rows
          × (k.id ≡ (enqueue_delivery u net codec st jobs endpoint_id s nonce now).0.id)
          × ((decrypt_job_snapshot u net codec k ≡ ok s) ⊎ (is_terminal k.status ≡ true))
    unfolding enqueue_delivery encrypt_value enqueue_payload
    enqueue-decrypt st jobs later endpoint_id fields now h made reach =
        let row = (enqueue_delivery u net codec st jobs endpoint_id s nonce now).0 in
        let payload : row.encrypted_payload ≡ some (codec.encrypt nonce (codec.dump s)) =
          ground (arith, dump_filled) in
        let (k, at, follows) =
          Reach-Follows st row reach
            (insert-IsTable job_key
              (queued_job st endpoint_id (encrypt_value u net codec nonce (some (codec.dump s)))
                now)
              jobs (λ n. refl) h)
            (In-append_right jobs.rows (row ∷ []) (here refl)) in
        (k, at, follows.same_id, kept row k payload follows)
      where
        kept :
            (row k : EmailDeliveryJob)
            → row.encrypted_payload ≡ some (codec.encrypt nonce (codec.dump s))
            → Follows row k
            → (decrypt_job_snapshot u net codec k ≡ ok s) ⊎ (is_terminal k.status ≡ true)
        kept row k payload follows = elim follows.payload_unaltered [
          | inl same ↦
              inl
                (decrypt_payload k (create_delivery_snapshot_lem fields s made).3 (same ∙ payload))
          | inr (gone, done) ↦ inr done
        ]
