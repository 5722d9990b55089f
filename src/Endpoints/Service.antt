-- ===== src/Endpoints/Service.antt =====
-- What the administration of endpoints means for the submissions that follow.
use billsons_forms.Endpoints.Slugs.{disabled_view}
use billsons_forms.Auth.{create_audit_log, require_user}
use billsons_forms.Endpoints.Changes.{IsUserRequest}
use billsons_forms.Strings.{strip, truthy}
use billsons_forms.Endpoints.Laws.{IsEndpointTable}
use billsons_forms.Snapshot.{decrypt_value, encrypt_value}
use billsons_forms.Forms.Stages.{not_found, submit_form}
use billsons_forms.Http.{Request}
use mathlib.Core.List.{append-nil, append_assoc, map-append}
use billsons_forms.Base.{
  Bool, Bool-cases, In, In-find, List, Option, Text, [], ap, arith, delete_where, false, find,
  if◌then◌else◌, inl, inr, map, none, refl, select, some, sym, text_beq_refl, true, ℕ, ◌++◌, ◌∙◌,
  ◌∷◌, ◌≡◌, ◌≢◌,
}
use billsons_forms.Models.{Database, FormEndpoint, FormEndpointRecipient, Table, User, insert}
use billsons_forms.Forms.{active_of, get_endpoint, stored}
use billsons_forms.Endpoints.Routes.{
  deleted, guarded_route, post_endpoint, run_route, with_endpoint,
}
use billsons_forms.Endpoints.{
  EndpointPlatform, add_recipients, delete_route, is_live, of_endpoint, recipient_of,
  replace_recipients, secret_or,
}

module _ {A : Type 0} where
  select-append :
      (q : A → Bool) (xs : List A) (a : A)
      → q a ≡ true
      → select q (xs ++ a ∷ []) ≡ select q xs ++ a ∷ []
  unfolding select
  select-append q [] a hit = ground (arith, hit)
  select-append q (x ∷ xs) a hit = ground (arith, select-append q xs a hit)

  select-append_other :
      (q : A → Bool) (xs : List A) (a : A) → q a ≡ false → select q (xs ++ a ∷ []) ≡ select q xs
  unfolding select
  select-append_other q [] a miss = ground (arith, miss)
  select-append_other q (x ∷ xs) a miss = ground (arith, select-append_other q xs a miss)

  select-delete_where :
      (q d : A → Bool) (xs : List A)
      → ((a : A) → q a ≡ true → d a ≡ true)
      → select q (delete_where d xs) ≡ []
  unfolding select delete_where
  select-delete_where q d [] covers = refl
  select-delete_where q d (x ∷ xs) covers =
      ground (arith, covers x, select-delete_where q d xs covers)

  select-delete_where_other :
      (q d : A → Bool) (xs : List A)
      → ((a : A) → q a ≡ true → d a ≡ false)
      → select q (delete_where d xs) ≡ select q xs
  unfolding select delete_where
  select-delete_where_other q d [] apart = refl
  select-delete_where_other q d (x ∷ xs) apart =
      ground (arith, apart x, select-delete_where_other q d xs apart)

-- The addresses that the API sends to.
abbrev pub emails_of : ℕ → List FormEndpointRecipient → List Text
emails_of endpoint_id rows = map (λ r. r.email) (select (active_of endpoint_id) rows)

add_recipients-emails_of :
    (endpoint_id : ℕ) (emails : List Text) (t : Table FormEndpointRecipient)
    → emails_of endpoint_id (add_recipients endpoint_id emails t).rows
      ≡ emails_of endpoint_id t.rows ++ emails
unfolding add_recipients
add_recipients-emails_of endpoint_id [] t = sym (append-nil _)
add_recipients-emails_of endpoint_id (email ∷ emails) t =
    let row = recipient_of endpoint_id email t.next_id in
    add_recipients-emails_of endpoint_id emails (insert (recipient_of endpoint_id email) t)
    ∙ (ap (λ rows. map (λ r. r.email) rows ++ emails)
          (select-append (active_of endpoint_id) t.rows row (ground arith))
        ∙ (ap (λ texts. texts ++ emails)
              (map-append (λ r. r.email) (select (active_of endpoint_id) t.rows) (row ∷ []))
            ∙ append_assoc (emails_of endpoint_id t.rows) (email ∷ []) emails))

add_recipients-other :
    (endpoint_id other : ℕ) (emails : List Text) (t : Table FormEndpointRecipient)
    → endpoint_id ≢ other
    → emails_of other (add_recipients endpoint_id emails t).rows ≡ emails_of other t.rows
unfolding add_recipients
add_recipients-other endpoint_id other [] t apart = refl
add_recipients-other endpoint_id other (email ∷ emails) t apart =
    let row = recipient_of endpoint_id email t.next_id in
    add_recipients-other endpoint_id other emails (insert (recipient_of endpoint_id email) t) apart
    ∙ ap (λ rows. map (λ r. r.email) rows)
        (select-append_other (active_of other) t.rows row (ground (arith, apart)))

-- Replacing the recipients of an endpoint makes the addresses that the API sends to the given ones,
-- in their order, and leaves those of every other endpoint.
pub replace_recipients-emails_of :
    (db : Database) (endpoint_id other : ℕ) (emails : List Text)
    → (emails_of endpoint_id (replace_recipients db endpoint_id emails).recipients.rows ≡ emails)
      × (endpoint_id ≢ other
          → emails_of other (replace_recipients db endpoint_id emails).recipients.rows
            ≡ emails_of other db.recipients.rows)
unfolding replace_recipients
replace_recipients-emails_of db endpoint_id other emails = (
  add_recipients-emails_of endpoint_id emails _
      ∙ ap (λ rows. map (λ r. r.email) rows ++ emails)
          (select-delete_where (active_of endpoint_id) (of_endpoint endpoint_id) db.recipients.rows
            (λ r hit. ground (arith, hit))),
  λ apart.
      add_recipients-other endpoint_id other emails _ apart
      ∙ ap (λ rows. map (λ r. r.email) rows)
          (select-delete_where_other (active_of other) (of_endpoint endpoint_id) db.recipients.rows
            (λ r hit. ground (arith, hit, apart))),
)

module _ (p : EndpointPlatform) (smtp_nonce cap_nonce : Text) (request : Request) (now : ℕ) where
  post_deleted :
      (endpoint_id : ℕ) (csrf_token_value : Text) (db : Database) (user : User) (r : FormEndpoint)
      → IsUserRequest p smtp_nonce cap_nonce request now csrf_token_value db user
      → find (is_live endpoint_id) db.endpoints.rows ≡ some r
      → (post_endpoint p smtp_nonce cap_nonce
          (delete_route endpoint_id)
          csrf_token_value
          request
          now
          db).1
        ≡ deleted p smtp_nonce cap_nonce request user now r db
  unfolding post_endpoint require_user run_route
  post_deleted endpoint_id csrf_token_value db user r authorised found =
      rw (authorised.csrf_ok, post_endpoint)
        (rw authorised.logged_in
          (rw (found, guarded_route, require_user, run_route, with_endpoint) refl))

  gone_slug :
      (user : User) (r : FormEndpoint) (db : Database)
      → IsEndpointTable p db.endpoints
      → In r db.endpoints.rows
      → get_endpoint (deleted p smtp_nonce cap_nonce request user now r db) r.slug ≡ none
  unfolding get_endpoint create_audit_log
  gone_slug user r db h i =
      disabled_view db.endpoints h.named r r.slug i ∙ rw (text_beq_refl r.slug) refl

  -- An endpoint that a user deletes is gone for the API at once: every submission to its slug is
  -- answered with 404 and changes nothing, whatever it holds, where the table of endpoints was
  -- well-formed.
  pub submit_form-deleted :
      (endpoint_id : ℕ) (csrf_token_value : Text) (db : Database) (user : User) (r : FormEndpoint)
      (post : Request) (posted later : ℕ) (nonce : Text) (chunks : List Text)
      → IsEndpointTable p db.endpoints
      → IsUserRequest p smtp_nonce cap_nonce request now csrf_token_value db user
      → find (is_live endpoint_id) db.endpoints.rows ≡ some r
      → let db' =
          (post_endpoint p smtp_nonce cap_nonce
            (delete_route endpoint_id)
            csrf_token_value
            request
            now
            db).1 in
        submit_form p.forms db' r.slug post posted later nonce chunks
        ≡ (some (not_found p.forms), db')
  unfolding submit_form
  submit_form-deleted endpoint_id csrf_token_value db user r post posted later nonce chunks h
        authorised found =
      let before = post_deleted endpoint_id csrf_token_value db user r authorised found in
      let i = In-find (is_live endpoint_id) db.endpoints.rows found in
      let gone : get_endpoint (deleted p smtp_nonce cap_nonce request user now r db) r.slug ≡ none =
        gone_slug user r db h i in
      rw before (rw (gone, submit_form) refl)

  -- A secret that an edit does not give stays, and one that it gives is what decryption returns from
  -- then on, where the cipher reads back what it wrote.
  pub decrypt_value-secret_or :
      (nonce typed : Text) (stored : Option Text)
      → let secret = strip p.forms.platform.unicode typed in
        p.forms.codec.decrypt (p.forms.codec.encrypt nonce secret) ≡ some secret
        → truthy (p.forms.codec.encrypt nonce secret) ≡ true
        → decrypt_value p.forms.platform.unicode p.forms.network p.forms.codec
            (secret_or p smtp_nonce cap_nonce nonce typed stored)
          ≡ (if truthy secret
              then some (some secret)
              else decrypt_value p.forms.platform.unicode p.forms.network p.forms.codec stored)
  unfolding decrypt_value encrypt_value
  decrypt_value-secret_or nonce typed stored decrypts filled =
      elim (Bool-cases (truthy (strip p.forms.platform.unicode typed))) [
        | inl given ↦ ground (arith, given, decrypts, filled)
        | inr blank ↦ rw blank refl
      ]
