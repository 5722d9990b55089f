-- ===== src/Endpoints/Recipients.antt =====
-- The recipients of the endpoints, which their own table holds.
use billsons_forms.Strings.{truthy_option}
use billsons_forms.Validation.{EndpointValues, RawForm}
use billsons_forms.Base.{
  All, All-append, All-update_where, Bool, Bool-cases, In, In-of_append, In-of_update_where, List,
  Text, [], ap, arith, changed, false, inl, inr, left, lit, nat_beq, nat_beq_iff, refl, subst, sym,
  true, update_where, ℕ, ◌∙◌, ◌≡◌, ◌≢◌,
}
use billsons_forms.Models.{Database, FormEndpoint, User, insert, with_rows}
use billsons_forms.Http.{Request}
use billsons_forms.Network.{is_email}
use billsons_forms.Snapshot.Laws.{AllDistinct}
use billsons_forms.Auth.{create_audit_log}
use billsons_forms.Validation.Accepted.{IsAccepted, validate_endpoint_config-IsAccepted}
use billsons_forms.Endpoints.{
  EndpointPlatform, EndpointPost, apply_values, blank_endpoint, create_route, create_values,
  delete_route, disabled, edit_route, edit_values, has_id, replace_recipients,
}
use billsons_forms.Endpoints.Routes.{post_endpoint}
use billsons_forms.Endpoints.Changes.{
  Change, creates, deletes, edits, post_endpoint-Change, tests_cap, tests_smtp, unchanged,
}
use billsons_forms.Endpoints.Laws.{Change-IsEndpointTable, IsEndpointTable}
use billsons_forms.Endpoints.Service.{emails_of, replace_recipients-emails_of}

module _ (p : EndpointPlatform) where
  -- At least one, no two the same, and each an address as it was typed, in lower case.
  pub record IsRecipientList (emails : List Text) : Type 0 where
    pub filled : emails ≢ []
    pub distinct : AllDistinct emails
    pub valid :
        All
          (λ email.
            (typed : Text) × (is_email p.forms.platform.unicode p.forms.network typed ≡ true)
            × (p.forms.platform.unicode.lower typed ≡ email))
          emails

  -- Every endpoint is configured, has its recipients, and the subject that all endpoints are created with.
  pub record IsService (db : Database) : Type 0 where
    pub table : IsEndpointTable p db.endpoints
    pub recipients :
        (q : FormEndpoint)
        → In q db.endpoints.rows
        → IsRecipientList (emails_of q.id db.recipients.rows)
    pub subjects : All (λ q. q.email_subject ≡ lit "New form submission") db.endpoints.rows

  accepted_recipients :
      {raw : RawForm} {smtp_kept cap_kept : Bool} {values : EndpointValues}
      → IsAccepted p.forms.platform.unicode p.forms.network p.forms.origins
          p.forms.platform.settings raw smtp_kept cap_kept values
      → IsRecipientList values.recipient_emails
  accepted_recipients h = record {
    filled = h.recipients_filled;
    distinct = h.recipients_distinct;
    valid = h.recipients_valid;
  }

  replaced-IsRecipientList :
      (db : Database) (endpoint_id : ℕ) (emails : List Text) (q : FormEndpoint)
      → IsRecipientList emails
      → (endpoint_id ≢ q.id → IsRecipientList (emails_of q.id db.recipients.rows))
      → IsRecipientList (emails_of q.id (replace_recipients db endpoint_id emails).recipients.rows)
  replaced-IsRecipientList db endpoint_id emails q new old =
      let (own, others) = replace_recipients-emails_of db endpoint_id q.id emails in
      elim (Bool-cases (nat_beq endpoint_id q.id)) [
        | inl same ↦
            let e = (nat_beq_iff endpoint_id q.id).0 same in
            subst IsRecipientList
              (sym own
                ∙ ap (λ n. emails_of n (replace_recipients db endpoint_id emails).recipients.rows)
                    e)
              new
        | inr other ↦
            let apart : endpoint_id ≢ q.id = λ e. ground (arith, other, e) in
            subst IsRecipientList (sym (others apart)) (old apart)
      ]

  module _ (smtp_nonce cap_nonce : Text) (request : Request) (now : ℕ) where
    Change-IsService :
        (user : User) (route : EndpointPost) (db db' : Database)
        → Change p smtp_nonce cap_nonce request now user route db db'
        → IsService db
        → IsService db'
    unfolding create_audit_log replace_recipients apply_values
    Change-IsService user route db _ unchanged h = h
    Change-IsService user _ db _ (tests_smtp r details found) h = record {
      table = h.table;
      recipients = h.recipients;
      subjects = h.subjects;
    }
    Change-IsService user _ db _ (tests_cap r details found) h = record {
      table = h.table;
      recipients = h.recipients;
      subjects = h.subjects;
    }
    Change-IsService user (create_route raw) db _ (creates allowed valid free stored fit) h =
        let change = creates allowed valid free stored fit in
        let values = (create_values p smtp_nonce cap_nonce raw).0 in
        let row : (ℕ → FormEndpoint) = λ id.
          apply_values p smtp_nonce cap_nonce values raw allowed (blank_endpoint user.id id) in
        let accepted =
          validate_endpoint_config-IsAccepted p.forms.platform.unicode p.forms.network
            p.forms.origins p.forms.platform.settings raw false false valid in
        record {
          table =
              Change-IsEndpointTable p smtp_nonce cap_nonce request now user (create_route raw) db _
                change h.table;
          recipients = λ q i.
              replaced-IsRecipientList (record db { endpoints = insert row db.endpoints })
                db.endpoints.next_id values.recipient_emails q (accepted_recipients accepted)
                (λ apart. elim (In-of_append db.endpoints.rows (row db.endpoints.next_id) i) [
                  | inl e ↦ absurd (apart (ap (λ (x : FormEndpoint). x.id) e))
                  | inr old ↦ h.recipients q old
                ]);
          subjects = All-append _ db.endpoints.rows _ h.subjects (refl, tt);
        }
    Change-IsService user (edit_route endpoint_id raw) db _
          (edits r allowed found valid free stored fit) h =
        let change = edits r allowed found valid free stored fit in
        let values = (edit_values p smtp_nonce cap_nonce raw r).0 in
        let update = apply_values p smtp_nonce cap_nonce values raw allowed in
        let rows = update_where (has_id r.id) update db.endpoints.rows in
        let accepted =
          validate_endpoint_config-IsAccepted p.forms.platform.unicode p.forms.network
            p.forms.origins p.forms.platform.settings raw (truthy_option r.smtp_password)
            (truthy_option r.cap_secret_key) valid in
        record {
          table =
              Change-IsEndpointTable p smtp_nonce cap_nonce request now user
                (edit_route endpoint_id raw) db _ change h.table;
          recipients = λ q i.
              replaced-IsRecipientList (record db { endpoints = with_rows db.endpoints rows }) r.id
                values.recipient_emails q (accepted_recipients accepted)
                (λ apart. elim (In-of_update_where (has_id r.id) update db.endpoints.rows i) [
                  | changed a j hit e ↦
                      let same : a.id ≡ r.id = ground (arith, hit) in
                      absurd (apart (sym same ∙ ap (λ (x : FormEndpoint). x.id) e))
                  | left old miss ↦ h.recipients q old
                ]);
          subjects =
              All-update_where _ (has_id r.id) update db.endpoints.rows (λ q hit old. old)
                h.subjects;
        }
    Change-IsService user (delete_route endpoint_id) db _ (deletes r found) h = record {
      table =
          Change-IsEndpointTable p smtp_nonce cap_nonce request now user (delete_route endpoint_id)
            db _ (deletes r found) h.table;
      recipients = λ q i. elim (In-of_update_where (has_id r.id) disabled db.endpoints.rows i) [
        | changed a j hit e ↦
            subst (λ (x : FormEndpoint). IsRecipientList (emails_of x.id db.recipients.rows)) e
              (h.recipients a j)
        | left old miss ↦ h.recipients q old
      ];
      subjects =
          All-update_where _ (has_id r.id) disabled db.endpoints.rows (λ q hit old. old) h.subjects;
    }

    -- Whatever request is made, every endpoint keeps a configuration that passed the checks and the
    -- subject that it was created with, and has at least one recipient, no two the same, each an address
    -- as it was typed in lower case; keys and slugs stay distinct.
    pub post_endpoint-IsService :
        (route : EndpointPost) (csrf_token_value : Text) (db : Database)
        → IsService db
        → IsService (post_endpoint p smtp_nonce cap_nonce route csrf_token_value request now db).1
    post_endpoint-IsService route csrf_token_value db h =
        elim (post_endpoint-Change p smtp_nonce cap_nonce request now route csrf_token_value db) [
          | inl same ↦ subst IsService (sym same) h
          | inr (user, authorised, change) ↦ Change-IsService user route db _ change h
        ]
