-- ===== src/Endpoints/Routes.antt =====
-- The handlers of app/web/endpoints.py that change state.
use billsons_forms.Base.{
  List, Option, Text, [], find, if◌then◌else◌, inl, inr, is_empty, lit, map, none, not, select,
  some, update_where, ℕ, ◌++◌, ◌⊎◌,
}
use billsons_forms.Models.{Database, FormEndpoint, User, insert, with_rows}
use billsons_forms.Strings.{decimal, or_empty}
use billsons_forms.Http.{Request, Response, page, raised, redirect}
use billsons_forms.Network.{err, ok}
use billsons_forms.Snapshot.{DeliverySnapshot, decrypt_value}
use billsons_forms.Email.{
  DeliveryError, permanent_email_error, send_test_email, temporary_email_error, unexpected_error,
}
use billsons_forms.Auth.{create_audit_log, get_current_user, require_csrf, require_user}
use billsons_forms.Cap.{CapResult, is_success, status_value, test_cap_service}
use billsons_forms.Validation.{EndpointValues, RawForm}
use billsons_forms.Forms.{active_of}
use billsons_forms.Endpoints.{
  EndpointPlatform, EndpointPost, apply_values, blank_endpoint, create_errors, create_route,
  create_values, delete_route, disabled, edit_errors, edit_route, edit_values, first_message,
  fits_endpoint, has_id, is_live, location, replace_recipients, stored_origins_of, test_cap_route,
  test_smtp_route,
}

-- The name of the exception that the SMTP test ends with.
abbrev error_name : DeliveryError → Text
error_name (permanent_email_error message) = lit "PermanentEmailError"
error_name (temporary_email_error message) = lit "TemporaryEmailError"
error_name (unexpected_error name message) = name

module _ (p : EndpointPlatform) (smtp_nonce cap_nonce : Text) where
  module _ (request : Request) (current_user : User) (now : ℕ) where
    abbrev audit : Text → Text → Database → Database
    audit action details db =
        create_audit_log p.forms.platform db action (some current_user) none request (some details)
          now

    abbrev pub created : EndpointValues → RawForm → Option Text → Database → Database
    created values raw allowed_origins db =
        let row : (ℕ → FormEndpoint) = λ id.
          apply_values p smtp_nonce cap_nonce values raw allowed_origins
            (blank_endpoint current_user.id id) in
        let db' = record db { endpoints = insert row db.endpoints } in
        audit (lit "Endpoint Created")
          (lit "Created endpoint: " ++ values.name ++ lit " (" ++ values.slug ++ lit ")")
          (replace_recipients db' db.endpoints.next_id values.recipient_emails)

    unfoldable pub create_endpoint : RawForm → Database → Response × Database
    create_endpoint raw db =
        let values = (create_values p smtp_nonce cap_nonce raw).0 in
        let errors = create_errors p smtp_nonce cap_nonce raw db in
        if not (is_empty errors)
        then (page (lit "endpoints/create.html") 400 (first_message errors), db)
        else elim (stored_origins_of p smtp_nonce cap_nonce values) [
          | err message ↦ (raised, db)
          | ok allowed_origins ↦
              if fits_endpoint p smtp_nonce cap_nonce values raw
              then (
                location p smtp_nonce cap_nonce db.endpoints.next_id,
                created values raw allowed_origins db,
              )
              else (raised, db)
        ]

    abbrev pub edited : FormEndpoint → EndpointValues → RawForm → Option Text → Database → Database
    edited r values raw allowed_origins db =
        let db' = record db {
          endpoints = with_rows db.endpoints (
              update_where (has_id r.id)
                (apply_values p smtp_nonce cap_nonce values raw allowed_origins) db.endpoints.rows);
        } in
        audit (lit "Endpoint Updated")
          (lit "Updated endpoint: "
            ++ r.name
            ++ lit " ("
            ++ r.slug
            ++ lit ") -> "
            ++ values.name
            ++ lit " ("
            ++ values.slug
            ++ lit ")")
          (replace_recipients db' r.id values.recipient_emails)

    unfoldable pub edit_endpoint : RawForm → FormEndpoint → Database → Response × Database
    edit_endpoint raw r db =
        let values = (edit_values p smtp_nonce cap_nonce raw r).0 in
        let errors = edit_errors p smtp_nonce cap_nonce raw r db in
        if not (is_empty errors)
        then (page (lit "endpoints/edit.html") 400 (first_message errors), db)
        else elim (stored_origins_of p smtp_nonce cap_nonce values) [
          | err message ↦ (raised, db)
          | ok allowed_origins ↦
              if fits_endpoint p smtp_nonce cap_nonce values raw
              then (location p smtp_nonce cap_nonce r.id, edited r values raw allowed_origins db)
              else (raised, db)
        ]

    abbrev pub deleted : FormEndpoint → Database → Database
    deleted r db =
        let db' = record db {
          endpoints =
              with_rows db.endpoints (update_where (has_id r.id) disabled db.endpoints.rows);
        } in
        audit (lit "Endpoint Deleted")
          (lit "Soft deleted endpoint: " ++ r.name ++ lit " (" ++ r.slug ++ lit ")") db'

    -- The arguments of `send_test_email`.
    abbrev test_snapshot : FormEndpoint → List Text → Option Text → DeliverySnapshot p.forms.Value
    test_snapshot r recipients password = record {
      submitted_fields = [];
      recipients = recipients;
      sender_email = r.sender_email;
      sender_name = r.sender_name;
      subject = [];
      smtp_host = r.smtp_host;
      smtp_port = r.smtp_port;
      smtp_username = r.smtp_username;
      smtp_password = password;
      smtp_security = r.smtp_security;
      reply_to_email = none;
    }

    -- The name of the exception that is caught, if any: a secret that does not decrypt is one.
    abbrev pub smtp_failure : FormEndpoint → List Text → Option Text
    smtp_failure r recipients =
        elim (decrypt_value p.forms.platform.unicode p.forms.network p.forms.codec
          r.smtp_password) [
            | none ↦ some (lit "InvalidToken")
            | some password ↦
                elim (send_test_email p.forms.platform.unicode p.smtp
                  (test_snapshot r recipients password)) [
                    | none ↦ none
                    | some error ↦ some (error_name error)
                  ]
          ]

    abbrev smtp_report : FormEndpoint → Option Text → Database → Response × Database
    smtp_report r none db = (
      redirect
          (lit "/endpoints/" ++ decimal r.id ++ lit "?notice=SMTP+configuration+test+succeeded."),
      audit (lit "SMTP Configuration Tested")
          (lit "Endpoint " ++ r.slug ++ lit ": SMTP configuration test succeeded.") db,
    )
    smtp_report r (some name) db = (
      redirect (lit "/endpoints/" ++ decimal r.id ++ lit "?error=SMTP+test+failed%3A+" ++ name),
      audit (lit "SMTP Configuration Tested")
          (lit "Endpoint " ++ r.slug ++ lit ": SMTP test failed: " ++ name) db,
    )

    unfoldable pub test_smtp : FormEndpoint → Database → Response × Database
    test_smtp r db =
        let recipients = map (λ x. x.email) (select (active_of r.id) db.recipients.rows) in
        smtp_report r (smtp_failure r recipients) db

    abbrev cap_report : FormEndpoint → Option CapResult → Database → Response × Database
    cap_report r none db = (raised, db)
    cap_report r (some result) db = (
      redirect (
          lit "/endpoints/"
          ++ decimal r.id
          ++ (if is_success result.status then lit "?notice=" else lit "?error=")
          ++ p.quote_plus result.diagnostic),
      audit (lit "CAP Configuration Tested")
          (lit "Endpoint "
            ++ r.slug
            ++ lit ": "
            ++ status_value result.status
            ++ lit "; "
            ++ result.diagnostic)
          db,
    )

    unfoldable pub test_cap : FormEndpoint → Database → Response × Database
    test_cap r db =
        cap_report r
          (test_cap_service p.forms.platform.unicode p.forms.network p.forms.origins
            p.forms.cap_post (or_empty r.cap_verify_url))
          db

    -- The handlers that look an endpoint up, answering with its list where it is not there.
    abbrev pub with_endpoint :
        ℕ → (FormEndpoint → Database → Response × Database) → Database → Response × Database
    with_endpoint endpoint_id handle db = elim (find (is_live endpoint_id) db.endpoints.rows) [
      | none ↦ (redirect (lit "/endpoints"), db)
      | some r ↦ handle r db
    ]

    unfoldable pub run_route : EndpointPost → Database → Response × Database
    run_route (create_route raw) db = create_endpoint raw db
    run_route (edit_route endpoint_id raw) db = with_endpoint endpoint_id (edit_endpoint raw) db
    run_route (delete_route endpoint_id) db =
        with_endpoint endpoint_id (λ r db. (redirect (lit "/endpoints"), deleted r db)) db
    run_route (test_smtp_route endpoint_id) db = with_endpoint endpoint_id test_smtp db
    run_route (test_cap_route endpoint_id) db = with_endpoint endpoint_id test_cap db

  abbrev pub guarded_route :
      EndpointPost → Request → Response ⊎ User → ℕ → Database → Response × Database
  guarded_route route request (inl answered) now db = (answered, db)
  guarded_route route request (inr current_user) now db =
      run_route request current_user now route db

  -- A request to one of them: `require_csrf` runs first, then `require_user`.
  unfoldable pub post_endpoint : EndpointPost → Text → Request → ℕ → Database → Response × Database
  post_endpoint route csrf_token_value request now db =
      elim (require_csrf p.forms.platform request csrf_token_value) [
        | some error ↦ (error, db)
        | none ↦
            guarded_route route request
              (require_user p.forms.platform (get_current_user p.forms.platform request db now)) now
              db
      ]
