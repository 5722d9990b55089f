-- ===== src/Endpoints/Laws.antt =====
-- What the table of endpoints keeps: distinct keys, distinct slugs, and a configuration in every row
-- that the rest of the program can work with.
use billsons_forms.Base.{
  All, All-In, All-append, All-update_where, Bool, In, List, Option, Text, [], arith, false, find,
  find-none, inl, inr, none, refl, some, subst, sym, text_beq_iff, text_beq_refl, true, ℕ, ◌∷◌, ◌≡◌,
  ◌≢◌, ◌≤◌,
}
use billsons_forms.Models.{Database, FormEndpoint, Table, User}
use billsons_forms.Models.Names.{IsNamed, insert-IsNamed, rename-IsNamed, update-IsNamed}
use billsons_forms.Strings.{or_empty, or_none, truthy, truthy_option}
use billsons_forms.Http.{Request}
use billsons_forms.Network.{is_email, normalize_hostname, ok}
use billsons_forms.Snapshot.{is_security}
use billsons_forms.Auth.{create_audit_log}
use billsons_forms.Validation.{EndpointValues, RawForm}
use billsons_forms.Validation.Accepted.{IsAccepted, validate_endpoint_config-IsAccepted}
use billsons_forms.Endpoints.Routes.{post_endpoint}
use billsons_forms.Endpoints.{
  EndpointPlatform, EndpointPost, apply_values, blank_endpoint, create_route, create_values,
  delete_route, disabled, edit_route, edit_values, has_id, has_slug, is_other_slug,
  replace_recipients,
}
use billsons_forms.Endpoints.Changes.{
  Change, creates, deletes, edits, post_endpoint-Change, tests_cap, tests_smtp, unchanged,
}

module _ (p : EndpointPlatform) where
  -- The sender, the host, the port, the security, the limits and the URL for CAP are as validated.
  pub record IsConfigured (e : FormEndpoint) : Type 0 where
    pub sender_valid : is_email p.forms.platform.unicode p.forms.network e.sender_email ≡ true
    pub host_normal :
        (typed : Text) × (normalize_hostname p.forms.platform.unicode p.forms.network typed
          ≡ ok e.smtp_host)
    pub port_in_range : (1 ≤ e.smtp_port) × (e.smtp_port ≤ 65535)
    pub security_valid : is_security e.smtp_security ≡ true
    pub payload_in_range :
        (1 ≤ e.max_payload_kb)
        × (e.max_payload_kb ≤ p.forms.platform.settings.absolute_max_payload_kb)
    pub requests_in_range : (1 ≤ e.rate_limit_requests) × (e.rate_limit_requests ≤ 10000)
    pub window_in_range : (1 ≤ e.rate_limit_window_seconds) × (e.rate_limit_window_seconds ≤ 86400)
    pub cap_complete : e.cap_enabled ≡ true → truthy_option e.cap_verify_url ≡ true

  pub record IsEndpointTable (endpoints : Table FormEndpoint) : Type 0 where
    pub named : IsNamed (λ (r : FormEndpoint). r.id) (λ (r : FormEndpoint). r.slug) endpoints
    pub configured : All IsConfigured endpoints.rows

  truthy-or_none : (text : Text) → truthy text ≡ true → truthy_option (or_none text) ≡ true
  truthy-or_none [] h = h
  truthy-or_none (c ∷ cs) h = refl

  truthy-or_empty :
      (text : Option Text)
      → truthy_option text ≡ true
      → truthy_option (or_none (or_empty text)) ≡ true
  truthy-or_empty none h = h
  truthy-or_empty (some text) h = truthy-or_none text h

  new_slug :
      (rows : List FormEndpoint) (slug : Text) (q : FormEndpoint)
      → find (has_slug slug) rows ≡ none
      → In q rows
      → slug ≢ q.slug
  new_slug rows slug q absent i e =
      let miss = All-In _ _ (find-none _ rows absent) i in cc (miss, e, text_beq_refl q.slug)

  pub other_slug :
      (rows : List FormEndpoint) (endpoint_id : ℕ) (slug : Text) (q : FormEndpoint)
      → find (is_other_slug endpoint_id slug) rows ≡ none
      → In q rows
      → has_id endpoint_id q ≡ false
      → q.slug ≢ slug
  other_slug rows endpoint_id slug q absent i other e =
      let miss = All-In _ _ (find-none _ rows absent) i in
      ground (arith, miss, text_beq_iff q.slug slug)

  module _ (smtp_nonce cap_nonce : Text) (request : Request) (now : ℕ) where
    apply_values-IsConfigured :
        (values : EndpointValues) (raw : RawForm) (smtp_kept cap_kept : Bool)
        (allowed_origins : Option Text) (r : FormEndpoint)
        → IsAccepted p.forms.platform.unicode p.forms.network p.forms.origins
            p.forms.platform.settings raw smtp_kept cap_kept values
        → IsConfigured (apply_values p smtp_nonce cap_nonce values raw allowed_origins r)
    unfolding apply_values
    apply_values-IsConfigured values raw smtp_kept cap_kept allowed_origins r h = record {
      sender_valid = h.sender_valid;
      host_normal = (raw.smtp_host, h.host_normal);
      port_in_range = h.port_in_range;
      security_valid = h.security_valid;
      payload_in_range = h.payload_in_range;
      requests_in_range = h.requests_in_range;
      window_in_range = h.window_in_range;
      cap_complete = λ on. truthy-or_empty values.cap_verify_url (h.cap_complete on).0;
    }

    pub Change-IsEndpointTable :
        (user : User) (route : EndpointPost) (db db' : Database)
        → Change p smtp_nonce cap_nonce request now user route db db'
        → IsEndpointTable db.endpoints
        → IsEndpointTable db'.endpoints
    unfolding create_audit_log replace_recipients apply_values
    Change-IsEndpointTable user route db _ unchanged h = h
    Change-IsEndpointTable user _ db _ (tests_smtp r details found) h = h
    Change-IsEndpointTable user _ db _ (tests_cap r details found) h = h
    Change-IsEndpointTable user (create_route raw) db _ (creates allowed valid free stored fit) h =
        let accepted =
          validate_endpoint_config-IsAccepted p.forms.platform.unicode p.forms.network
            p.forms.origins p.forms.platform.settings raw false false valid in
        let row : (ℕ → FormEndpoint) = λ id.
          apply_values p smtp_nonce cap_nonce (create_values p smtp_nonce cap_nonce raw).0 raw
            allowed (blank_endpoint user.id id) in
        record {
          named =
              insert-IsNamed _ _ db.endpoints row (λ n. refl)
                (λ q i.
                  new_slug db.endpoints.rows (create_values p smtp_nonce cap_nonce raw).0.slug q
                    free i)
                h.named;
          configured = All-append _ db.endpoints.rows _ h.configured (
            apply_values-IsConfigured _ raw false false allowed
                (blank_endpoint user.id db.endpoints.next_id) accepted,
            tt,
          );
        }
    Change-IsEndpointTable user (edit_route endpoint_id raw) db _
          (edits r allowed found valid free stored fit) h =
        let accepted =
          validate_endpoint_config-IsAccepted p.forms.platform.unicode p.forms.network
            p.forms.origins p.forms.platform.settings raw (truthy_option r.smtp_password)
            (truthy_option r.cap_secret_key) valid in
        record {
          named =
              rename-IsNamed _ _ (has_id r.id) _ db.endpoints
                (edit_values p smtp_nonce cap_nonce raw r).0.slug (λ q hit. refl)
                (λ a b hit hit'. ground (arith, hit, hit')) (λ q i hit. refl)
                (λ q i miss. other_slug db.endpoints.rows r.id _ q free i miss) h.named;
          configured =
              All-update_where _ (has_id r.id) _ db.endpoints.rows
                (λ q hit old. apply_values-IsConfigured _ raw _ _ allowed q accepted) h.configured;
        }
    Change-IsEndpointTable user (delete_route endpoint_id) db _ (deletes r found) h = record {
      named =
          update-IsNamed _ _ (has_id r.id) disabled db.endpoints (λ q. refl) (λ q. refl) h.named;
      configured =
          All-update_where _ (has_id r.id) disabled db.endpoints.rows
            (λ q hit old. record {
              sender_valid = old.sender_valid;
              host_normal = old.host_normal;
              port_in_range = old.port_in_range;
              security_valid = old.security_valid;
              payload_in_range = old.payload_in_range;
              requests_in_range = old.requests_in_range;
              window_in_range = old.window_in_range;
              cap_complete = old.cap_complete;
            })
            h.configured;
    }

    -- Whatever request is made, endpoints keep distinct keys and distinct slugs, also those that were
    -- deleted, and every one is configured as the checks of the form demand.
    pub post_endpoint-IsEndpointTable :
        (route : EndpointPost) (csrf_token_value : Text) (db : Database)
        → IsEndpointTable db.endpoints
        → IsEndpointTable
            (post_endpoint p smtp_nonce cap_nonce route csrf_token_value request now db).1.endpoints
    post_endpoint-IsEndpointTable route csrf_token_value db h =
        elim (post_endpoint-Change p smtp_nonce cap_nonce request now route csrf_token_value db) [
          | inl same ↦ subst (λ (d : Database). IsEndpointTable d.endpoints) (sym same) h
          | inr (user, authorised, change) ↦ Change-IsEndpointTable user route db _ change h
        ]
