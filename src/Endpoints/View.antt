-- ===== src/Endpoints/View.antt =====
-- The API's view of the endpoints, as a map from slugs, and how the administration changes it.
use billsons_forms.Strings.{Unicode, strip}
use billsons_forms.Validation.Checks.{endpoint_values, validate_endpoint_config}
use billsons_forms.Endpoints.Changes.{
  Change, creates, deletes, edits, post_endpoint-Change, tests_cap, tests_smtp, unchanged,
}
use billsons_forms.Auth.{create_audit_log}
use billsons_forms.Endpoints.Laws.{IsEndpointTable, post_endpoint-IsEndpointTable}
use billsons_forms.Http.{Request}
use billsons_forms.Base.{
  In-find, Option, Text, arith, find-holds, if◌then◌else◌, inl, inr, nat_eq, none, refl, some,
  subst, sym, text_eq, ℕ, ◌==◌, ◌≡◌, ◌⊎◌,
}
use billsons_forms.Models.{Database, FormEndpoint, User}
use billsons_forms.Validation.{RawForm}
use billsons_forms.Forms.{get_endpoint, stored}
use billsons_forms.Endpoints.Routes.{post_endpoint}
use billsons_forms.Endpoints.{
  EndpointPlatform, EndpointPost, apply_values, blank_endpoint, create_route, create_values,
  delete_route, edit_route, edit_values, is_live, replace_recipients,
}
use billsons_forms.Endpoints.Slugs.{
  created_view, disabled_view, find_live, renamed_view, slug_absent, slug_free,
}

-- What the API sees: the endpoint of each slug.
abbrev pub View : Type 0
View = Text → Option FormEndpoint

abbrev pub assign : Text → Option FormEndpoint → View → View
assign slug e v = λ s. if slug == s then e else v s

abbrev pub SameView : View → View → Type 0
SameView v w = (s : Text) → v s ≡ w s

-- The endpoint has the name, the slug and the switches that were typed into the form.
pub record IsTyped (u : Unicode) (raw : RawForm) (e : FormEndpoint) : Type 0 where
  pub name : e.name ≡ strip u raw.name
  pub slug : e.slug ≡ u.lower (strip u raw.slug)
  pub active : e.is_active ≡ raw.is_active
  pub limited : e.rate_limit_enabled ≡ raw.rate_limit_enabled
  pub cap : e.cap_enabled ≡ raw.cap_enabled

-- What each route may do to the map: nothing, or assign the typed slug where it is free, move an
-- endpoint from its slug to the typed one where that is free or its own, or clear the slug of an
-- endpoint.
pub data Refined (u : Unicode) : EndpointPost → View → View → Type 0 where
  keeps : {route : EndpointPost} {v w : View} → SameView w v → Refined u route v w
  publishes :
      {raw : RawForm} {v w : View} (e : FormEndpoint)
      → IsTyped u raw e
      → v e.slug ≡ none
      → SameView w (assign e.slug (some e) v)
      → Refined u (create_route raw) v w
  replaces :
      {endpoint_id : ℕ} {raw : RawForm} {v w : View} (r e : FormEndpoint)
      → r.id ≡ endpoint_id
      → e.id ≡ endpoint_id
      → IsTyped u raw e
      → (v e.slug ≡ none) ⊎ (e.slug ≡ r.slug)
      → v r.slug ≡ some r
      → SameView w (assign e.slug (some e) (assign r.slug none v))
      → Refined u (edit_route endpoint_id raw) v w
  withdraws :
      {endpoint_id : ℕ} {v w : View} (r : FormEndpoint)
      → r.id ≡ endpoint_id
      → v r.slug ≡ some r
      → SameView w (assign r.slug none v)
      → Refined u (delete_route endpoint_id) v w

module _ (p : EndpointPlatform) (smtp_nonce cap_nonce : Text) (request : Request) (now : ℕ) where
  Change-Refined :
      (user : User) (route : EndpointPost) (db db' : Database)
      → Change p smtp_nonce cap_nonce request now user route db db'
      → IsEndpointTable p db.endpoints
      → IsEndpointTable p db'.endpoints
      → Refined p.forms.platform.unicode route (get_endpoint db) (get_endpoint db')
  unfolding create_audit_log replace_recipients get_endpoint apply_values validate_endpoint_config
      endpoint_values
  Change-Refined user route db _ unchanged h h' = keeps (λ s. refl)
  Change-Refined user _ db _ (tests_smtp r details found) h h' = keeps (λ s. refl)
  Change-Refined user _ db _ (tests_cap r details found) h h' = keeps (λ s. refl)
  Change-Refined user (create_route raw) db _ (creates allowed valid free stored fit) h h' =
      let e =
        apply_values p smtp_nonce cap_nonce (create_values p smtp_nonce cap_nonce raw).0 raw allowed
          (blank_endpoint user.id db.endpoints.next_id) in
      publishes e (record { name = refl; slug = refl; active = refl; limited = refl; cap = refl })
        (slug_absent db.endpoints.rows e.slug free)
        (λ s. created_view db.endpoints.rows e s free refl)
  Change-Refined user (edit_route endpoint_id raw) db _
        (edits r allowed found valid free stored fit) h h' =
      let f =
        apply_values p smtp_nonce cap_nonce (edit_values p smtp_nonce cap_nonce raw r).0 raw
          allowed in
      let i = In-find (is_live endpoint_id) db.endpoints.rows found in
      let live = find-holds (is_live endpoint_id) db.endpoints.rows r found in
      replaces r (f r) (ground (arith, live)) (ground (arith, live))
        (record { name = refl; slug = refl; active = refl; limited = refl; cap = refl })
        (slug_free db.endpoints h.named r (f r).slug i free)
        (find_live db.endpoints h.named r i (ground (arith, live)))
        (λ s.
          renamed_view db.endpoints f r s (edit_values p smtp_nonce cap_nonce raw r).0.slug h.named
            i (λ x. refl) (ground (arith, live)) h'.named)
  Change-Refined user (delete_route endpoint_id) db _ (deletes r found) h h' =
      let i = In-find (is_live endpoint_id) db.endpoints.rows found in
      let live = find-holds (is_live endpoint_id) db.endpoints.rows r found in
      withdraws r (ground (arith, live)) (find_live db.endpoints h.named r i (ground (arith, live)))
        (λ s. disabled_view db.endpoints h.named r s i)

  -- Where the table of endpoints is well-formed, it behaves as a map from slugs: whatever request is made,
  -- the API's view either stays as it is, or the slug that was typed was free and gets the new endpoint,
  -- or an endpoint moves to the typed slug, which was free or its own, or the slug of a deleted endpoint
  -- stands for nothing. The new or moved endpoint has the name and the switches of the form, and all
  -- other slugs stand for what they did.
  pub post_endpoint-Refined :
      (route : EndpointPost) (csrf_token_value : Text) (db : Database)
      → IsEndpointTable p db.endpoints
      → Refined p.forms.platform.unicode route (get_endpoint db) (
          get_endpoint
            (post_endpoint p smtp_nonce cap_nonce route csrf_token_value request now db).1)
  post_endpoint-Refined route csrf_token_value db h =
      elim (post_endpoint-Change p smtp_nonce cap_nonce request now route csrf_token_value db) [
        | inl same ↦
            subst (λ d. Refined p.forms.platform.unicode route (get_endpoint db) (get_endpoint d))
              (sym same) (keeps (λ s. refl))
        | inr (user, authorised, change) ↦ Change-Refined user route db _ change h (
            post_endpoint-IsEndpointTable p smtp_nonce cap_nonce request now route csrf_token_value
              db h)
      ]
