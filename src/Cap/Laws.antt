-- ===== src/Cap/Laws.antt =====
-- When a token counts as verified.
use billsons_forms.Origins.{OriginLibrary}
use billsons_forms.Network.{NetworkLibrary}
use billsons_forms.Base.{
  Bool-cases, Option, Text, [], arith, false, inl, inr, is_empty, none, refl, some, true, ◌<◌, ◌↔◌,
  ◌≡◌,
}
use billsons_forms.Strings.{Unicode, truthy}
use billsons_forms.Cap.{
  CapPost, CapReply, CapResult, boolean, network_error, no_boolean, not_json, other_exception,
  read_token_reply, response, url_errors, verified, verify_cap_token,
}

-- The service said so: it answered without an error status, and with a true `success`.
pub IsConfirmation : CapReply → Type 0
IsConfirmation (network_error name) = ⊥
IsConfirmation other_exception = ⊥
IsConfirmation (response status_code not_json) = ⊥
IsConfirmation (response status_code no_boolean) = ⊥
IsConfirmation (response status_code (boolean b)) = (status_code < 400) × (b ≡ true)

abbrev pub IsVerified : Option CapResult → Type 0
IsVerified none = ⊥
IsVerified (some result) = verified result ≡ true

confirmed : (reply : CapReply) → IsVerified (read_token_reply reply) ↔ IsConfirmation reply
unfolding read_token_reply IsConfirmation
confirmed (network_error name) = (λ h. ground (arith, h), λ h. elim h [ ])
confirmed other_exception = (λ h. elim h [ ], λ h. elim h [ ])
confirmed (response status_code not_json) = (λ h. ground (arith, h), λ h. elim h [ ])
confirmed (response status_code no_boolean) = (λ h. ground (arith, h), λ h. elim h [ ])
confirmed (response status_code (boolean true)) =
    (λ h. (ground (arith, h), refl), λ h. ground (arith, h))
confirmed (response status_code (boolean false)) = (λ h. ground (arith, h), λ h. ground (arith, h))

module _ (u : Unicode) (net : NetworkLibrary) (lib : OriginLibrary) (post : CapPost) where
  -- A token is verified exactly where the URL passes its checks, as an empty one does too, a secret and
  -- a token are there, and the service, asked with both, confirms the token.
  pub verify_cap_token-IsConfirmation :
      (verify_url secret_key token : Text)
      → IsVerified (verify_cap_token u net lib post verify_url secret_key token) ↔ (
          (url_errors u net lib post verify_url ≡ [])
          × (truthy secret_key ≡ true)
          × (truthy token ≡ true)
          × IsConfirmation (post verify_url secret_key token))
  unfolding verify_cap_token
  verify_cap_token-IsConfirmation verify_url secret_key token =
      let reply = confirmed (post verify_url secret_key token) in
      elim (Bool-cases (is_empty (url_errors u net lib post verify_url))) [
        | inl valid ↦ elim (Bool-cases (truthy secret_key)) [
          | inl secret ↦ elim (Bool-cases (truthy token)) [
            | inl sent ↦ (
              λ h. (ground (arith, valid), secret, sent, reply.0 (ground (arith, h))),
              λ h. ground (arith, h, reply.1 h.3),
            )
            | inr missing ↦ (λ h. ground (arith, h), λ h. ground (arith, h.2))
          ]
          | inr absent ↦ (λ h. ground (arith, h), λ h. ground (arith, h.1))
        ]
        | inr invalid ↦ (λ h. ground (arith, h), λ h. ground (arith, h.0))
      ]
