-- ===== src/Endpoints/Examples.antt =====
-- A user creates a second form beside the sample one, deletes the first, and replaces its recipients.
use billsons_forms.Forms.Stages.{not_found, submit_form}
use billsons_forms.Origins.{normalize_all, origins_from_text, origins_to_storage}
use billsons_forms.Integers.{int_digits, parse_int}
use billsons_forms.Base.{
  In, [], ap, arith, contains, find, here, lit, nat_eq, refl, select, some, subst, sym, text_beq,
  text_eq, there, ◌∙◌, ◌∷◌, ◌≡◌, ◌⊎◌,
}
use billsons_forms.Models.{FormEndpoint, User}
use billsons_forms.Strings.{
  contains_text, count_char, decimal, decimal_from, digit_of, ends_with, split_char, split_last,
  splitlines, starts_with, strip,
}
use billsons_forms.Http.{Request, redirect}
use billsons_forms.Network.{
  contains_unsafe_text, dns_host, is_dns_label, is_email, normalize_hostname,
}
use billsons_forms.Sessions.{get_user_from_session_token}
use billsons_forms.Auth.{get_current_user, require_csrf, require_user}
use billsons_forms.Validation.Checks.{
  cap_errors, endpoint_values, first_errors, last_errors, validate_endpoint_config,
}
use billsons_forms.Validation.{RawForm, dedupe, is_slug, set_error, validate_http_url}
use billsons_forms.Validation.Samples.{sample_form}
use billsons_forms.Email.{sent}
use billsons_forms.Endpoints.Recipients.{IsRecipientList, IsService, post_endpoint-IsService}
use billsons_forms.Forms.{get_endpoint}
use billsons_forms.Forms.Samples.{chunks, contact, contact_site, post, sample_forms}
use billsons_forms.Platform.Samples.{request_with, root_user, sample_unicode}
use billsons_forms.Endpoints.Routes.{create_endpoint, post_endpoint, run_route}
use billsons_forms.Endpoints.{EndpointPlatform, create_route, delete_route, fits_endpoint}
use billsons_forms.Endpoints.Changes.{Change, IsUserRequest, post_endpoint-Change}
use billsons_forms.Endpoints.Laws.{IsEndpointTable}
use billsons_forms.Endpoints.View.{Refined, post_endpoint-Refined}
use billsons_forms.Endpoints.Service.{emails_of, submit_form-deleted}

abbrev sample_endpoints : EndpointPlatform
sample_endpoints = record {
  forms = sample_forms;
  smtp = record { session = λ m. sent; show = λ t. t };
  quote_plus = λ t. t;
}

abbrev user_request : Request
user_request = request_with (some (lit "r")) (some (lit "s"))

abbrev orders_form : RawForm
orders_form = record sample_form { slug = lit "orders" }

contact-IsEndpointTable : IsEndpointTable sample_endpoints contact_site.endpoints
unfolding is_email text_beq lit contains split_last normalize_hostname strip contains_unsafe_text
    starts_with ends_with contains_text dns_host split_char is_dns_label
contact-IsEndpointTable = record {
  named = record {
    table = record { keyed = (tt, tt); below = (omega arith, tt) };
    unique = λ r q i j same. only r q i j;
  };
  configured = (
    record {
      sender_valid = refl;
      host_normal = (lit "b.c", refl);
      port_in_range = (omega arith, omega arith);
      security_valid = refl;
      payload_in_range = (omega arith, omega arith);
      requests_in_range = (omega arith, omega arith);
      window_in_range = (omega arith, omega arith);
      cap_complete = λ on. absurd (ground (arith, on));
    },
    tt,
  );
}
  where
    only : (r q : FormEndpoint) → In r (contact ∷ []) → In q (contact ∷ []) → r.id ≡ q.id
    only r q (here e) (here f) = ap (λ (x : FormEndpoint). x.id) (sym e ∙ f)
    only r q (there i) j = elim i [ ]
    only r q (here e) (there j) = elim j [ ]

post_endpoint-Change_example :
    ((post_endpoint sample_endpoints [] []
        (create_route orders_form)
        (lit "s")
        user_request
        5
        contact_site).1
      ≡ contact_site)
    ⊎ ((user : User) × IsUserRequest sample_endpoints [] [] user_request 5
          (lit "s")
          contact_site
          user
        × Change sample_endpoints [] [] user_request 5 user
            (create_route orders_form)
            contact_site
            (post_endpoint sample_endpoints [] []
              (create_route orders_form)
              (lit "s")
              user_request
              5
              contact_site).1)
post_endpoint-Change_example =
    post_endpoint-Change sample_endpoints [] [] user_request 5 (create_route orders_form) (lit "s")
      contact_site

post_endpoint-Refined_example :
    Refined sample_unicode (create_route orders_form) (get_endpoint contact_site) (
      get_endpoint
        (post_endpoint sample_endpoints [] []
          (create_route orders_form)
          (lit "s")
          user_request
          5
          contact_site).1)
post_endpoint-Refined_example =
    post_endpoint-Refined sample_endpoints [] [] user_request 5 (create_route orders_form) (lit "s")
      contact_site contact-IsEndpointTable

created_runs :
    (post_endpoint sample_endpoints [] []
      (create_route orders_form)
      (lit "s")
      user_request
      5
      contact_site).0
    ≡ redirect (lit "/endpoints/2")
unfolding lit post_endpoint require_csrf text_beq require_user get_current_user
    get_user_from_session_token find run_route create_endpoint validate_endpoint_config
    endpoint_values strip last_errors parse_int count_char int_digits origins_from_text
    normalize_all contains select contains_unsafe_text dns_host is_dns_label is_email
    normalize_hostname origins_to_storage contains_text decimal decimal_from digit_of ends_with
    split_char split_last splitlines starts_with cap_errors dedupe first_errors is_slug set_error
    validate_http_url fits_endpoint
created_runs = refl

contact-IsService : IsService sample_endpoints contact_site
unfolding is_email text_beq lit contains split_last normalize_hostname strip contains_unsafe_text
    starts_with ends_with contains_text dns_host split_char is_dns_label select
contact-IsService = record {
  table = contact-IsEndpointTable;
  recipients = λ q i. served q i;
  subjects = (refl, tt);
}
  where
    served :
        (q : FormEndpoint)
        → In q (contact ∷ [])
        → IsRecipientList sample_endpoints (emails_of q.id contact_site.recipients.rows)
    served q (there j) = elim j [ ]
    served q (here e) =
        subst
          (λ (x : FormEndpoint).
            IsRecipientList sample_endpoints (emails_of x.id contact_site.recipients.rows))
          e
          (record {
            filled = λ none_left. cc;
            distinct = (tt, tt);
            valid = ((lit "a@b.c", refl, refl), tt);
          })

post_endpoint-IsService_example :
    IsService sample_endpoints
      (post_endpoint sample_endpoints [] []
        (create_route orders_form)
        (lit "s")
        user_request
        5
        contact_site).1
post_endpoint-IsService_example =
    post_endpoint-IsService sample_endpoints [] [] user_request 5 (create_route orders_form)
      (lit "s") contact_site contact-IsService

authorised : IsUserRequest sample_endpoints [] [] user_request 5 (lit "s") contact_site root_user
unfolding text_beq lit find require_csrf get_current_user get_user_from_session_token
authorised = record { csrf_ok = refl; logged_in = refl }

submit_form-deleted_example :
    let db' =
      (post_endpoint sample_endpoints [] []
        (delete_route 1)
        (lit "s")
        user_request
        5
        contact_site).1 in
    submit_form sample_forms db' (lit "c") post 9 9 [] chunks ≡ (some (not_found sample_forms), db')
unfolding find
submit_form-deleted_example =
    submit_form-deleted sample_endpoints [] [] user_request 5 1 (lit "s") contact_site root_user
      contact post 9 9 [] chunks contact-IsEndpointTable authorised refl
