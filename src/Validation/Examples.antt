-- ===== src/Validation/Examples.antt =====
-- A form that is filled in well, and one with a bad slug and no recipient.
use billsons_forms.Base.{
  [], contains, false, lit, map, nat_eq, refl, select, text_beq, text_eq, ◌∷◌, ◌≡◌,
}
use billsons_forms.Strings.{
  contains_text, count_char, ends_with, split_char, split_last, splitlines, starts_with, strip,
}
use billsons_forms.Integers.{int_digits, parse_int}
use billsons_forms.Network.{
  contains_unsafe_text, dns_host, is_dns_label, is_email, normalize_hostname,
}
use billsons_forms.Origins.{normalize_all, origins_from_text}
use billsons_forms.Platform.Samples.{
  sample_network, sample_origins, sample_settings, sample_unicode,
}
use billsons_forms.Validation.Samples.{sample_form}
use billsons_forms.Validation.Checks.{
  cap_errors, endpoint_values, first_errors, last_errors, validate_endpoint_config,
}
use billsons_forms.Validation.{dedupe, is_slug, set_error, validate_http_url}
use billsons_forms.Validation.Accepted.{IsAccepted, validate_endpoint_config-IsAccepted}

no_errors_run :
    (validate_endpoint_config sample_unicode sample_network sample_origins sample_settings
      sample_form false false).1
    ≡ []
unfolding validate_endpoint_config last_errors parse_int strip lit count_char int_digits
    origins_from_text normalize_all select splitlines validate_http_url cap_errors first_errors
    contains text_beq normalize_hostname contains_unsafe_text dns_host is_dns_label is_email
    contains_text ends_with split_char split_last starts_with dedupe endpoint_values is_slug
    set_error
no_errors_run = refl

validate_endpoint_config-IsAccepted_example :
    IsAccepted sample_unicode sample_network sample_origins sample_settings sample_form false false
      (validate_endpoint_config sample_unicode sample_network sample_origins sample_settings
        sample_form false false).0
validate_endpoint_config-IsAccepted_example =
    validate_endpoint_config-IsAccepted sample_unicode sample_network sample_origins sample_settings
      sample_form false false no_errors_run

bad_form_runs :
    map
      (λ (field, message). field)
      (validate_endpoint_config sample_unicode sample_network sample_origins sample_settings
        (record sample_form { slug = lit "a b"; recipients = [] })
        false
        false).1
    ≡ lit "slug" ∷ lit "recipients" ∷ []
unfolding validate_endpoint_config last_errors parse_int strip lit count_char int_digits
    origins_from_text normalize_all select splitlines validate_http_url cap_errors first_errors
    contains text_beq normalize_hostname contains_unsafe_text dns_host is_dns_label is_email
    contains_text ends_with split_char split_last starts_with dedupe endpoint_values is_slug
    set_error
bad_form_runs = refl
