-- ===== src/Cap/Examples.antt =====
-- A service that confirms its token, and one whose URL does not end in siteverify.
use billsons_forms.Network.{
  contains_unsafe_text, dns_host, host_for_url, is_dns_label, normalize_hostname,
}
use billsons_forms.Origins.{OriginLibrary}
use billsons_forms.Base.{
  Text, [], contains, if◌then◌else◌, lit, nat_eq, none, refl, some, text_beq, text_eq, true, ◌↔◌,
  ◌≡◌,
}
use billsons_forms.Strings.{
  contains_text, ends_with, rstrip_char, split_char, split_last, starts_with, strip, truthy,
}
use billsons_forms.Platform.Samples.{sample_network, sample_origins, sample_unicode}
use billsons_forms.Validation.{check_url, validate_http_url}
use billsons_forms.Cap.{
  CapPost, boolean, read_token_reply, response, success, url_errors, verify_cap_token,
}
use billsons_forms.Cap.Laws.{IsConfirmation, IsVerified, verify_cap_token-IsConfirmation}

abbrev service_url : Text
service_url = lit "http://b.c/siteverify"

-- The parts of the URL of the service.
abbrev library : OriginLibrary
library = record sample_origins {
  urlsplit = λ t. some (record {
    scheme = lit "http";
    hostname = some (lit "b.c");
    username = none;
    password = none;
    port = none;
    netloc = lit "b.c";
    path = if text_beq t service_url then lit "/siteverify" else [];
    query = [];
    fragment = [];
  });
}

abbrev confirming : CapPost
confirming = λ url secret token. response 200 (boolean true)

verify_cap_token-IsConfirmation_example :
    IsVerified (
      verify_cap_token sample_unicode sample_network library confirming service_url
        (lit "s")
        (lit "t"))
    ↔ ((url_errors sample_unicode sample_network library confirming service_url ≡ [])
        × (truthy (lit "s") ≡ true)
        × (truthy (lit "t") ≡ true)
        × IsConfirmation (confirming service_url (lit "s") (lit "t")))
verify_cap_token-IsConfirmation_example =
    verify_cap_token-IsConfirmation sample_unicode sample_network library confirming service_url
      (lit "s") (lit "t")

url_runs : url_errors sample_unicode sample_network library confirming service_url ≡ []
unfolding validate_http_url strip lit text_beq contains_unsafe_text check_url host_for_url
    normalize_hostname starts_with ends_with contains_text contains dns_host split_char is_dns_label
    rstrip_char split_last
url_runs = refl

confirmed_runs :
    verify_cap_token sample_unicode sample_network library confirming service_url
      (lit "s")
      (lit "t")
    ≡ some (record { status = success; diagnostic = lit "CAP token accepted." })
unfolding verify_cap_token validate_http_url strip lit read_token_reply text_beq
    contains_unsafe_text check_url host_for_url normalize_hostname starts_with ends_with
    contains_text contains dns_host split_char is_dns_label rstrip_char split_last
confirmed_runs = refl
