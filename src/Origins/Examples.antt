-- ===== src/Origins/Examples.antt =====
-- Two spellings of one origin, and a response to it.
use billsons_forms.Base.{
  [], contains, lit, nat_eq, refl, some, text_beq, text_eq, true, ◌↔◌, ◌∷◌, ◌≡◌,
}
use billsons_forms.Strings.{contains_text, ends_with, split_char, starts_with, strip}
use billsons_forms.Network.{
  contains_unsafe_text, dns_host, host_for_url, is_dns_label, normalize_hostname, ok,
}
use billsons_forms.Platform.Samples.{sample_network, sample_origins, sample_unicode}
use billsons_forms.Origins.{
  apply_cors, normalize_all, normalize_origin, normalize_origins, origin_is_allowed, origin_of_url,
}
use billsons_forms.Origins.Laws.{apply_cors-origin_is_allowed}

normal_runs :
    normalize_origins sample_unicode sample_network sample_origins
      (lit "http://b.c:80" ∷ lit "http://b.c" ∷ [])
    ≡ ok (lit "http://b.c" ∷ [])
unfolding lit text_beq strip starts_with ends_with contains_text contains split_char
    normalize_hostname host_for_url contains_unsafe_text dns_host is_dns_label normalize_all
    normalize_origin origin_of_url
normal_runs = refl

apply_cors-origin_is_allowed_example :
    (apply_cors sample_unicode sample_network sample_origins (some (lit "http://b.c:80")) []
      ≡ some (lit "http://b.c"))
    ↔ ((normalize_origin sample_unicode sample_network sample_origins (lit "http://b.c:80")
          ≡ ok (lit "http://b.c"))
        × (origin_is_allowed sample_unicode sample_network sample_origins
              (some (lit "http://b.c:80"))
              []
            ≡ true))
apply_cors-origin_is_allowed_example =
    apply_cors-origin_is_allowed sample_unicode sample_network sample_origins (lit "http://b.c:80")
      (lit "http://b.c") []
