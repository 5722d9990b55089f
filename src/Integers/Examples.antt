-- ===== src/Integers/Examples.antt =====
-- A number that is printed and read, and texts that `int` takes or refuses.
use billsons_forms.Base.{lit, refl, ◌≡◌}
use billsons_forms.Strings.{count_char, decimal, decimal_from, digit_of, strip}
use billsons_forms.Platform.Samples.{sample_unicode}
use billsons_forms.Integers.{int_digits, natural, parse_int, value_error}

parse_int_runs : parse_int sample_unicode (decimal 1024) ≡ natural 1024
unfolding parse_int int_digits decimal decimal_from digit_of strip lit count_char
parse_int_runs = refl

underscore_runs : parse_int sample_unicode (lit " 1_0 ") ≡ natural 10
unfolding parse_int int_digits strip lit count_char
underscore_runs = refl

bad_runs : parse_int sample_unicode (lit "1__0") ≡ value_error
unfolding parse_int int_digits strip lit count_char
bad_runs = refl
