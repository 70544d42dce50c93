-- ===== src/StorageLimits/Tests.antt =====
-- Twelve and a half GiB.
use odograph.Prelude.{◌≡◌, refl, none, some}
use odograph.StorageLimits.{
  read_gib, parse_custom_gib, limit_gib, bytes_of, is_digit, digit, read_fraction, read_whole,
}
use odograph.StorageLimits.Sizes.{limit_gib-parse_custom_gib}

parse_test : parse_custom_gib "12.5" ≡ some 13421772800
unfolding parse_custom_gib read_gib read_whole read_fraction is_digit digit bytes_of
parse_test = refl

refused_test : parse_custom_gib "0.00" ≡ none
unfolding parse_custom_gib read_gib read_whole read_fraction is_digit digit bytes_of
refused_test = refl

limit_gib-parse_custom_gib_example : read_gib "12.5" ≡ some (limit_gib 13421772800)
limit_gib-parse_custom_gib_example = limit_gib-parse_custom_gib "12.5" 13421772800 parse_test
