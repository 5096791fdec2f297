-- ===== src/Tests/Go.antt =====
-- Runs of the library functions on known inputs.
use greyproxy.Prelude.{◌≡◌, refl, true, false, some, none, pos}
use greyproxy.Go.Strings.{codes, has_prefix}
use greyproxy.Go.Filepath.{match}
use greyproxy.Go.Net.{parse_ip, v4, v6}
use greyproxy.Go.Strconv.{atoi}

match_star : match (codes "app-*") (codes "app-12") ≡ true
unfolding match
match_star = refl

star_stops_at_slash : match (codes "*[^x]*b") (codes "a/b") ≡ false
unfolding match
star_stops_at_slash = refl

match_class : match (codes "a[b-d]?z") (codes "accz") ≡ true
unfolding match
match_class = refl

bad_pattern : match (codes "a[") (codes "a[") ≡ false
unfolding match
bad_pattern = refl

star_backs_off : match (codes "*.x") (codes "a.x.y.x") ≡ true
unfolding match
star_backs_off = refl

dotted_quad : parse_ip (codes "10.0.1.255") ≡ some (v4 167772671)
unfolding parse_ip has_prefix
dotted_quad = refl

mapped_address : parse_ip (codes "::ffff:1.2.3.4") ≡ some (v6 281470698652420)
unfolding parse_ip has_prefix
mapped_address = refl

two_ellipses : parse_ip (codes "1::2::3") ≡ none
unfolding parse_ip has_prefix
two_ellipses = refl

ellipsis_for_nothing : parse_ip (codes "1:2:3:4:5:6:7::8") ≡ none
unfolding parse_ip has_prefix
ellipsis_for_nothing = refl

signed_number : atoi (codes "+080") ≡ (pos 80, none)
unfolding atoi
signed_number = refl
