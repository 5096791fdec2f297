-- ===== src/Store/Approval/Plain.antt =====
-- The patterns that a decision builds from a plain pending request.
use greyproxy.Prelude.{
  ℕ, ◌<◌, ◌^◌, String, ◌≡◌, ◌≢◌, refl, ◌∙◌, true, false, [], ◌∷◌, arith, list_eqb, list_eqb_iff,
  ==_ne, ℤ, pos, any,
}
use greyproxy.Go.Strings.{Str, has_char, has_prefix, join}
use greyproxy.Go.Strconv.{itoa}
use greyproxy.Go.Filepath.Literal.{is_meta}
use greyproxy.Patterns.{wildcard, matches_rule, matches_container, matches_port}
use greyproxy.Patterns.Container.{matches_container-plain}
use greyproxy.Patterns.Domain.{exact_self}
use greyproxy.Patterns.Port.{port, matches_port-entries}
use greyproxy.Store.{Rule, PendingRequest}
use greyproxy.Store.Rules.{same_key, or_any_port}
use greyproxy.Store.Pending.{display_host}
use greyproxy.Store.Approval.{build_patterns, port_text}

-- The names of the request read as patterns spell themselves, and its port is in the range of Go's
-- int.
pub record IsPlain (p : PendingRequest) : Type 0 where
  pub container : any is_meta p.container_name ≡ false
  pub no_slash : has_char b'/' (display_host p) ≡ false
  pub no_star : has_prefix (display_host p) wildcard ≡ false
  pub number : ℕ
  pub port_is : p.destination_port ≡ pos number
  pub in_range : number < 2 ^ 63

any_matches : (s : Str) → matches_container s wildcard ≡ true
unfolding matches_container list_eqb
any_matches s = refl

any_port_matches : (n : ℤ) → matches_port n wildcard ≡ true
unfolding matches_port list_eqb
any_port_matches n = refl

own_port : (n : ℕ) → n < 2 ^ 63 → matches_port (pos n) (itoa n) ≡ true
unfolding any join
own_port n lt = matches_port-entries n (port n) [] (lt, tt) ∙ ground arith

-- The patterns of every scope but the wildcard for subdomains match the request's own connection.
pub build_patterns-matches :
    (p : PendingRequest) (scope : String)
    → IsPlain p
    → scope ≢ "subdomain_wildcard"
    → matches_rule p.container_name
        (display_host p)
        p.destination_port
        (build_patterns p scope).container
        (build_patterns p scope).destination
        (build_patterns p scope).port
      ≡ true
unfolding build_patterns matches_rule port_text
build_patterns-matches p scope plain other =
    rw (plain.port_is, ==_ne scope "subdomain_wildcard" other)
      (ground (
        arith,
        (matches_container-plain p.container_name p.container_name plain.container).1 refl,
        exact_self (display_host p) plain.no_slash plain.no_star,
        own_port plain.number plain.in_range,
        any_matches p.container_name,
        any_port_matches (pos plain.number),
      ))

pub key-matches :
    (c h : Str) (n : ℤ) (cp dp pp : Str) (action : String) (r : Rule)
    → same_key cp dp pp action r ≡ true
    → matches_rule c h n r.container_pattern r.destination_pattern r.port_pattern
      ≡ matches_rule c h n cp dp pp
unfolding same_key
key-matches c h n cp dp pp action r k = rw (
  (list_eqb_iff r.container_pattern cp).0 (ground arith),
  (list_eqb_iff r.destination_pattern dp).0 (ground arith),
  (list_eqb_iff r.port_pattern pp).0 (ground arith),
)

pub or_any_port-matches :
    (c h : Str) (n : ℤ) (cp dp pp : Str)
    → matches_rule c h n cp dp pp ≡ true
    → matches_rule c h n cp dp (or_any_port pp) ≡ true
unfolding matches_rule
or_any_port-matches c h n cp dp [] m = ground (arith, any_port_matches n)
or_any_port-matches c h n cp dp (x ∷ pp) m = m
