-- ===== src/Patterns.antt =====
-- internal/greyproxy/patterns.go: how a rule's container, destination and port patterns match a
-- connection, and how specific a rule is.
pub mod Container
pub mod Domain
pub mod Port
pub mod Specificity
use greyproxy.Prelude.{
  ℕ, ◌+◌, Bool, true, false, not, ◌&&◌, ◌||◌, Option, none, some, List, [], ◌∷◌, ◌++◌, ◌==◌,
  list_eq, if◌then◌else◌, ℤ, leb_ℤ, eqb_ℤ, drop, any,
}
use greyproxy.Go.Strings.{
  Str, codes, has_prefix, has_suffix, to_lower, trim_space, contains_any, has_char, split, cut_char,
}
use greyproxy.Go.Strconv.{NumError, atoi}
use greyproxy.Go.Filepath
use greyproxy.Go.Net.{Ip, Cidr, parse_ip, parse_cidr, cidr_contains}

abbrev pub wildcard : Str
wildcard = b'*' ∷ []

-- MatchesContainer
unfoldable pub matches_container : Str → Str → Bool
matches_container name pattern = if pattern == wildcard then true else Filepath.match pattern name

in_cidr : Option Cidr → Option Ip → Bool
in_cidr (some cidr) (some ip) = cidr_contains cidr ip
in_cidr _ _ = false

-- The branches of MatchesDestination behind the conversion to lower case.
unfoldable pub matches_lowered : Str → Str → Bool
unfolding in_cidr
matches_lowered destination pattern =
    if has_char b'/' pattern
    then in_cidr (parse_cidr pattern) (parse_ip destination)
    else if has_prefix pattern (codes "**.")
    then (let base = drop 3 pattern in destination == base || has_suffix destination (b'.' ∷ base))
    else if has_prefix pattern (codes "*.")
    then has_suffix destination (b'.' ∷ drop 2 pattern)
    else destination == pattern

-- MatchesDestination
unfoldable pub matches_destination : Str → Str → Bool
matches_destination destination pattern =
    if pattern == wildcard then true else matches_lowered (to_lower destination) (to_lower pattern)

between : ℤ × Option NumError → ℤ × Option NumError → ℤ → Bool
between (low, none) (high, none) port = leb_ℤ low port && leb_ℤ port high
between _ _ port = false

equals : ℤ × Option NumError → ℤ → Bool
equals (p, none) port = eqb_ℤ port p
equals (p, some e) port = false

on_dash : ℤ → Str → Option (Str × Str) → Bool
unfolding between equals
on_dash port pattern (some (low, high)) =
    between (atoi (trim_space low)) (atoi (trim_space high)) port
on_dash port pattern none = equals (atoi (trim_space pattern)) port

-- matchSinglePort; `strings.SplitN(pattern, "-", 2)` gives two parts where the pattern has a dash.
unfoldable pub match_single_port : ℤ → Str → Bool
unfolding on_dash
match_single_port port pattern = on_dash port pattern (cut_char b'-' pattern)

-- MatchesPort
unfoldable pub matches_port : ℤ → Str → Bool
matches_port port pattern =
    if pattern == wildcard
    then true
    else if has_char b',' pattern
    then any (λ part. match_single_port port (trim_space part)) (split b',' pattern)
    else match_single_port port pattern

-- MatchesRule
unfoldable pub matches_rule : Str → Str → ℤ → Str → Str → Str → Bool
matches_rule container host port container_pattern destination_pattern port_pattern =
    matches_container container container_pattern
    && matches_destination host destination_pattern
    && matches_port port port_pattern

-- The score of a pattern: `unit` if it is not `*`, and as much again if it has no wildcard.
unfoldable pub pattern_score : ℕ → Str → ℕ
pattern_score unit pattern =
    if pattern == wildcard
    then 0
    else if contains_any pattern (codes "*?[")
    then unit
    else unit + unit

-- CalculateSpecificity
unfoldable pub calculate_specificity : Str → Str → Str → ℕ
unfolding pattern_score
calculate_specificity container destination port =
    pattern_score 100 container + pattern_score 10 destination + (if port == wildcard then 0 else 1)
