-- ===== src/Tests/Matching.antt =====
-- The theorems on FindMatchingRule at a concrete input.
use greyproxy.Go.Strconv.{atoi}
use greyproxy.Go.Filepath.{match}
use greyproxy.Patterns.{
  calculate_specificity, match_single_port, matches_port, matches_destination, matches_container,
  matches_rule,
}
use greyproxy.Prelude.{list_eqb, ◌≡◌, refl, [], some, pos, inl, inr}
use greyproxy.Go.Strings.{contains_any, trim_space, cut_char, codes}
use greyproxy.Store.Matching.{find_matching_rule}
use greyproxy.Store.Matching.Choice.{
  AllActions, IsOutcome, find_matching_rule-IsBest, find_matching_rule-IsOutcome,
  find_matching_rule-decides,
}
use greyproxy.Tests.Samples.{two_rules, allow_app}

two_rules-AllActions : AllActions two_rules
two_rules-AllActions = (inl refl, (inr refl, tt))

-- The narrower rule is found before the deny rule.
found :
    find_matching_rule 100 (codes "app-1") (codes "example.com") (pos 443) [] two_rules
    ≡ some allow_app
unfolding find_matching_rule matches_rule matches_container list_eqb match matches_destination
    matches_port match_single_port cut_char atoi trim_space calculate_specificity contains_any
found = refl

find_matching_rule-decides_example : allow_app.action ≡ allow_app.action
find_matching_rule-decides_example =
    find_matching_rule-decides 100 (codes "app-1") (codes "example.com") (pos 443) [] two_rules
      two_rules-AllActions found
      (find_matching_rule-IsBest 100 (codes "app-1") (codes "example.com") (pos 443) [] two_rules
        two_rules-AllActions found)

find_matching_rule-IsOutcome_example :
    IsOutcome 100
      (codes "app-1")
      (codes "example.com")
      (pos 443)
      []
      two_rules
      (find_matching_rule 100 (codes "app-1") (codes "example.com") (pos 443) [] two_rules)
find_matching_rule-IsOutcome_example =
    find_matching_rule-IsOutcome 100 (codes "app-1") (codes "example.com") (pos 443) [] two_rules
      two_rules-AllActions
