-- ===== src/Tests/Patterns.antt =====
-- The theorems on patterns at concrete inputs.
use greyproxy.Prelude.{◌≡◌, ◌↔◌, ◌⊎◌, ◌<◌, refl, true, [], ◌∷◌, ◌++◌, arith, any, pos, map}
use greyproxy.Go.Strings.{codes, has_char, to_lower, join}
use greyproxy.Patterns.{matches_destination, matches_port, calculate_specificity}
use greyproxy.Patterns.Domain.{Below, wildcards_iff}
use greyproxy.Patterns.Port.{port, span, covers, print_entry, matches_port-entries}
use greyproxy.Patterns.Specificity.{LooserThan, specificity_iff}

matches_port-entries_example :
    matches_port (pos 8085) (join b',' (map print_entry (port 443 ∷ span 8080 8090 ∷ [])))
    ≡ any (covers 8085) (port 443 ∷ span 8080 8090 ∷ [])
matches_port-entries_example =
    matches_port-entries 8085 (port 443) (span 8080 8090 ∷ [])
      (omega arith, ((omega arith, omega arith), tt))

specificity_iff_example :
    (calculate_specificity (codes "app-*") (codes "*") (codes "443")
      < calculate_specificity (codes "app-1") (codes "*") (codes "*"))
    ↔ LooserThan (codes "app-*") (codes "*") (codes "443") (codes "app-1") (codes "*") (codes "*")
specificity_iff_example =
    specificity_iff (codes "app-*") (codes "*") (codes "443") (codes "app-1") (codes "*")
      (codes "*")

wildcards_iff_example :
    ((matches_destination (codes "API.example.com") (codes "**." ++ codes "example.com") ≡ true) ↔ (
      (to_lower (codes "API.example.com") ≡ to_lower (codes "example.com"))
      ⊎ Below (to_lower (codes "API.example.com")) (to_lower (codes "example.com"))))
    × ((matches_destination (codes "API.example.com") (codes "*." ++ codes "example.com") ≡ true)
        ↔ Below (to_lower (codes "API.example.com")) (to_lower (codes "example.com")))
unfolding has_char
wildcards_iff_example = wildcards_iff (codes "API.example.com") (codes "example.com") refl
