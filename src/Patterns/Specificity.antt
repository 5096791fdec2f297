-- ===== src/Patterns/Specificity.antt =====
-- The order that CalculateSpecificity puts on rules.
use greyproxy.Prelude.{ℕ, ◌+◌, ◌*◌, ◌<◌, ◌≤◌, ◌≡◌, ◌⊎◌, ◌↔◌, ◌==◌, list_eq, arith, if◌then◌else◌}
use greyproxy.Go.Strings.{Str, codes, contains_any}
use greyproxy.Patterns.{wildcard, calculate_specificity}

-- How tight a pattern is: a star alone, a pattern with wildcards, an exact text.
pub tightness : Str → ℕ
tightness pattern =
    if pattern == wildcard then 0 else if contains_any pattern (codes "*?[") then 1 else 2

pub names_port : Str → ℕ
names_port pattern = if pattern == wildcard then 0 else 1

tightness-le : (p : Str) → tightness p ≤ 2
unfolding tightness
tightness-le p = ground arith

names_port-le : (p : Str) → names_port p ≤ 1
unfolding names_port
names_port-le p = ground arith

score :
    (c d p : Str)
    → calculate_specificity c d p ≡ 100 * tightness c + 10 * tightness d + names_port p
unfolding calculate_specificity tightness names_port
score c d p = ground arith

-- The first difference decides: the container, then the destination, then the port.
abbrev pub LooserThan : Str → Str → Str → Str → Str → Str → Type 0
LooserThan c d p c' d' p' =
    (tightness c < tightness c')
    ⊎ ((tightness c ≡ tightness c')
        × ((tightness d < tightness d')
            ⊎ ((tightness d ≡ tightness d') × (names_port p < names_port p'))))

-- A rule has a lower score than another exactly when it is looser: in its container pattern, or, the
-- container patterns being equally tight, in its destination pattern, or, those being equally tight
-- too, in its port pattern.
pub specificity_iff :
    (c d p c' d' p' : Str)
    → (calculate_specificity c d p < calculate_specificity c' d' p') ↔ LooserThan c d p c' d' p'
specificity_iff c d p c' d' p' = (
  omega (
    arith,
    score c d p,
    score c' d' p',
    tightness-le c,
    tightness-le d,
    tightness-le c',
    tightness-le d',
    names_port-le p,
    names_port-le p',
  ),
  omega (
    arith,
    score c d p,
    score c' d' p',
    tightness-le c,
    tightness-le d,
    tightness-le c',
    tightness-le d',
    names_port-le p,
    names_port-le p',
  ),
)
