-- ===== src/Store/Approval/Subdomains.antt =====
-- The scope for subdomains: which hosts its pattern covers.
use greyproxy.Prelude.{
  ltb, Bool-cases, subst, ℕ, ◌<◌, ◌≤◌, ◌≡◌, ◌≢◌, ◌↔◌, refl, sym, ap, ◌∙◌, true, false, Option, none,
  some, List, [], ◌∷◌, ◌++◌, arith, ◌==◌, nat_eq, list_eq, string_eq, length, length-append, any,
  inl, inr,
}
use greyproxy.Go.Strings.{
  Str, has_char, has_char-eq-any, any-append, split, split-ne-nil, join, add_front, to_lower,
  lower_char,
}
use greyproxy.Patterns.{matches_destination}
use greyproxy.Patterns.Domain.{Below, single_star_iff}
use greyproxy.Store.{PendingRequest}
use greyproxy.Store.Pending.{display_host}
use greyproxy.Store.Approval.{last_two, extract_base_domain, build_patterns}

join-add_front : (k c : ℕ) (ps : List Str) → ps ≢ [] → join k (add_front c ps) ≡ c ∷ join k ps
unfolding join
join-add_front k c [] n = absurd (n refl)
join-add_front k c (p ∷ []) n = refl
join-add_front k c (p ∷ q ∷ ps) n = refl

join-empty_front : (k : ℕ) (ps : List Str) → ps ≢ [] → join k ([] ∷ ps) ≡ k ∷ join k ps
unfolding join
join-empty_front k [] n = absurd (n refl)
join-empty_front k (p ∷ ps) n = refl

join-split : (k : ℕ) (s : Str) → join k (split k s) ≡ s
unfolding split join
join-split k [] = refl
join-split k (c ∷ s) = ground (
  arith,
  join-split k s,
  join-add_front k c (split k s) (split-ne-nil k s),
  join-empty_front k (split k s) (split-ne-nil k s),
)

append_assoc : (a b c : Str) → (a ++ b) ++ c ≡ a ++ (b ++ c)
append_assoc [] b c = refl
append_assoc (x ∷ a) b c = ap (λ s. x ∷ s) (append_assoc a b c)

-- More than two labels: something, a dot, and the last two.
record Labels (k : ℕ) (ps : List Str) : Type 0 where
  front : Str
  first : Str
  second : Str
  last : last_two ps ≡ some (first, second)
  whole : join k ps ≡ front ++ k ∷ (first ++ k ∷ second)

three-Labels : (k : ℕ) (ps : List Str) → 2 < length ps → Labels k ps
unfolding last_two join
three-Labels k [] h = absurd (omega (arith, h))
three-Labels k (a ∷ []) h = absurd (omega (arith, h))
three-Labels k (a ∷ b ∷ []) h = absurd (omega (arith, h))
three-Labels k (a ∷ b ∷ c ∷ []) h = record {
  front = a;
  first = b;
  second = c;
  last = refl;
  whole = refl;
}
three-Labels k (a ∷ b ∷ c ∷ d ∷ r) h =
    let l = three-Labels k (b ∷ c ∷ d ∷ r) (omega arith) in
    record {
      front = a ++ k ∷ l.front;
      first = l.first;
      second = l.second;
      last = l.last;
      whole = rw l.whole (sym (append_assoc a (k ∷ l.front) _));
    }

-- At most two labels are the whole.
abbrev base_of : Str → Option (Str × Str) → Str
base_of host none = host
base_of host (some (a, b)) = a ++ b'.' ∷ b

two_labels : (ps : List Str) → length ps ≤ 2 → base_of (join b'.' ps) (last_two ps) ≡ join b'.' ps
unfolding last_two join
two_labels [] h = refl
two_labels (a ∷ []) h = refl
two_labels (a ∷ b ∷ []) h = refl
two_labels (a ∷ b ∷ c ∷ r) h = absurd (omega (arith, h))

extract-base_of :
    (host : Str) → extract_base_domain host ≡ base_of host (last_two (split b'.' host))
unfolding extract_base_domain
extract-base_of host = go (last_two (split b'.' host))
  where
    go :
        (o : Option (Str × Str))
        → elim o [ none ↦ host | some (a, b) ↦ a ++ b'.' ∷ b ] ≡ base_of host o
    go none = refl
    go (some (a, b)) = refl

short_self : (host : Str) → length (split b'.' host) ≤ 2 → extract_base_domain host ≡ host
short_self host h =
    extract-base_of host
    ∙ ap (λ s. base_of s (last_two (split b'.' host))) (sym (join-split b'.' host))
    ∙ two_labels (split b'.' host) h
    ∙ join-split b'.' host

long-Below : (host : Str) → 2 < length (split b'.' host) → Below host (extract_base_domain host)
long-Below host h =
    let l = three-Labels b'.' (split b'.' host) h in
    rw (extract-base_of host, l.last) (l.front, sym (join-split b'.' host) ∙ l.whole)

lower-append : (s t : Str) → to_lower (s ++ t) ≡ to_lower s ++ to_lower t
unfolding to_lower
lower-append [] t = refl
lower-append (c ∷ s) t = ap (λ r. lower_char c ∷ r) (lower-append s t)

lower-Below : (host base : Str) → Below host base → Below (to_lower host) (to_lower base)
unfolding to_lower lower_char
lower-Below host base (label, e) =
    (to_lower label, ap to_lower e ∙ lower-append label (b'.' ∷ base))

not-Below_itself : (s : Str) → ¬ Below s s
not-Below_itself s (label, e) = omega (arith, ap length e, length-append label (b'.' ∷ s))

slash_behind :
    (label base : Str)
    → any (λ c. c == b'/') (label ++ b'.' ∷ base) ≡ false
    → has_char b'/' base ≡ false
unfolding any
slash_behind label base h =
    rw (has_char-eq-any b'/' base) (ground (arith, any-append (λ c. c == b'/') label (b'.' ∷ base)))

no_slash-Below :
    (host base : Str) → Below host base → has_char b'/' host ≡ false → has_char b'/' base ≡ false
no_slash-Below host base (label, e) h =
    slash_behind label base
      (sym (has_char-eq-any b'/' (label ++ b'.' ∷ base)) ∙ ap (has_char b'/') (sym e) ∙ h)

-- For a host with no slash, the pattern that the scope for subdomains makes matches the request's
-- own host exactly if the host has more than two labels.
pub subdomain_scope_iff :
    (p : PendingRequest)
    → has_char b'/' (display_host p) ≡ false
    → (matches_destination (display_host p) (build_patterns p "subdomain_wildcard").destination
        ≡ true)
      ↔ (2 < length (split b'.' (display_host p)))
unfolding build_patterns
subdomain_scope_iff p plain = elim (Bool-cases (ltb 2 (length (split b'.' host)))) [
  | inl long ↦
      let below = long-Below host (ground arith) in
      let matched =
        (single_star_iff host (extract_base_domain host) (no_slash-Below host _ below plain)).1 in
      (λ m. ground arith, λ n. matched (lower-Below host _ below))
  | inr short ↦
      let self = short_self host (ground arith) in
      (
        λ m. absurd (
            not-Below_itself (to_lower host) (
              (single_star_iff host host plain).0
                (subst (λ b. matches_destination host (b'*' ∷ b'.' ∷ b) ≡ true) self m))),
        λ n. ground arith,
      )
]
  where
    host : Str
    host = display_host p
