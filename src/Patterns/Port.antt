-- ===== src/Patterns/Port.antt =====
-- Port patterns as the sets of ports that they denote.
use greyproxy.Prelude.{
  ℕ, ◌<◌, ◌≡◌, Bool, true, false, ◌&&◌, List, [], ◌∷◌, ◌++◌, map, arith, leb, ◌==◌, nat_eq, ◌^◌,
  any, ◌∙◌, refl, pos, ap, All, list_eq, list_eqb,
}
use greyproxy.Go.Strings.{
  Str, join, has_char, has_char-eq-any, is_space, trim_space, trim_space_none, any-append, split,
  split-no_char, split-append, cut_char-none, cut_char-append,
}
use greyproxy.Go.Strconv.{itoa, itoa-digit, is_digit, any-itoa, atoi-itoa}
use greyproxy.Patterns.{wildcard, matches_port, match_single_port}

-- One entry of a port list.
pub data Entry : Type 0 where
  port : ℕ → Entry
  span : ℕ → ℕ → Entry

abbrev pub covers : ℕ → Entry → Bool
covers n (port p) = n == p
covers n (span low high) = leb low n && leb n high

-- The entry's text.
abbrev pub print_entry : Entry → Str
print_entry (port p) = itoa p
print_entry (span low high) = itoa low ++ b'-' ∷ itoa high

-- The numbers fit an int64.
abbrev pub Fits : Entry → Type 0
Fits (port p) = p < 2 ^ 63
Fits (span low high) = (low < 2 ^ 63) × (high < 2 ^ 63)

no_char-itoa : (k n : ℕ) → is_digit k ≡ false → has_char k (itoa n) ≡ false
unfolding is_digit
no_char-itoa k n h = has_char-eq-any k (itoa n) ∙ any-itoa (λ c. c == k) (λ c d. ground arith) n

no_space-itoa : (n : ℕ) → any is_space (itoa n) ≡ false
no_space-itoa n = any-itoa is_space (λ c d. unfold is_space is_digit in ground arith) n

trim-itoa : (n : ℕ) → trim_space (itoa n) ≡ itoa n
trim-itoa n = trim_space_none (itoa n) (no_space-itoa n)

no_space-entry : (e : Entry) → any is_space (print_entry e) ≡ false
no_space-entry (port p) = no_space-itoa p
no_space-entry (span low high) =
    rw any-append (unfold any is_space in ground (arith, no_space-itoa low, no_space-itoa high))

no_comma-entry : (e : Entry) → has_char b',' (print_entry e) ≡ false
unfolding is_digit
no_comma-entry (port p) = no_char-itoa b',' p refl
no_comma-entry (span low high) =
    rw (has_char-eq-any, any-append)
      (unfold any in
        ground (
          arith,
          any-itoa (λ c. c == b',') (λ c d. ground arith) low,
          any-itoa (λ c. c == b',') (λ c d. ground arith) high,
        ))

single-entry : (n : ℕ) (e : Entry) → Fits e → match_single_port (pos n) (print_entry e) ≡ covers n e
unfolding match_single_port is_digit
single-entry n (port p) f =
    rw (cut_char-none b'-' (itoa p) (no_char-itoa b'-' p refl), trim-itoa p, atoi-itoa p f)
      (ground arith)
single-entry n (span low high) f =
    rw
      (
        cut_char-append b'-' (itoa low) (itoa high) (no_char-itoa b'-' low refl),
        trim-itoa low,
        trim-itoa high,
        atoi-itoa low f.0,
        atoi-itoa high f.1,
      )
      (ground arith)

split-entries :
    (e : Entry) (es : List Entry)
    → split b',' (join b',' (map print_entry (e ∷ es))) ≡ map print_entry (e ∷ es)
unfolding join
split-entries e [] = split-no_char b',' (print_entry e) (no_comma-entry e)
split-entries e (e' ∷ es) =
    split-append b',' (print_entry e) _ (no_comma-entry e)
    ∙ ap (λ ps. print_entry e ∷ ps) (split-entries e' es)

any-parts :
    (n : ℕ) (es : List Entry)
    → All Fits es
    → any (λ part. match_single_port (pos n) (trim_space part)) (map print_entry es)
      ≡ any (covers n) es
unfolding any
any-parts n [] f = refl
any-parts n (e ∷ es) f =
    rw
      (trim_space_none (print_entry e) (no_space-entry e), single-entry n e f.0, any-parts n es f.1)

has_comma :
    (e e' : Entry) (es : List Entry)
    → has_char b',' (join b',' (map print_entry (e ∷ e' ∷ es))) ≡ true
unfolding join
has_comma e e' es = rw (has_char-eq-any, any-append) (unfold any in ground arith)

not_wildcard :
    (e : Entry) (es : List Entry) → (join b',' (map print_entry (e ∷ es)) == wildcard) ≡ false
unfolding list_eqb is_digit join
not_wildcard (port p) [] = let (c, t, e, d) = itoa-digit p in rw e (ground arith)
not_wildcard (port p) (e' ∷ es) = let (c, t, e, d) = itoa-digit p in rw e (ground arith)
not_wildcard (span low high) [] = let (c, t, e, d) = itoa-digit low in rw e (ground arith)
not_wildcard (span low high) (e' ∷ es) = let (c, t, e, d) = itoa-digit low in rw e (ground arith)

one_entry : (e : Entry) → join b',' (map print_entry (e ∷ [])) ≡ print_entry e
unfolding join
one_entry e = refl

-- For entries whose numbers fit an int64, the pattern that lists them, separated by commas, matches
-- exactly the ports that one of the entries covers.
pub matches_port-entries :
    (n : ℕ) (e : Entry) (es : List Entry)
    → All Fits (e ∷ es)
    → matches_port (pos n) (join b',' (map print_entry (e ∷ es))) ≡ any (covers n) (e ∷ es)
unfolding matches_port
matches_port-entries n e [] f =
    rw (not_wildcard e [], one_entry e, no_comma-entry e, single-entry n e f.0)
      (unfold any in ground arith)
matches_port-entries n e (e' ∷ es) f =
    rw (not_wildcard e (e' ∷ es), has_comma e e' es, split-entries e (e' ∷ es))
      (any-parts n (e ∷ e' ∷ es) f)
