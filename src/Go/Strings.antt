-- ===== src/Go/Strings.antt =====
-- Package strings: prefixes, suffixes, letter case, white space, splitting at one character.
use Prim.Native.Char.{code}
use greyproxy.Prelude.{
  ℕ, ◌+◌, ◌-◌, String, ◌≡◌, refl, sym, ap, ◌∙◌, ◌≢◌, Bool, true, false, ◌&&◌, ◌||◌, Option, none,
  some, List, [], ◌∷◌, ◌++◌, map, arith, leb, ◌==◌, nat_eq, list_eq, list_eqb_iff, if◌then◌else◌,
  length, drop, take, take-append-drop, drop-length_append, length-append, any,
}

abbrev pub Str : Type 0
Str = List ℕ

-- The code points of a literal.
abbrev pub codes : String → Str
codes String.[] = []
codes (String.◌∷◌ c s) = code c ∷ codes s

unfoldable pub has_prefix : Str → Str → Bool
has_prefix s [] = true
has_prefix [] (c ∷ p) = false
has_prefix (x ∷ s) (c ∷ p) = x == c && has_prefix s p

-- `len(s) >= len(t) && s[len(s)-len(t):] == t`
unfoldable pub has_suffix : Str → Str → Bool
has_suffix s t = leb (length t) (length s) && drop (length s - length t) s == t

-- ASCII letters only: the upper case letters outside ASCII are not mapped.
unfoldable pub lower_char : ℕ → ℕ
lower_char c = if leb b'A' c && leb c b'Z' then c + 32 else c

unfoldable pub to_lower : Str → Str
unfolding lower_char
to_lower = map lower_char

-- The white space of ASCII, and of Latin-1 (U+0085 and U+00A0).
unfoldable pub is_space : ℕ → Bool
is_space c = (leb 9 c && leb c 13) || c == 32 || c == 133 || c == 160

unfoldable pub trim_left : (ℕ → Bool) → Str → Str
trim_left f [] = []
trim_left f (c ∷ s) = if f c then trim_left f s else c ∷ s

-- A character is dropped only if all to its right are.
unfoldable pub trim_right : (ℕ → Bool) → Str → Str
trim_right f [] = []
trim_right f (c ∷ s) = keep_char f c (trim_right f s)
  where
    keep_char : (ℕ → Bool) → ℕ → Str → Str
    keep_char f c [] = if f c then [] else c ∷ []
    keep_char f c (d ∷ s) = c ∷ d ∷ s

unfoldable pub trim_space : Str → Str
unfolding is_space trim_left trim_right
trim_space s = trim_right is_space (trim_left is_space s)

-- `strings.Trim(s, cutset)` for a cutset of one character.
unfoldable pub trim_char : ℕ → Str → Str
unfolding trim_left trim_right
trim_char k s = trim_right (λ c. c == k) (trim_left (λ c. c == k) s)

unfoldable pub contains_any : Str → Str → Bool
unfolding any
contains_any s chars = any (λ c. any (λ d. c == d) chars) s

-- `strings.Contains` and `strings.Split` for a separator of one character.
unfoldable pub has_char : ℕ → Str → Bool
has_char k [] = false
has_char k (c ∷ s) = c == k || has_char k s

abbrev pub add_front : ℕ → List Str → List Str
add_front c [] = (c ∷ []) ∷ []
add_front c (p ∷ ps) = (c ∷ p) ∷ ps

unfoldable pub split : ℕ → Str → List Str
split k [] = [] ∷ []
split k (c ∷ s) = let rest = split k s in if c == k then [] ∷ rest else add_front c rest

unfoldable pub join : ℕ → List Str → Str
join k [] = []
join k (p ∷ []) = p
join k (p ∷ q ∷ ps) = p ++ k ∷ join k (q ∷ ps)

-- The part before the first `k` and the part after it.
unfoldable pub cut_char : ℕ → Str → Option (Str × Str)
cut_char k [] = none
cut_char k (c ∷ s) = elim (c == k) [
  | true ↦ some ([], s)
  | false ↦ elim (cut_char k s) [ none ↦ none | some (a, b) ↦ some (c ∷ a, b) ]
]

pub has_prefix-append : (p s : Str) → has_prefix (p ++ s) p ≡ true
unfolding has_prefix
has_prefix-append [] s = refl
has_prefix-append (c ∷ p) s = ground (arith, has_prefix-append p s)

pub has_prefix-drop : (s p : Str) → has_prefix s p ≡ true → s ≡ p ++ drop (length p) s
unfolding has_prefix
has_prefix-drop s [] h = refl
has_prefix-drop [] (c ∷ p) h = cc
has_prefix-drop (x ∷ s) (c ∷ p) h = ground (arith, has_prefix-drop s p)

pub has_suffix-append : (s t : Str) → has_suffix (s ++ t) t ≡ true
unfolding has_suffix
has_suffix-append s t =
    let n : length (s ++ t) - length t ≡ length s = omega (arith, length-append s t) in
    rw (n, drop-length_append s t) (ground (arith, length-append s t, list_eqb_iff t t))

pub has_suffix-take : (s t : Str) → has_suffix s t ≡ true → s ≡ take (length s - length t) s ++ t
unfolding has_suffix
has_suffix-take s t h =
    sym (take-append-drop (length s - length t) s)
    ∙ ap (λ r. take (length s - length t) s ++ r)
        (ground (arith, list_eqb_iff (drop (length s - length t) s) t))

-- A text without the separator is one part.
pub split-no_char : (k : ℕ) (s : Str) → has_char k s ≡ false → split k s ≡ s ∷ []
unfolding split has_char
split-no_char k [] h = refl
split-no_char k (c ∷ s) h = ground (arith, split-no_char k s)

pub split-append : (k : ℕ) (p s : Str) → has_char k p ≡ false → split k (p ++ k ∷ s) ≡ p ∷ split k s
unfolding split has_char
split-append k [] s h = ground arith
split-append k (c ∷ p) s h = ground (arith, split-append k p s)

pub split-ne-nil : (k : ℕ) (s : Str) → split k s ≢ []
unfolding split
split-ne-nil k [] = ground arith
split-ne-nil k (c ∷ s) = ground arith

pub any-append {ℓ} :
    {A : Type ℓ} (p : A → Bool) (xs ys : List A) → any p (xs ++ ys) ≡ (any p xs || any p ys)
unfolding any
any-append p [] ys = refl
any-append p (x ∷ xs) ys = ground (arith, any-append p xs ys)

pub has_char-eq-any : (k : ℕ) (s : Str) → has_char k s ≡ any (λ c. c == k) s
unfolding has_char any
has_char-eq-any k [] = refl
has_char-eq-any k (c ∷ s) = ground (arith, has_char-eq-any k s)

trim_left_none : (f : ℕ → Bool) (s : Str) → any f s ≡ false → trim_left f s ≡ s
unfolding trim_left any
trim_left_none f [] h = refl
trim_left_none f (c ∷ s) h = ground arith

trim_right_none : (f : ℕ → Bool) (s : Str) → any f s ≡ false → trim_right f s ≡ s
unfolding trim_right any
trim_right_none f [] h = refl
trim_right_none f (c ∷ []) h = ground arith
trim_right_none f (c ∷ d ∷ s) h = ground (arith, trim_right_none f (d ∷ s))

-- A text with no white space in it is left alone.
pub trim_space_none : (s : Str) → any is_space s ≡ false → trim_space s ≡ s
unfolding trim_space
trim_space_none s h =
    ap (trim_right is_space) (trim_left_none is_space s h) ∙ trim_right_none is_space s h

pub cut_char-append :
    (k : ℕ) (a b : Str) → has_char k a ≡ false → cut_char k (a ++ k ∷ b) ≡ some (a, b)
unfolding cut_char has_char
cut_char-append k [] b h = ground arith
cut_char-append k (c ∷ a) b h = ground (arith, cut_char-append k a b)

pub cut_char-none : (k : ℕ) (s : Str) → has_char k s ≡ false → cut_char k s ≡ none
unfolding cut_char has_char
cut_char-none k [] h = refl
cut_char-none k (c ∷ s) h = ground (arith, cut_char-none k s)
