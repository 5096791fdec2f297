-- ===== src/Go/Filepath.antt =====
-- Package path/filepath: Match on Unix. The pattern is read into chunks, and each chunk is taken at
-- its first place, with no way back. A malformed pattern gives false, as its callers ignore errors.
pub mod Literal
use greyproxy.Prelude.{
  ℕ, Bool, true, false, not, ◌&&◌, ◌||◌, Option, none, some, List, [], ◌∷◌, ◌++◌, leb, ◌==◌, nat_eq,
  if◌then◌else◌,
}
use greyproxy.Go.Strings.{Str, has_char}

abbrev pub Ranges : Type 0
Ranges = List (ℕ × ℕ)

pub data Test : Type 0 where
  literal : ℕ → Test
  any_char : Test
  class : Bool → Ranges → Test

pub data Item : Type 0 where
  star : Item
  one : Test → Item

-- Where the reader of a pattern stands.
pub data Mode : Type 0 where
  top escaped class_open : Mode
  range_start lo_escaped : Bool → Ranges → Mode
  after_lo hi_start hi_escaped : Bool → Ranges → ℕ → Mode

abbrev pub separator : ℕ
separator = b'/'

abbrev pub backslash : ℕ
backslash = 92

abbrev is_nil : Ranges → Bool
is_nil [] = true
is_nil (r ∷ rs) = false

abbrev Next : Type 0
Next = Option (Mode × List Item)

-- `getEsc` for the low end of a range, behind the test for the closing bracket.
at_range : Bool → Ranges → ℕ → Next
at_range neg rs c =
    if c == b']' && not (is_nil rs)
    then some (top, one (class neg rs) ∷ [])
    else if c == b'-' || c == b']'
    then none
    else if c == backslash
    then some (lo_escaped neg rs, [])
    else some (after_lo neg rs c, [])

unfoldable pub step : Mode → ℕ → Next
unfolding at_range
step top c =
    if c == b'*'
    then some (top, star ∷ [])
    else if c == b'?'
    then some (top, one any_char ∷ [])
    else if c == backslash
    then some (escaped, [])
    else if c == b'['
    then some (class_open, [])
    else some (top, one (literal c) ∷ [])
step escaped c = some (top, one (literal c) ∷ [])
step class_open c = if c == b'^' then some (range_start true [], []) else at_range false [] c
step (range_start neg rs) c = at_range neg rs c
step (lo_escaped neg rs) c = some (after_lo neg rs c, [])
step (after_lo neg rs lo) c =
    if c == b'-' then some (hi_start neg rs lo, []) else at_range neg (rs ++ (lo, lo) ∷ []) c
step (hi_start neg rs lo) c =
    if c == b'-' || c == b']'
    then none
    else if c == backslash
    then some (hi_escaped neg rs lo, [])
    else some (range_start neg (rs ++ (lo, c) ∷ []), [])
step (hi_escaped neg rs lo) c = some (range_start neg (rs ++ (lo, c) ∷ []), [])

abbrev emit : Next → (Mode → Option (List Item)) → Option (List Item)
emit none k = none
emit (some (m, out)) k = elim (k m) [ none ↦ none | some items ↦ some (out ++ items) ]

-- The items of a pattern; `none` is ErrBadPattern.
unfoldable pub parse : Mode → Str → Option (List Item)
unfolding step
parse top [] = some []
parse _ [] = none
parse mode (c ∷ s) = emit (step mode c) (λ m. parse m s)

in_ranges : Ranges → ℕ → Bool
in_ranges [] c = false
in_ranges ((lo, hi) ∷ rs) c = (leb lo c && leb c hi) || in_ranges rs c

-- A class accepts the separator too, the wildcards do not.
unfoldable pub accepts : Test → ℕ → Bool
unfolding in_ranges
accepts (literal x) c = c == x
accepts any_char c = not (c == separator)
accepts (class neg rs) c = if neg then not (in_ranges rs c) else in_ranges rs c

-- `scanChunk`: an optional star, and the tests up to the next star.
pub record Chunk : Type 0 where
  pub starred : Bool
  pub tests : List Test

unfoldable pub add_test : Test → List Chunk → List Chunk
add_test t [] = record { starred = false; tests = t ∷ [] } ∷ []
add_test t (k ∷ ks) =
    if k.starred
    then record { starred = false; tests = t ∷ [] } ∷ k ∷ ks
    else record { starred = false; tests = t ∷ k.tests } ∷ ks

-- A star in front of a star is the same star.
add_star : List Chunk → List Chunk
add_star [] = record { starred = true; tests = [] } ∷ []
add_star (k ∷ ks) = if k.starred then k ∷ ks else record { starred = true; tests = k.tests } ∷ ks

unfoldable pub chunks : List Item → List Chunk
unfolding add_test add_star
chunks [] = []
chunks (star ∷ items) = add_star (chunks items)
chunks (one t ∷ items) = add_test t (chunks items)

-- The text behind the tests, if each accepts its character.
unfoldable pub match_chunk : List Test → Str → Option Str
unfolding accepts
match_chunk [] s = some s
match_chunk (t ∷ ts) [] = none
match_chunk (t ∷ ts) (c ∷ s) = if accepts t c then match_chunk ts s else none

-- The last chunk has to reach the end of the text.
abbrev pub reaches : Bool → Option Str → Option Str
reaches last none = none
reaches last (some []) = some []
reaches last (some (c ∷ s)) = if last then none else some (c ∷ s)

-- The first place at which a chunk fits; a star does not step over a separator.
unfoldable pub find_place : Bool → Bool → List Test → Str → Option Str
unfolding match_chunk
find_place starred last ts [] = reaches last (match_chunk ts [])
find_place starred last ts (c ∷ s) = elim (reaches last (match_chunk ts (c ∷ s))) [
  | some t ↦ some t
  | none ↦ if starred && not (c == separator) then find_place starred last ts s else none
]

abbrev is_last : List Chunk → Bool
is_last [] = true
is_last (k ∷ ks) = false

abbrev no_tests : List Test → Bool
no_tests [] = true
no_tests (t ∷ ts) = false

unfoldable pub match_chunks : List Chunk → Str → Bool
unfolding find_place
match_chunks [] [] = true
match_chunks [] (c ∷ s) = false
match_chunks (k ∷ ks) s =
    if k.starred && no_tests k.tests
    then not (has_char separator s)
    else elim (find_place k.starred (is_last ks) k.tests s) [
      | none ↦ false
      | some t ↦ match_chunks ks t
    ]

abbrev pub match_items : Option (List Item) → Str → Bool
match_items none s = false
match_items (some items) s = match_chunks (chunks items) s

-- `filepath.Match(pattern, name)` with its error dropped.
unfoldable pub match : Str → Str → Bool
unfolding parse chunks match_chunks has_char
match pattern name = match_items (parse top pattern) name
