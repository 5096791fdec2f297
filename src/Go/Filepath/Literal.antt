-- ===== src/Go/Filepath/Literal.antt =====
-- Patterns of filepath.Match with no special character.
use greyproxy.Prelude.{
  ℕ, ◌≡◌, refl, Bool, true, false, ◌||◌, none, some, List, [], ◌∷◌, map, arith, ◌==◌, nat_eq,
  list_eq, list_eqb, if◌then◌else◌, any, Option-cases, inl, inr,
}
use greyproxy.Go.Strings.{Str}
use greyproxy.Go.Filepath.{
  Item, Test, literal, one, top, Chunk, match, parse, step, chunks, add_test, find_place,
  match_chunks, match_chunk, accepts, reaches, backslash,
}

-- The characters that mean something else than themselves.
abbrev pub is_meta : ℕ → Bool
is_meta c = c == b'*' || c == b'?' || c == b'[' || c == backslash

abbrev items : Str → List Item
items = map (λ c. one (literal c))

abbrev tests : Str → List Test
tests = map literal

parse-plain : (s : Str) → any is_meta s ≡ false → parse top s ≡ some (items s)
unfolding parse step any
parse-plain [] h = refl
parse-plain (c ∷ s) h = ground (arith, parse-plain s)

abbrev whole : ℕ → Str → List Chunk
whole c s = record { starred = false; tests = tests (c ∷ s) } ∷ []

chunks-plain : (c : ℕ) (s : Str) → chunks (items (c ∷ s)) ≡ whole c s
unfolding chunks add_test
chunks-plain c [] = refl
chunks-plain c (d ∷ s) = rw (chunks-plain d s) refl

reaches-plain :
    (p s : Str) → reaches true (match_chunk (tests p) s) ≡ (if s == p then some [] else none)
unfolding match_chunk accepts list_eqb
reaches-plain [] [] = refl
reaches-plain [] (c ∷ s) = refl
reaches-plain (x ∷ p) [] = refl
reaches-plain (x ∷ p) (c ∷ s) = ground (arith, reaches-plain p s)

-- Without a star the chunk is tried at one place.
find_place-unstarred :
    (last : Bool) (ts : List Test) (s : Str)
    → find_place false last ts s ≡ reaches last (match_chunk ts s)
unfolding find_place
find_place-unstarred last ts [] = refl
find_place-unstarred last ts (c ∷ s) = elim (Option-cases (reaches last (match_chunk ts (c ∷ s)))) [
  | inl e ↦ ground (arith, e)
  | inr (t, e) ↦ ground (arith, e)
]

-- Such a pattern matches the text that it spells, and no other.
pub match-plain : (p s : Str) → any is_meta p ≡ false → match p s ≡ (s == p)
unfolding match match_chunks list_eqb
match-plain [] [] h = refl
match-plain [] (c ∷ s) h = refl
match-plain (x ∷ p) s h =
    rw
      (
        parse-plain (x ∷ p) h,
        chunks-plain x p,
        find_place-unstarred true (tests (x ∷ p)) s,
        reaches-plain (x ∷ p) s,
      )
      (ground arith)
