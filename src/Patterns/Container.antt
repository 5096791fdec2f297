-- ===== src/Patterns/Container.antt =====
-- Container patterns that name one container.
use greyproxy.Prelude.{
  ◌≡◌, ◌↔◌, refl, true, false, list_eq, list_eqb, list_eqb_iff, ◌==◌, nat_eq, any, arith, [], ◌∷◌,
}
use greyproxy.Go.Strings.{Str}
use greyproxy.Go.Filepath.Literal.{is_meta, match-plain}
use greyproxy.Patterns.{wildcard, matches_container}

not_wildcard : (pattern : Str) → any is_meta pattern ≡ false → (pattern == wildcard) ≡ false
unfolding any list_eqb
not_wildcard [] h = refl
not_wildcard (c ∷ pattern) h = ground arith

matches_container-eq :
    (name pattern : Str)
    → any is_meta pattern ≡ false
    → matches_container name pattern ≡ (name == pattern)
unfolding matches_container
matches_container-eq name pattern h = rw (not_wildcard pattern h) (match-plain pattern name h)

-- A container pattern without `*`, `?`, `[` and `\` matches the container of that name and no other.
pub matches_container-plain :
    (name pattern : Str)
    → any is_meta pattern ≡ false
    → (matches_container name pattern ≡ true) ↔ (name ≡ pattern)
matches_container-plain name pattern h =
    rw (matches_container-eq name pattern h) (list_eqb_iff name pattern)
