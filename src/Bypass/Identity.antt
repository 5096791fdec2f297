-- ===== src/Bypass/Identity.antt =====
-- The identity that Authenticate packs and ResolveIdentity unpacks.
use greyproxy.Prelude.{
  ◌≡◌, refl, ap, false, Option, [], ◌∷◌, ◌++◌, ◌==◌, list_eq, list_eqb, if◌then◌else◌, Bool-cases,
  inl, inr,
}
use greyproxy.Go.Strings.{Str, codes, has_char, cut_char-append, cut_char-none}
use greyproxy.Bypass.{
  authenticate, extract_client_ip, is_named, two_parts, parse_client_id, resolve_identity,
}

parse-named :
    (ip user : Str) → has_char b'|' ip ≡ false → parse_client_id (ip ++ b'|' ∷ user) ≡ (ip, user)
unfolding parse_client_id
parse-named ip user plain = ap (two_parts (ip ++ b'|' ∷ user)) (cut_char-append b'|' ip user plain)

parse-bare : (ip : Str) → has_char b'|' ip ≡ false → parse_client_id ip ≡ (ip, [])
unfolding parse_client_id
parse-bare ip plain = ap (two_parts ip) (cut_char-none b'|' ip plain)

nobody : is_named [] ≡ false
unfolding list_eqb
nobody = refl

-- For a client address without `|`: from the id that Authenticate makes, a user with a name, `proxy`
-- and the empty one aside, is identified by that name, and any other by the source address, or, if
-- that is unknown, by the client address.
pub resolve_identity-authenticate :
    (source : Option Str) (user src_ip : Str)
    → has_char b'|' (extract_client_ip source) ≡ false
    → resolve_identity (authenticate source user) src_ip ≡ (
        if is_named user
        then (user, [])
        else (codes "unknown-" ++ (if src_ip == [] then extract_client_ip source else src_ip), []))
unfolding resolve_identity authenticate
resolve_identity-authenticate source user src_ip plain = elim (Bool-cases (is_named user)) [
  | inl q ↦ rw (q, parse-named (extract_client_ip source) user plain) (rw q refl)
  | inr q ↦ rw (q, parse-bare (extract_client_ip source) plain) (rw nobody refl)
]
