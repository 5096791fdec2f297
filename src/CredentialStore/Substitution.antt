-- ===== src/CredentialStore/Substitution.antt =====
-- internal/greyproxy/credential_store.go: SubstituteRequest. The parsed query of the request, which
-- the code encodes back when it has changed, stands for the query.
use greyproxy.Prelude.{
  ℕ, suc, ◌+◌, String, Bool, true, false, not, Option, none, some, List, [], ◌∷◌, map, ltb, ◌==◌,
  nat_eq, list_eq, string_eq, if◌then◌else◌, any,
}
use greyproxy.Go.Strings.{Str, codes}
use greyproxy.Go.Search.{contains}
use greyproxy.Go.Search.Replace.{replace_all}
use greyproxy.Go.Maps.{get}
use greyproxy.CredentialStore.{CredentialStore}

-- PlaceholderPrefix of credential_crypto.go.
abbrev pub placeholder_prefix : Str
placeholder_prefix = codes "greyproxy:credential:"

pub record SubstitutionResult : Type 0 where
  pub count : ℕ
  pub labels : List String
  pub session_ids : List String

abbrev pub no_substitution : SubstitutionResult
no_substitution = record { count = 0; labels = []; session_ids = [] }

-- `used[name] = true`
abbrev add_name : Option String → List String → List String
add_name none names = names
add_name (some name) names = if any (λ n. n == name) names then names else name ∷ names

-- The session and the label of a placeholder that was found.
unfoldable pub note_used : CredentialStore → Str → SubstitutionResult → SubstitutionResult
unfolding get any
note_used cs placeholder r = record r {
  labels = add_name (get placeholder cs.labels_map) r.labels;
  session_ids = add_name (get placeholder cs.session_map) r.session_ids;
}

-- replaceInString: the loop over the lookup map, in the order of the range.
unfoldable pub replace_entries :
    CredentialStore → List (Str × Str) → Str × SubstitutionResult → Str × SubstitutionResult
unfolding contains replace_all note_used
replace_entries cs [] acc = acc
replace_entries cs ((placeholder, real) ∷ entries) (s, r) = replace_entries cs entries (
    if contains s placeholder
    then (replace_all s placeholder real, note_used cs placeholder r)
    else (s, r))

unfoldable pub replace_in_string :
    CredentialStore → Str → SubstitutionResult → Str × SubstitutionResult
unfolding replace_entries
replace_in_string cs s r = replace_entries cs cs.lookup (s, r)

abbrev pub counted : Str → Str × SubstitutionResult → Str × SubstitutionResult
counted v (replaced, r) =
    if replaced == v then (v, r) else (replaced, record r { count = suc r.count })

-- One value of a header or a query parameter.
unfoldable pub substitute_value :
    CredentialStore → Str → SubstitutionResult → Str × SubstitutionResult
unfolding contains replace_in_string
substitute_value cs v r =
    if not (contains v placeholder_prefix) then (v, r) else counted v (replace_in_string cs v r)

unfoldable pub substitute_values :
    CredentialStore → List Str → SubstitutionResult → List Str × SubstitutionResult
unfolding substitute_value
substitute_values cs [] r = ([], r)
substitute_values cs (v ∷ vs) r =
    let (v', r') = substitute_value cs v r in
    let (vs', r'') = substitute_values cs vs r' in (v' ∷ vs', r'')

abbrev pub Values : Type 0
Values = List (Str × List Str)

unfoldable pub substitute_all :
    CredentialStore → Values → SubstitutionResult → Values × SubstitutionResult
unfolding substitute_values
substitute_all cs [] r = ([], r)
substitute_all cs ((key, vs) ∷ h) r =
    let (vs', r') = substitute_values cs vs r in
    let (h', r'') = substitute_all cs h r' in ((key, vs') ∷ h', r'')

abbrev pub is_empty {ℓ} : {A : Type ℓ} → List A → Bool
is_empty [] = true
is_empty (x ∷ xs) = false

pub record Request : Type 0 where
  pub header : Values
  pub query : Values

-- trackSubstitutions: the counters that there are.
unfoldable pub track_substitutions : List String → CredentialStore → CredentialStore
unfolding any
track_substitutions used cs = record cs {
  pending_counts =
      map (λ (sid, n). (sid, if any (λ u. u == sid) used then n + 1 else n)) cs.pending_counts;
}

-- SubstituteRequest
unfoldable pub substitute_request :
    CredentialStore → Request → Request × SubstitutionResult × CredentialStore
unfolding substitute_all track_substitutions
substitute_request cs req =
    let (header, r) = substitute_all cs req.header no_substitution in
    let (query, r') = substitute_all cs req.query r in
    if is_empty cs.lookup then (req, no_substitution, cs) else (
      record { header = header; query = query },
      r',
      if ltb 0 r'.count then track_substitutions r'.session_ids cs else cs,
    )
