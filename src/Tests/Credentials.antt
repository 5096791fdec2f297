-- ===== src/Tests/Credentials.antt =====
-- The theorems on the credential store at concrete inputs.
use greyproxy.Prelude.{
  ◌≡◌, ◌+◌, refl, none, some, List, [], ◌∷◌, ◌++◌, ◌==◌, list_eq, nat_eq, list_eqb, if◌then◌else◌,
  All,
}
use greyproxy.Go.Strings.{Str, codes, has_prefix}
use greyproxy.Go.Search.{cut, contains}
use greyproxy.Go.Maps.{get}
use greyproxy.CredentialStore.{CredentialStore, empty_store}
use greyproxy.CredentialStore.Ownership.{Owner}
use greyproxy.CredentialStore.Owners.{
  Call, registered, unregistered, registered_global, after, Respects, current, get-current,
}
use greyproxy.CredentialStore.Substitution.{Request, substitute_request}
use greyproxy.CredentialStore.Exact.{
  stays, replaced, rewritten, changes, AllBecome, substitute_request-rewritten,
}

abbrev key : Str
key = codes "greyproxy:credential:v1:s1:key"

abbrev shared : Str
shared = codes "greyproxy:credential:v1:global:org"

abbrev own : Owner
own p = if p == shared then none else some "s1"

-- A session that registers a new value for its key after its end, and a global credential.
abbrev history : List Call
history =
    registered "s1" [] ((key, codes "new") ∷ [])
    ∷ unregistered "s1"
    ∷ registered_global shared (codes "o-1") "ORG"
    ∷ registered "s1" [] ((key, codes "old") ∷ [])
    ∷ []

history-Respects : All (Respects own) history
unfolding list_eqb
history-Respects = ((refl, tt), (tt, (refl, ((refl, tt), tt))))

get-current_example : get shared (after none history).lookup ≡ current own shared history
get-current_example = get-current own none shared history history-Respects

current_run : current own shared history ≡ some (codes "o-1")
unfolding list_eqb
current_run = refl

abbrev store : CredentialStore
store = record (empty_store none) { lookup = (key, codes "secret") ∷ [] }

abbrev request : Request
request = record {
  header = (codes "Authorization", (codes "Bearer " ++ key) ∷ []) ∷ [];
  query = (codes "q", codes "cats" ∷ []) ∷ [];
}

abbrev wanted : Str → Str
wanted v = if v == codes "cats" then v else codes "Bearer secret"

header-Becomes : All (λ e. AllBecome store wanted e.1) request.header
unfolding list_eqb cut has_prefix contains
header-Becomes = (
  (replaced _ _ (codes "Bearer ") [] key (codes "secret") [] [] refl refl refl refl refl tt tt, tt),
  tt,
)

query-Becomes : All (λ e. AllBecome store wanted e.1) request.query
unfolding list_eqb cut has_prefix contains
query-Becomes = ((stays _ (refl, tt), tt), tt)

substitute_request-rewritten_example :
    ((substitute_request store request).0 ≡ record {
      header = rewritten store wanted request.header;
      query = rewritten store wanted request.query;
    })
    × ((substitute_request store request).1.count
        ≡ changes store wanted request.header + changes store wanted request.query)
substitute_request-rewritten_example =
    substitute_request-rewritten store wanted request header-Becomes query-Becomes
