-- ===== src/CredentialStore/Globals.antt =====
-- internal/greyproxy/credential_crud.go: the table of global credentials. The random id and
-- placeholder, and the encrypted value, are arguments.
use greyproxy.Prelude.{
  ℕ, ◌-◌, String, Bool, not, ◌||◌, Option, none, some, List, [], ◌∷◌, ◌++◌, leb, ◌==◌, list_eq,
  string_eq, if◌then◌else◌, any, keep, first, length, take, drop,
}
use greyproxy.Go.Strings.{Str, codes}

pub record GlobalCredential : Type 0 where
  pub id : String
  pub label : String
  pub placeholder : Str
  pub value_enc : String
  pub value_preview : Str
  pub created_at : ℕ

abbrev pub Globals : Type 0
Globals = List GlobalCredential

-- MaskCredentialValue of credential_crypto.go.
unfoldable pub mask_credential_value : Str → Str
mask_credential_value value =
    if leb 9 (length value)
    then take 6 value ++ (codes "***" ++ drop (length value - 3) value)
    else if leb (length value) 2
    then codes "***"
    else codes "***" ++ drop (length value - 2) value

-- The keys of the table: the id, the label and the placeholder are each unique.
unfoldable pub clashes : GlobalCredential → GlobalCredential → Bool
clashes c d = c.id == d.id || c.label == d.label || c.placeholder == d.placeholder

-- GetGlobalCredential
unfoldable pub get_global_credential : String → Globals → Option GlobalCredential
unfolding first
get_global_credential id globals = first (λ c. c.id == id) globals

new_credential : ℕ → String → Str → String → Str → String → GlobalCredential
unfolding mask_credential_value
new_credential now id placeholder label value value_enc = record {
  id = id;
  label = label;
  placeholder = placeholder;
  value_enc = value_enc;
  value_preview = mask_credential_value value;
  created_at = now;
}

-- CreateGlobalCredential; `none` is the error of a constraint.
unfoldable pub create_global_credential :
    ℕ → String → Str → String → Str → String → Globals → Globals × Option GlobalCredential
unfolding new_credential clashes get_global_credential any
create_global_credential now id placeholder label value value_enc globals =
    let c = new_credential now id placeholder label value value_enc in
    if any (clashes c) globals
    then (globals, none)
    else (globals ++ c ∷ [], get_global_credential id (globals ++ c ∷ []))

-- DeleteGlobalCredential, with whether a row was removed.
unfoldable pub delete_global_credential : String → Globals → Globals × Bool
unfolding keep any
delete_global_credential id globals =
    (keep (λ c. not (c.id == id)) globals, any (λ c. c.id == id) globals)

with_label : String → Globals → Option GlobalCredential
unfolding first
with_label label globals = first (λ c. c.label == label) globals

abbrev sort_out :
    String
    → Option GlobalCredential
    → List (String × GlobalCredential) × List String
    → List (String × GlobalCredential) × List String
sort_out label none (found, missing) = (found, label ∷ missing)
sort_out label (some c) (found, missing) = ((label, c) ∷ found, missing)

-- GetGlobalCredentialsByLabels: those that were found, and the labels that are missing.
unfoldable pub get_global_credentials_by_labels :
    List String → Globals → List (String × GlobalCredential) × List String
unfolding with_label
get_global_credentials_by_labels [] globals = ([], [])
get_global_credentials_by_labels (label ∷ labels) globals =
    sort_out label (with_label label globals) (get_global_credentials_by_labels labels globals)
