-- ===== src/Middleware/Filter.antt =====
-- What a filter asks for.
use greyproxy.Prelude.{
  ◌≡◌, ◌↔◌, ◌⊎◌, refl, Bool, true, false, Option, none, some, List, arith, any, inl, inr,
}
use greyproxy.Middleware.{
  HookFilter, Exchange, matches_filter, match_any_glob, match_any_exact_ci, media_type, wants,
  same_bool, is_empty, regex_matches,
}

-- The field of the filter is not set, or it holds of the exchange.
abbrev pub Unset : {A : Type 0} → List A → Bool → Type 0
Unset list holds = (is_empty list ≡ true) ⊎ (holds ≡ true)

-- Every field of the filter is unset or holds of the exchange.
pub record Admits (f : HookFilter) (x : Exchange) : Type 0 where
  pub tls : (f.tls ≡ none) ⊎ (f.tls ≡ some x.tls)
  pub llm : (f.llm ≡ none) ⊎ (f.llm ≡ some x.is_llm)
  pub host : Unset f.host (match_any_glob f.host x.host)
  pub path : Unset f.path (any (regex_matches x.path) f.path)
  pub method : Unset f.method (match_any_exact_ci f.method x.method)
  pub content_type :
      Unset f.content_type (match_any_glob f.content_type (media_type x.content_type))
  pub container : Unset f.container (match_any_glob f.container x.container)

wants→ : (o : Option Bool) (b : Bool) → wants o b ≡ true → (o ≡ none) ⊎ (o ≡ some b)
unfolding wants same_bool
wants→ none b h = inl refl
wants→ (some true) true h = inr refl
wants→ (some true) false h = cc
wants→ (some false) true h = cc
wants→ (some false) false h = inr refl

→wants : (o : Option Bool) (b : Bool) → (o ≡ none) ⊎ (o ≡ some b) → wants o b ≡ true
unfolding wants same_bool
→wants none b h = refl
→wants (some true) true h = refl
→wants (some true) false h = ground (arith, h)
→wants (some false) true h = ground (arith, h)
→wants (some false) false h = refl

-- A filter lets a middleware be called exactly for the exchanges of which each of its fields that is
-- set holds.
pub matches_filter_iff :
    (f : HookFilter) (x : Exchange) → (matches_filter (some f) x ≡ true) ↔ Admits f x
unfolding matches_filter
matches_filter_iff f x = (
  λ h. record {
    tls = wants→ f.tls x.tls (ground (arith, h));
    llm = wants→ f.llm x.is_llm (ground (arith, h));
    host = ground (arith, h);
    path = ground (arith, h);
    method = ground (arith, h);
    content_type = ground (arith, h);
    container = ground (arith, h);
  },
  λ a. ground (
    arith,
    →wants f.tls x.tls a.tls,
    →wants f.llm x.is_llm a.llm,
    a.host,
    a.path,
    a.method,
    a.content_type,
    a.container,
  ),
)
