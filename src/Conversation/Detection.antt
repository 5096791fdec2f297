-- ===== src/Conversation/Detection.antt =====
-- DetectClient of internal/greyproxy/client_adapter.go: what it can find OpenCode by.
use greyproxy.Prelude.{
  ℕ, ◌≤◌, true, Option, none, some, List, [], ◌∷◌, ltb, leb, ◌==◌, nat_eq, list_eq, string_eq, ◌≡◌,
  ap, ◌⊎◌, inl, inr, arith, Bool-cases,
}
use greyproxy.Go.Strings.{codes}
use greyproxy.Go.Search.{contains}
use greyproxy.Dissector.{ExtractionResult}
use greyproxy.Conversation.{Header}
use greyproxy.Conversation.Clients.{
  Adapter, open_code, generic, get_header, open_code_by_tools, detect_confidence, client_adapters,
  best_candidate, threshold, detect_client,
}

leb→le : (a b : ℕ) → leb a b ≡ true → a ≤ b
leb→le a b h = ground arith

best-open_code :
    (headers : Option Header) (r : Option ExtractionResult) (best : Adapter) (score : ℕ)
    (rest : List Adapter)
    → (best ≡ open_code → score ≡ detect_confidence open_code headers r)
    → (best_candidate headers r best score rest).0 ≡ open_code
    → (best_candidate headers r best score rest).1 ≡ detect_confidence open_code headers r
unfolding best_candidate
best-open_code headers r best score [] h e = h e
best-open_code headers r best score (a ∷ rest) h e =
    elim (Bool-cases (ltb score (detect_confidence a headers r))) [
      | inl t ↦
          rw (t, best_candidate)
            (best-open_code headers r a (detect_confidence a headers r) rest
              (λ p. ap (λ b. detect_confidence b headers r) p) (rw (t, best_candidate) at e))
      | inr t ↦
          rw (t, best_candidate)
            (best-open_code headers r best score rest h (rw (t, best_candidate) at e))
    ]

open_code_by_tools-le : (r : Option ExtractionResult) → open_code_by_tools r ≤ 60
open_code_by_tools-le none = omega arith
open_code_by_tools-le (some r) = ground arith

-- The headers that OpenCode sends.
abbrev pub NamesOpenCode : Option Header → Type 0
NamesOpenCode headers =
    (contains (get_header (codes "User-Agent") headers) (codes "opencode/") ≡ true)
    ⊎ (get_header (codes "X-Title") headers == codes "opencode" ≡ true)
    ⊎ (get_header (codes "Http-Referer") headers == codes "https://opencode.ai/" ≡ true)

confident-open_code :
    (headers : Option Header) (r : Option ExtractionResult)
    → threshold ≤ detect_confidence open_code headers r
    → NamesOpenCode headers
unfolding detect_confidence
confident-open_code headers r h =
    elim (Bool-cases (contains (get_header (codes "User-Agent") headers) (codes "opencode/"))) [
      | inl t ↦ inl t
      | inr n ↦ elim (Bool-cases (get_header (codes "X-Title") headers == codes "opencode")) [
        | inl t ↦ inr (inl t)
        | inr n' ↦
            elim (Bool-cases
              (get_header (codes "Http-Referer") headers == codes "https://opencode.ai/")) [
                | inl t ↦ inr (inr t)
                | inr n'' ↦ absurd (omega (arith, open_code_by_tools-le r, rw (n, n', n'') at h))
              ]
      ]
    ]

-- OpenCode is only detected by its headers: the tools of a request, by which its adapter gives 0.6,
-- never decide, since a client needs 0.7.
pub detect_client-open_code :
    (headers : Option Header) (r : Option ExtractionResult)
    → detect_client headers r ≡ open_code
    → NamesOpenCode headers
unfolding detect_client
detect_client-open_code headers r h =
    let found = best_candidate headers r generic 0 client_adapters in
    elim (Bool-cases (leb threshold found.1)) [
      | inr n ↦ cc (rw n at h)
      | inl t ↦ confident-open_code headers r (
          omega (
            arith,
            best-open_code headers r generic 0 client_adapters (λ p. cc) (rw t at h),
            leb→le threshold found.1 t,
          ))
    ]
