-- ===== src/EndpointRegistry/Routing.antt =====
-- Which dissector reads a request: internal/greyproxy/dissector/dissector.go with CanHandle of each
-- dissector, and FindDissector and AutoDetectAndCreate of endpoint_registry.go. The JSON decoder of a
-- body is a parameter.
use greyproxy.Prelude.{
  ℕ, String, Bool, true, false, not, ◌&&◌, ◌||◌, Option, none, some, List, [], ◌∷◌, ◌==◌, list_eq,
  string_eq, nat_eq, if◌then◌else◌, pos, first,
}
use greyproxy.Go.Strings.{Str, codes, has_suffix, cut_char}
use greyproxy.Go.Search.{contains}
use greyproxy.EndpointRegistry.{before_query, extract_path, match_endpoint}
use greyproxy.EndpointRegistry.Table.{EndpointRegistry, Result, ok, err, create_rule}

pub data Dissector : Type 0 where
  anthropic openai google_ai openai_chat openai_ws : Dissector

-- Name
abbrev pub dissector_name : Dissector → String
dissector_name anthropic = "anthropic"
dissector_name openai = "openai"
dissector_name google_ai = "google-ai"
dissector_name openai_chat = "openai-chat"
dissector_name openai_ws = "openai-ws"

without_query : Str → Str
unfolding cut_char
without_query url = before_query url (cut_char b'?' url)

abbrev anthropic_can_handle : Str → String → Str → Bool
anthropic_can_handle url method host =
    method == "POST" && without_query url == codes "https://api.anthropic.com/v1/messages"

abbrev openai_can_handle : Str → String → Str → Bool
openai_can_handle url method host =
    method == "POST" && without_query url == codes "https://api.openai.com/v1/responses"

abbrev google_ai_can_handle : Str → String → Str → Bool
google_ai_can_handle url method host =
    method == "POST"
    && host == codes "generativelanguage.googleapis.com"
    && contains url (codes "/v1beta/models/")

abbrev openai_chat_can_handle : Str → String → Str → Bool
openai_chat_can_handle url method host =
    method == "POST"
    && (host == codes "api.openai.com" || host == codes "openrouter.ai")
    && has_suffix (without_query url) (codes "/chat/completions")

abbrev openai_ws_can_handle : Str → String → Str → Bool
openai_ws_can_handle url method host =
    (method == "WS_REQ" || method == "WS_RESP")
    && contains url (codes "api.openai.com")
    && contains url (codes "/v1/responses")

-- CanHandle
unfoldable pub can_handle : Dissector → Str → String → Str → Bool
unfolding without_query
can_handle anthropic url method host = anthropic_can_handle url method host
can_handle openai url method host = openai_can_handle url method host
can_handle google_ai url method host = google_ai_can_handle url method host
can_handle openai_chat url method host = openai_chat_can_handle url method host
can_handle openai_ws url method host = openai_ws_can_handle url method host

-- The registered dissectors: `init` runs file by file, in the order of the names.
abbrev pub registry : List Dissector
registry = anthropic ∷ openai ∷ google_ai ∷ openai_chat ∷ openai_ws ∷ []

-- dissector.FindDissector
unfoldable pub find_registered : Str → String → Str → Option Dissector
unfolding can_handle first
find_registered url method host = first (λ d. can_handle d url method host) registry

-- FindDissectorByName
unfoldable pub find_dissector_by_name : String → Option Dissector
unfolding first
find_dissector_by_name name = first (λ d. dissector_name d == name) registry

abbrev or_registered : Option Dissector → Option Dissector → Option Dissector
or_registered none d = d
or_registered (some c) d = some c

-- FindDissector: the rules, and then each dissector by itself.
unfoldable pub find_dissector : Str → String → Str → EndpointRegistry → Option Dissector
unfolding match_endpoint find_dissector_by_name find_registered
find_dissector url method host reg =
    let name = match_endpoint url method host reg.rules in
    or_registered (if name == "" then none else find_dissector_by_name name)
      (find_registered url method host)

abbrev after_creation :
    EndpointRegistry × Result ℕ → Option Dissector → EndpointRegistry × Option Dissector
after_creation (reg, ok id) d = (reg, d)
after_creation (reg, err f) d = (reg, none)

abbrev looks_like_chat : Option (Str × ℕ) → Bool
looks_like_chat none = false
looks_like_chat (some (model, messages)) = not (model == []) && not (messages == 0)

-- AutoDetectAndCreate; `probe` decodes the model and the number of messages of a body.
unfoldable pub auto_detect_and_create :
    (Str → Option (Str × ℕ))
    → Str
    → String
    → Str
    → Str
    → EndpointRegistry
    → EndpointRegistry × Option Dissector
unfolding extract_path find_dissector_by_name create_rule
auto_detect_and_create probe url method host body reg =
    if not (method == "POST") || host == [] || body == []
    then (reg, none)
    else if not (looks_like_chat (probe body))
    then (reg, none)
    else after_creation
        (create_rule
          (record {
            id = 0;
            host_pattern = host;
            path_pattern = extract_path url;
            method = "POST";
            decoder_name = "openai-chat";
            priority = pos 5;
            enabled = true;
            user_defined = true;
          })
          reg)
        (find_dissector_by_name "openai-chat")
