-- ===== src/Conversation/Naming.antt =====
-- internal/greyproxy/conversation_assembler.go: the provider and the client of a conversation
-- (detectProvider, inferClientName).
use greyproxy.Prelude.{
  String, ◌||◌, Option, none, some, List, [], ◌∷◌, ◌==◌, nat_eq, list_eq, string_eq, if◌then◌else◌,
}
use greyproxy.Go.Strings.{Str, codes}
use greyproxy.Go.Search.{contains}
use greyproxy.Dissector.{ExtractionResult}
use greyproxy.Conversation.{TransactionEntry, Header}
use greyproxy.Conversation.Clients.{adapter_name, get_header, detect_client_from_entries}

abbrev provider_named : Option ExtractionResult → Option String
provider_named none = none
provider_named (some r) = if r.provider == "" then none else some r.provider

url_provider : Str → Option String
unfolding contains
url_provider url =
    if contains url (codes "api.openai.com")
    then some "openai"
    else if contains url (codes "api.anthropic.com")
    then some "anthropic"
    else if contains url (codes "openrouter.ai")
    then some "openrouter"
    else if contains url (codes "generativelanguage.googleapis.com")
    then some "google-ai"
    else none

-- The first entry that a test gives a name for.
first_named : (TransactionEntry → Option String) → List TransactionEntry → Option String
first_named f [] = none
first_named f (e ∷ es) = let rest = first_named f es in elim (f e) [ none ↦ rest | some n ↦ some n ]

abbrev or_name : Option String → String → String
or_name none d = d
or_name (some n) d = n

-- detectProvider
unfoldable pub detect_provider : List TransactionEntry → String
unfolding first_named url_provider
detect_provider es =
    or_name (first_named (λ e. provider_named e.result) es)
      (or_name (first_named (λ e. url_provider e.url) es) "unknown")

-- containerToClient
container_client : String → Option String
container_client name =
    if name == "claude"
    then some "claude-code"
    else if name == "codex"
    then some "codex"
    else if name == "opencode"
    then some "opencode"
    else if name == "aider"
    then some "aider"
    else if name == "gemini"
    then some "gemini-cli"
    else none

abbrev header_client : Option Header → Option String
header_client none = none
header_client (some h) =
    let ua = get_header (codes "User-Agent") (some h) in
    let title = get_header (codes "X-Title") (some h) in
    let referer = get_header (codes "Http-Referer") (some h) in
    if get_header (codes "Originator") (some h) == codes "codex_exec"
    then some "codex"
    else if contains ua (codes "claude-cli/") || contains ua (codes "Claude-Code/")
    then some "claude-code"
    else if contains ua (codes "GeminiCLI/")
    then some "gemini-cli"
    else if contains ua (codes "opencode/")
    then some "opencode"
    else if title == codes "opencode" || referer == codes "https://opencode.ai/"
    then some "opencode"
    else if referer == codes "https://aider.chat" || title == codes "Aider"
    then some "aider"
    else none

abbrev hinted_client : Option ExtractionResult → Option String
hinted_client none = none
hinted_client (some r) = if r.client_hint == "" then none else some r.client_hint

provider_client : String → String
provider_client provider =
    if provider == "anthropic"
    then "claude-code"
    else if provider == "openai"
    then "opencode"
    else "generic"

-- inferClientName
unfoldable pub infer_client_name : String → List TransactionEntry → String
unfolding first_named container_client get_header contains detect_client_from_entries
    provider_client
infer_client_name provider es =
    let adapter = adapter_name (detect_client_from_entries es) in
    or_name (first_named (λ e. container_client e.container_name) es) (
      or_name (first_named (λ e. header_client e.request_headers) es) (
        or_name (first_named (λ e. hinted_client e.result) es)
          (if adapter == "generic" then provider_client provider else adapter)))
