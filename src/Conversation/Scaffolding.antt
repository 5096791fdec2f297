-- ===== src/Conversation/Scaffolding.antt =====
-- internal/greyproxy/scaffolding.go: what a client adds to the messages of its user. The regular
-- expressions all have the form `(?s)<tag>.*?</tag>`: a pair of tags and the least text in between.
use greyproxy.Prelude.{
  ℕ, zero, suc, ◌+◌, String, Bool, true, false, not, ◌&&◌, Option, none, some, List, [], ◌∷◌, ◌++◌,
  ◌==◌, nat_eq, list_eq, string_eq, if◌then◌else◌, any, drop, length,
}
use greyproxy.Go.Strings.{Str, codes, has_prefix, trim_space, join}
use greyproxy.Go.Search.{cut}
use greyproxy.Dissector.{Message, ContentBlock}

pub record ScaffoldingConfig : Type 0 where
  pub exact_texts : List Str
  pub prefix_patterns : List Str
  pub xml_tag_patterns : List (Str × Str)

-- The length of what the pattern matches at the start of the text.
abbrev inner_length : Str → Str → Option (Str × Str) → Option ℕ
inner_length open_tag close_tag none = none
inner_length open_tag close_tag (some (inner, rest)) =
    some (length open_tag + (length inner + length close_tag))

unfoldable pub match_tags : Str → Str → Str → Option ℕ
unfolding has_prefix cut
match_tags open_tag close_tag s =
    if has_prefix s open_tag
    then inner_length open_tag close_tag (cut (drop (length open_tag) s) close_tag)
    else none

-- `pat.ReplaceAllString(text, "")`: `skip` characters are left of the last match.
unfoldable pub remove_tags : Str → Str → ℕ → Str → Str
unfolding match_tags
remove_tags open_tag close_tag skip [] = []
remove_tags open_tag close_tag (suc skip) (c ∷ s) = remove_tags open_tag close_tag skip s
remove_tags open_tag close_tag zero (c ∷ s) = elim (match_tags open_tag close_tag (c ∷ s)) [
  | some (suc n) ↦ remove_tags open_tag close_tag n s
  | _ ↦ c ∷ remove_tags open_tag close_tag zero s
]

is_exact : ScaffoldingConfig → Str → Bool
unfolding any
is_exact cfg text = any (λ t. t == text) cfg.exact_texts

-- IsScaffoldingText
unfoldable pub is_scaffolding_text : ScaffoldingConfig → Str → Bool
unfolding is_exact has_prefix trim_space any
is_scaffolding_text cfg text =
    let stripped = trim_space text in
    if is_exact cfg stripped then true else any (λ p. has_prefix stripped p) cfg.prefix_patterns

remove_all_tags : List (Str × Str) → Str → Str
unfolding remove_tags
remove_all_tags [] text = text
remove_all_tags ((open_tag, close_tag) ∷ pats) text =
    remove_all_tags pats (remove_tags open_tag close_tag zero text)

-- CleanText
unfoldable pub clean_text : ScaffoldingConfig → Str → Str
unfolding remove_all_tags trim_space
clean_text cfg text = trim_space (remove_all_tags cfg.xml_tag_patterns text)

-- A text block that the user wrote.
unfoldable pub is_real_text : ScaffoldingConfig → ContentBlock → Bool
unfolding trim_space is_scaffolding_text
is_real_text cfg b =
    b.kind == "text"
    && not (trim_space b.text == [])
    && not (is_scaffolding_text cfg (trim_space b.text))

-- IsRealUserMessage: a message that holds only results of tools has no such text.
unfoldable pub is_real_user_message : ScaffoldingConfig → Message → Bool
unfolding is_scaffolding_text is_real_text trim_space any
is_real_user_message cfg msg =
    if not (msg.raw_content == [])
    then (if is_scaffolding_text cfg msg.raw_content
        then false
        else not (trim_space msg.raw_content == []))
    else any (is_real_text cfg) msg.content

abbrev shown : ScaffoldingConfig → Str → Option Str
shown cfg cleaned =
    if cleaned == [] then none else if is_exact cfg cleaned then none else some cleaned

abbrev add_shown : Option Str → List Str → List Str
add_shown none texts = texts
add_shown (some text) texts = text ∷ texts

block_texts : ScaffoldingConfig → List ContentBlock → List Str
unfolding is_real_text clean_text is_exact trim_space
block_texts cfg [] = []
block_texts cfg (b ∷ bs) =
    let rest = block_texts cfg bs in
    if is_real_text cfg b
    then add_shown (shown cfg (clean_text cfg (trim_space b.text))) rest
    else rest

abbrev joined : List Str → Option Str
joined [] = none
joined (t ∷ ts) = some (join b'\n' (t ∷ ts))

-- GetUserText
unfoldable pub get_user_text : ScaffoldingConfig → Message → Option Str
unfolding is_scaffolding_text clean_text is_exact block_texts join
get_user_text cfg msg =
    if not (msg.raw_content == [])
    then (if is_scaffolding_text cfg msg.raw_content
        then none
        else shown cfg (clean_text cfg msg.raw_content))
    else joined (block_texts cfg msg.content)

abbrev tag : String → Str × Str
tag name = (b'<' ∷ (codes name ++ b'>' ∷ []), b'<' ∷ b'/' ∷ (codes name ++ b'>' ∷ []))

abbrev pub claude_code_scaffolding : ScaffoldingConfig
claude_code_scaffolding = record {
  exact_texts = codes "Tool loaded." ∷ codes "[Request interrupted by user]" ∷ codes "clear" ∷ [];
  prefix_patterns =
      codes "<available-deferred-tools>"
      ∷ codes "<system-reminder>"
      ∷ codes "<local-command-caveat>"
      ∷ [];
  xml_tag_patterns =
      tag "local-command-caveat"
      ∷ tag "command-name"
      ∷ tag "command-message"
      ∷ tag "command-args"
      ∷ tag "local-command-stdout"
      ∷ [];
}

abbrev pub no_scaffolding : ScaffoldingConfig
no_scaffolding = record { exact_texts = []; prefix_patterns = []; xml_tag_patterns = [] }

abbrev pub codex_scaffolding : ScaffoldingConfig
codex_scaffolding = record {
  exact_texts = [];
  prefix_patterns = codes "<environment_context>" ∷ codes "<permissions>" ∷ [];
  xml_tag_patterns = tag "environment_context" ∷ tag "permissions" ∷ [];
}

abbrev pub gemini_cli_scaffolding : ScaffoldingConfig
gemini_cli_scaffolding = record {
  exact_texts = [];
  prefix_patterns = codes "<session_context>" ∷ [];
  xml_tag_patterns = tag "session_context" ∷ tag "extension_context" ∷ tag "loaded_context" ∷ [];
}

-- ScaffoldingForClient; a name that is none of these has the configuration of Claude Code.
unfoldable pub scaffolding_for_client : String → ScaffoldingConfig
scaffolding_for_client name =
    if name == "claude-code"
    then claude_code_scaffolding
    else if name == "opencode"
    then no_scaffolding
    else if name == "codex"
    then codex_scaffolding
    else if name == "gemini-cli"
    then gemini_cli_scaffolding
    else if name == "aider"
    then no_scaffolding
    else claude_code_scaffolding
