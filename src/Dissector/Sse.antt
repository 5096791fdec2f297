-- ===== src/Dissector/Sse.antt =====
-- internal/greyproxy/dissector/sse.go: the parsers of server-sent events.
use greyproxy.Prelude.{
  Bool, true, false, not, ◌&&◌, List, [], ◌∷◌, ◌++◌, ◌==◌, nat_eq, list_eq, if◌then◌else◌, drop,
}
use greyproxy.Go.Strings.{Str, codes, has_prefix, trim_space, trim_right, split}

pub record SseEvent : Type 0 where
  pub event : Str
  pub payload : Str

abbrev pub no_event : SseEvent
no_event = record { event = []; payload = [] }

-- The variables of the loop of ParseSSE.
pub record Scan : Type 0 where
  pub events : List SseEvent
  pub current : SseEvent
  pub has_data : Bool

abbrev pub flush : Scan → Scan
flush s =
    if s.has_data
    then record { events = s.events ++ s.current ∷ []; current = no_event; has_data = false }
    else s

abbrev take_data : Str → Scan → Scan
take_data payload s =
    if payload == codes "[DONE]"
    then s
    else record s { current = record s.current { payload = payload }; has_data = true }

-- One line, without its carriage returns.
unfoldable pub scan_line : Str → Scan → Scan
unfolding has_prefix
scan_line line s =
    if line == []
    then flush s
    else if has_prefix line (codes "event: ")
    then record s { current = record s.current { event = drop 7 line }; has_data = true }
    else if has_prefix line (codes "data: ")
    then take_data (drop 6 line) s
    else s

unfoldable pub strip_cr : Str → Str
unfolding trim_right
strip_cr line = trim_right (λ c. c == 13) line

unfoldable pub scan_lines : List Str → Scan → Scan
unfolding scan_line strip_cr
scan_lines [] s = s
scan_lines (line ∷ lines) s = scan_lines lines (scan_line (strip_cr line) s)

unfoldable pub parse_lines : List Str → List SseEvent
unfolding scan_lines
parse_lines lines =
    (flush (scan_lines lines (record { events = []; current = no_event; has_data = false }))).events

-- ParseSSE
unfoldable pub parse_sse : Str → List SseEvent
unfolding trim_space has_prefix split parse_lines
parse_sse body =
    let trimmed = trim_space body in
    if not (has_prefix trimmed (codes "event:")) && not (has_prefix trimmed (codes "data:"))
    then []
    else parse_lines (split b'\n' trimmed)

-- The loop of ParseSSEDataOnly, which stops at the sentinel.
unfoldable pub data_lines : List Str → List Str
unfolding has_prefix strip_cr
data_lines [] = []
data_lines (line ∷ lines) =
    let rest = data_lines lines in
    let bare = strip_cr line in
    let payload = drop 6 bare in
    if not (has_prefix bare (codes "data: "))
    then rest
    else if payload == codes "[DONE]"
    then []
    else if payload == []
    then rest
    else payload ∷ rest

-- ParseSSEDataOnly
unfoldable pub parse_sse_data_only : Str → List Str
unfolding data_lines trim_space split
parse_sse_data_only body = data_lines (split b'\n' (trim_space body))
