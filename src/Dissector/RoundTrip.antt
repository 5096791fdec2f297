-- ===== src/Dissector/RoundTrip.antt =====
-- ParseSSE reads back the events of a stream.
use mathlib.Core.List.{append_assoc}
use greyproxy.Prelude.{
  ℕ, ◌≡◌, ◌≢◌, refl, sym, ap, ◌∙◌, Bool, true, false, List, [], ◌∷◌, ◌++◌, ◌==◌, nat_eq, list_eq,
  list_eqb, ==_ne, arith, All,
}
use greyproxy.Go.Strings.{
  Str, codes, has_prefix, is_space, trim_left, trim_right, trim_space, split, split-append,
  split-no_char, has_char,
}
use greyproxy.Go.Trim.{EndsOutside, trim_right_none, trim_right-two}
use greyproxy.Dissector.Sse.{
  SseEvent, no_event, Scan, flush, scan_line, scan_lines, strip_cr, parse_lines, parse_sse,
}

-- A value that stands in a line: no line break in it, and no white space at its end.
abbrev pub IsLine : Str → Type 0
IsLine s = EndsOutside is_space s × (has_char b'\n' s ≡ false)

abbrev pub IsClean : SseEvent → Type 0
IsClean e = IsLine e.event × IsLine e.payload × (e.payload ≢ codes "[DONE]")

abbrev event_line : SseEvent → Str
event_line e = codes "event: " ++ e.event

abbrev data_line : SseEvent → Str
data_line e = codes "data: " ++ e.payload

-- The stream, as the servers send it: each event is ended by an empty line.
abbrev pub wire : List SseEvent → Str
wire [] = []
wire (e ∷ es) =
    codes "event: "
    ++ (e.event ++ b'\n' ∷ (codes "data: " ++ (e.payload ++ b'\n' ∷ b'\n' ∷ wire es)))

-- The stream without the line breaks at its end, and its lines.
joined : SseEvent → List SseEvent → Str
joined e [] = event_line e ++ b'\n' ∷ data_line e
joined e (e' ∷ es) = event_line e ++ b'\n' ∷ (data_line e ++ b'\n' ∷ b'\n' ∷ joined e' es)

lines : SseEvent → List SseEvent → List Str
lines e [] = event_line e ∷ data_line e ∷ []
lines e (e' ∷ es) = event_line e ∷ data_line e ∷ [] ∷ lines e' es

wire-eq-joined :
    (e : SseEvent) (es : List SseEvent) → wire (e ∷ es) ≡ joined e es ++ b'\n' ∷ b'\n' ∷ []
unfolding joined
wire-eq-joined e [] = simp append_assoc
wire-eq-joined e (e' ∷ es) = rw (wire-eq-joined e' es) (simp append_assoc)

EndsOutside-append : (f : ℕ → Bool) (p s : Str) → EndsOutside f s → EndsOutside f (p ++ s)
EndsOutside-append f p s (t, c, e, h) =
    (p ++ t, c, ap (λ r. p ++ r) e ∙ sym (append_assoc p t (c ∷ [])), h)

joined-EndsOutside :
    (e : SseEvent) (es : List SseEvent) → All IsClean (e ∷ es) → EndsOutside is_space (joined e es)
unfolding joined
joined-EndsOutside e [] h =
    EndsOutside-append is_space (event_line e) (b'\n' ∷ data_line e)
      (EndsOutside-append is_space (b'\n' ∷ codes "data: ") e.payload h.0.1.0)
joined-EndsOutside e (e' ∷ es) h =
    EndsOutside-append is_space (event_line e)
      (b'\n' ∷ (data_line e ++ b'\n' ∷ b'\n' ∷ joined e' es))
      (EndsOutside-append is_space (b'\n' ∷ data_line e) (b'\n' ∷ b'\n' ∷ joined e' es) (
        EndsOutside-append is_space (b'\n' ∷ b'\n' ∷ []) (joined e' es)
          (joined-EndsOutside e' es h.1)))

trim-wire :
    (e : SseEvent) (es : List SseEvent)
    → All IsClean (e ∷ es)
    → trim_space (wire (e ∷ es)) ≡ joined e es
unfolding trim_space trim_left is_space
trim-wire e es h =
    ap (trim_right is_space) (wire-eq-joined e es)
    ∙ trim_right-two is_space (joined e es) b'\n' b'\n' refl refl
    ∙ trim_right_none is_space (joined e es) (joined-EndsOutside e es h)

has_char-append :
    (k : ℕ) (p s : Str) → has_char k p ≡ false → has_char k s ≡ false → has_char k (p ++ s) ≡ false
unfolding has_char
has_char-append k [] s hp hs = hs
has_char-append k (c ∷ p) s hp hs = ground (arith, has_char-append k p s)

one_line :
    (e : SseEvent)
    → IsClean e
    → (has_char b'\n' (event_line e) ≡ false) × (has_char b'\n' (data_line e) ≡ false)
unfolding has_char
one_line e h = (
  has_char-append b'\n' (codes "event: ") e.event refl h.0.1,
  has_char-append b'\n' (codes "data: ") e.payload refl h.1.1,
)

split-joined :
    (e : SseEvent) (es : List SseEvent)
    → All IsClean (e ∷ es)
    → split b'\n' (joined e es) ≡ lines e es
unfolding joined lines split
split-joined e [] h =
    let (ev, da) = one_line e h.0 in
    split-append b'\n' (event_line e) (data_line e) ev
    ∙ ap (λ r. event_line e ∷ r) (split-no_char b'\n' (data_line e) da)
split-joined e (e' ∷ es) h =
    let (ev, da) = one_line e h.0 in
    split-append b'\n' (event_line e) (data_line e ++ b'\n' ∷ b'\n' ∷ joined e' es) ev
    ∙ ap (λ r. event_line e ∷ r)
        (split-append b'\n' (data_line e) (b'\n' ∷ joined e' es) da
          ∙ ap (λ r. data_line e ∷ [] ∷ r) (split-joined e' es h.1))

EndsOutside-cr : (s : Str) → EndsOutside is_space s → EndsOutside (λ c. c == 13) s
unfolding is_space
EndsOutside-cr s (t, c, e, h) = (t, c, e, ground arith)

strip_cr-line : (p s : Str) → EndsOutside is_space s → strip_cr (p ++ s) ≡ p ++ s
unfolding strip_cr
strip_cr-line p s h =
    trim_right_none (λ c. c == 13) (p ++ s)
      (EndsOutside-cr (p ++ s) (EndsOutside-append is_space p s h))

-- An event that is complete, after those that were read before.
abbrev at : List SseEvent → SseEvent → Bool → Scan
at events current has_data = record { events = events; current = current; has_data = has_data }

scan_event :
    (e : SseEvent) (rest : List Str) (before : List SseEvent)
    → IsClean e
    → scan_lines (event_line e ∷ data_line e ∷ rest) (at before no_event false)
      ≡ scan_lines rest (at before e true)
unfolding scan_lines scan_line has_prefix list_eqb
scan_event e rest before h = rw (
  strip_cr-line (codes "event: ") e.event h.0.0,
  strip_cr-line (codes "data: ") e.payload h.1.0,
  ==_ne e.payload (codes "[DONE]") h.2,
)

scan-lines :
    (e : SseEvent) (es : List SseEvent) (before : List SseEvent)
    → All IsClean (e ∷ es)
    → (flush (scan_lines (lines e es) (at before no_event false))).events ≡ before ++ e ∷ es
unfolding scan_lines scan_line lines strip_cr trim_right list_eqb
scan-lines e [] before h = rw (scan_event e [] before h.0)
scan-lines e (e' ∷ es) before h =
    rw (scan_event e ([] ∷ lines e' es) before h.0)
      (scan-lines e' es (before ++ e ∷ []) h.1 ∙ append_assoc before (e ∷ []) (e' ∷ es))

starts-joined :
    (e : SseEvent) (es : List SseEvent) → has_prefix (joined e es) (codes "event:") ≡ true
unfolding joined has_prefix
starts-joined e [] = refl
starts-joined e (e' ∷ es) = refl

-- ParseSSE reads exactly the events that were sent, in their order, where the name and the data of each
-- are not empty, hold no line break and end in no white space, and no data is the sentinel that ends a
-- stream.
pub parse_sse-wire : (es : List SseEvent) → All IsClean es → parse_sse (wire es) ≡ es
unfolding parse_sse parse_lines
parse_sse-wire [] h = refl
parse_sse-wire (e ∷ es) h =
    rw (trim-wire e es h, starts-joined e es, split-joined e es h) (scan-lines e es [] h)
