-- ===== src/Go/HostPort.antt =====
-- `net.SplitHostPort`; `none` is an error, for which Go returns empty texts.
use greyproxy.Prelude.{ℕ, not, ◌&&◌, ◌||◌, Option, none, some, [], ◌∷◌, ◌==◌, nat_eq, if◌then◌else◌}
use greyproxy.Go.Strings.{Str, has_char, cut_char}

-- Before and after the last `k`.
unfoldable pub cut_last : ℕ → Str → Option (Str × Str)
cut_last k [] = none
cut_last k (c ∷ s) = elim (cut_last k s) [
  | some (a, b) ↦ some (c ∷ a, b)
  | none ↦ if c == k then some ([], s) else none
]

-- Behind the closing bracket stand a colon, the last one, and the port.
in_brackets : Option (Str × Str) → Option (Str × Str)
in_brackets none = none
in_brackets (some (host, [])) = none
in_brackets (some (host, c ∷ port)) =
    if c == b':'
      && not (has_char b':' port)
      && not (has_char b'[' host || has_char b'[' port)
      && not (has_char b']' port)
    then some (host, port)
    else none

no_brackets : Option (Str × Str) → Option (Str × Str)
no_brackets none = none
no_brackets (some (host, port)) =
    if has_char b':' host
      || has_char b'[' host
      || has_char b'[' port
      || has_char b']' host
      || has_char b']' port
    then none
    else some (host, port)

unfoldable pub split_host_port : Str → Option (Str × Str)
unfolding in_brackets no_brackets cut_last cut_char
split_host_port [] = none
split_host_port (c ∷ s) =
    if c == b'[' then in_brackets (cut_char b']' s) else no_brackets (cut_last b':' (c ∷ s))
