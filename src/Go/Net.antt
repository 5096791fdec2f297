-- ===== src/Go/Net.antt =====
-- Package net: SplitHostPort, ParseIP and ParseCIDR. An address is a number with its width.
use greyproxy.Prelude.{
  ℕ, zero, suc, ◌+◌, ◌-◌, ◌*◌, ◌/◌, ◌%◌, ◌^◌, Bool, true, false, ◌&&◌, Option, none, some, List, [],
  ◌∷◌, ◌++◌, leb, ◌==◌, nat_eq, list_eq, if◌then◌else◌, length,
}
use greyproxy.Go.Strings.{Str, codes, has_char, split, cut_char}
use greyproxy.Go.Search.{cut}
use greyproxy.Go.Strconv.{is_digit}

pub data Ip : Type 0 where
  v4 v6 : ℕ → Ip

-- One decimal field of an IPv4 address: no sign, no leading zero, at most 255.
decimal : ℕ → Str → Option ℕ
unfolding is_digit
decimal n [] = some n
decimal n (c ∷ s) =
    let n' = n * 10 + (c - b'0') in
    let rest = decimal n' s in if is_digit c && leb n' 255 then rest else none

octet : Str → Option ℕ
unfolding decimal
octet [] = none
octet (c ∷ []) = decimal 0 (c ∷ [])
octet (c ∷ s) = if c == b'0' then none else decimal 0 (c ∷ s)

infixl 5 ◌>>=◌
abbrev ◌>>=◌ {ℓ κ} : {A : Type ℓ} {B : Type κ} → Option A → (A → Option B) → Option B
none >>= f = none
some a >>= f = f a

four : List Str → Option ℕ
unfolding octet
four (a ∷ b ∷ c ∷ d ∷ []) = do
  p ← octet a
  q ← octet b
  r ← octet c
  s ← octet d
  some (((p * 256 + q) * 256 + r) * 256 + s)
four _ = none

unfoldable pub parse_ipv4 : Str → Option ℕ
unfolding four split
parse_ipv4 s = four (split b'.' s)

hex_digit : ℕ → Option ℕ
unfolding is_digit
hex_digit c =
    if is_digit c
    then some (c - b'0')
    else if leb b'a' c && leb c b'f'
    then some (c - b'a' + 10)
    else if leb b'A' c && leb c b'F'
    then some (c - b'A' + 10)
    else none

hex : ℕ → Str → Option ℕ
unfolding hex_digit
hex n [] = some n
hex n (c ∷ s) = do d ← hex_digit c; hex (n * 16 + d) s

-- One field of an IPv6 address: one to four hexadecimal digits.
field16 : Str → Option ℕ
unfolding hex
field16 [] = none
field16 s = if leb (length s) 4 then hex 0 s else none

-- The 16-bit fields of a run between colons; the last may be an IPv4 address if `tail4` says so.
fields : Bool → List Str → Option (List ℕ)
unfolding field16 parse_ipv4 has_char
fields tail4 [] = some []
fields tail4 (s ∷ []) =
    if tail4 && has_char b'.' s
    then (do n ← parse_ipv4 s; some (n / 65536 ∷ n % 65536 ∷ []))
    else (do n ← field16 s; some (n ∷ []))
fields tail4 (s ∷ ss) = do n ← field16 s; ns ← fields tail4 ss; some (n ∷ ns)

run : Bool → Str → Option (List ℕ)
unfolding fields split
run tail4 [] = some []
run tail4 s = fields tail4 (split b':' s)

-- Sixteen bits at a time, the first field highest.
value : ℕ → List ℕ → ℕ
value acc [] = acc
value acc (n ∷ ns) = value (acc * 65536 + n) ns

zeros : ℕ → List ℕ → List ℕ
zeros zero ns = ns
zeros (suc k) ns = 0 ∷ zeros k ns

whole : List ℕ → Option ℕ
unfolding value
whole ns = if length ns == 8 then some (value 0 ns) else none

-- `::` stands for at least one field of zeros.
spread : List ℕ → List ℕ → Option ℕ
unfolding value zeros
spread a b =
    let k = length a + length b in if leb k 7 then some (value 0 (a ++ zeros (8 - k) b)) else none

halves : Str → Option (Str × Str) → Option ℕ
unfolding run whole spread
halves s none = if s == [] then none else (do ns ← run true s; whole ns)
halves s (some (a, b)) = do l ← run false a; r ← run true b; spread l r

unfoldable pub parse_ipv6 : Str → Option ℕ
unfolding halves cut
parse_ipv6 s = halves s (cut s (codes "::"))

-- Whether a colon stands before any dot.
colon_first : Str → Bool
colon_first [] = false
colon_first (c ∷ s) = if c == b':' then true else if c == b'.' then false else colon_first s

-- `netip.ParseAddr` with no zone: the first of `.`, `:` and `%` chooses the reader.
unfoldable pub parse_ip : Str → Option Ip
unfolding parse_ipv4 parse_ipv6 has_char colon_first
parse_ip s =
    if has_char b'%' s
    then none
    else if has_char b':' s
    then (if colon_first s then (do n ← parse_ipv6 s; some (v6 n)) else none)
    else (do n ← parse_ipv4 s; some (v4 n))

pub record Cidr : Type 0 where
  pub network : Ip
  pub prefix : ℕ

width : Ip → ℕ
width (v4 n) = 32
width (v6 n) = 128

-- `dtoi`: the digits of the prefix length, the whole text.
digits : ℕ → Str → Option ℕ
unfolding is_digit
digits n [] = some n
digits n (c ∷ s) = let rest = digits (n * 10 + (c - b'0')) s in if is_digit c then rest else none

mask_length : Str → Option ℕ
unfolding digits
mask_length [] = none
mask_length (c ∷ s) = digits 0 (c ∷ s)

within : Ip → ℕ → Option Cidr
unfolding width
within ip n = if leb n (width ip) then some (record { network = ip; prefix = n }) else none

on_cut : Option (Str × Str) → Option Cidr
unfolding within mask_length parse_ip
on_cut none = none
on_cut (some (addr, mask)) = do ip ← parse_ip addr; n ← mask_length mask; within ip n

-- `net.ParseCIDR`, the network part.
unfoldable pub parse_cidr : Str → Option Cidr
unfolding on_cut cut_char
parse_cidr s = on_cut (cut_char b'/' s)

-- `IP.To4`: an IPv4-mapped IPv6 address is its IPv4 address.
to4 : Ip → Ip
to4 (v4 n) = v4 n
to4 (v6 n) = if n / 2 ^ 32 == 65535 then v4 (n % 2 ^ 32) else v6 n

masked : ℕ → ℕ → ℕ
masked shift n = n / 2 ^ shift * 2 ^ shift

same_block : ℕ → ℕ → ℕ → Bool
same_block shift m n = m / 2 ^ shift == n / 2 ^ shift

compare_in : Ip → ℕ → Ip → Bool
unfolding same_block
compare_in (v4 m) p (v4 n) = same_block (32 - p) m n
compare_in (v6 m) p (v6 n) = same_block (128 - p) m n
compare_in _ p _ = false

-- `IPNet.Contains`: a mapped network is an IPv4 network, its prefix 96 bits shorter.
in_network : Ip → ℕ → Ip → Bool
unfolding to4 masked compare_in
in_network (v4 m) p ip = compare_in (v4 m) p (to4 ip)
in_network (v6 m) p ip = elim (to4 (v6 (masked (128 - p) m))) [
  | v4 k ↦ compare_in (v4 k) (p - 96) (to4 ip)
  | v6 k ↦ compare_in (v6 k) p (to4 ip)
]

unfoldable pub cidr_contains : Cidr → Ip → Bool
unfolding in_network
cidr_contains cidr ip = in_network cidr.network cidr.prefix ip
