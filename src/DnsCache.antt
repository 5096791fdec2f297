-- ===== src/DnsCache.antt =====
-- internal/greyproxy/dns_cache.go: from addresses to host names, in memory and in the table
-- `dns_cache`. Times are seconds. The resolver of the operating system is a parameter. The write to
-- the table, which the code makes in the background, is taken with the call.
pub mod Lookup
use greyproxy.Prelude.{
  ℕ, ◌+◌, ◌-◌, Bool, true, false, not, ◌&&◌, Option, none, some, List, [], ◌∷◌, ◌++◌, ltb, ◌==◌,
  nat_eq, list_eq, if◌then◌else◌, keep, first, map,
}
use greyproxy.Go.Strings.{Str}

pub record Entry : Type 0 where
  pub ip : Str
  pub hostname : Str
  pub expiry : ℕ

pub record Row : Type 0 where
  pub ip : Str
  pub hostname : Str
  pub updated_at : ℕ

pub record DnsCache : Type 0 where
  pub entries : List Entry
  pub table : List Row

abbrev pub ttl : ℕ
ttl = 3600

abbrev pub db_ttl : ℕ
db_ttl = 604800

-- `c.entries[ip] = …`
unfoldable pub set_entry : ℕ → Str → Str → List Entry → List Entry
unfolding keep
set_entry now hostname ip entries =
    record { ip = ip; hostname = hostname; expiry = now + ttl }
    ∷ keep (λ e. not (e.ip == ip)) entries

-- persistToDB: `INSERT OR REPLACE` on the key `ip`.
unfoldable pub persist_to_db : ℕ → Str → Str → List Row → List Row
unfolding keep
persist_to_db now hostname ip table =
    record { ip = ip; hostname = hostname; updated_at = now } ∷ keep (λ r. not (r.ip == ip)) table

abbrev not_expired : ℕ → Option Entry → Str
not_expired now none = []
not_expired now (some e) = if ltb e.expiry now then [] else e.hostname

-- GetCached
unfoldable pub get_cached : ℕ → Str → DnsCache → Str
unfolding first
get_cached now ip c = not_expired now (first (λ e. e.ip == ip) c.entries)

abbrev hostname_of : Option Row → Str
hostname_of none = []
hostname_of (some r) = r.hostname

-- getFromDB: the cutoff is before every time that is not older than the lifetime.
unfoldable pub get_from_db : ℕ → Str → DnsCache → Str
unfolding first
get_from_db now ip c =
    hostname_of (first (λ r. r.ip == ip && ltb now (r.updated_at + db_ttl)) c.table)

-- The entries that RegisterIPs writes, in the order of its loop.
register_ips_loop : ℕ → Str → List Str → DnsCache → DnsCache
unfolding set_entry persist_to_db
register_ips_loop now hostname [] c = c
register_ips_loop now hostname (ip ∷ ips) c = register_ips_loop now hostname ips (record {
  entries = set_entry now hostname ip c.entries;
  table = persist_to_db now hostname ip c.table;
})

-- RegisterIPs
unfoldable pub register_ips : ℕ → Str → List Str → DnsCache → DnsCache
unfolding register_ips_loop
register_ips = register_ips_loop

-- A host name from the resolver ends with a dot, which is removed.
unfoldable pub trim_dot : Str → Str
trim_dot [] = []
trim_dot (c ∷ []) = if c == b'.' then [] else c ∷ []
trim_dot (c ∷ d ∷ s) = c ∷ trim_dot (d ∷ s)

abbrev pub on_names : ℕ → Str → DnsCache → List Str → DnsCache × Str
on_names now ip c [] = (c, [])
on_names now ip c (name ∷ names) = (
  record {
    entries = set_entry now (trim_dot name) ip c.entries;
    table = persist_to_db now (trim_dot name) ip c.table;
  },
  trim_dot name,
)

abbrev pub on_db_name : (Str → List Str) → ℕ → Str → DnsCache → Str → DnsCache × Str
on_db_name lookup_addr now ip c [] = on_names now ip c (lookup_addr ip)
on_db_name lookup_addr now ip c (x ∷ name) =
    (record c { entries = set_entry now (x ∷ name) ip c.entries }, x ∷ name)

abbrev pub on_cached : (Str → List Str) → ℕ → Str → DnsCache → Str → DnsCache × Str
on_cached lookup_addr now ip c [] = on_db_name lookup_addr now ip c (get_from_db now ip c)
on_cached lookup_addr now ip c (x ∷ name) = (c, x ∷ name)

-- ResolveIP; `lookup_addr` gives no name where `net.LookupAddr` fails.
unfoldable pub resolve_ip : (Str → List Str) → ℕ → Str → DnsCache → DnsCache × Str
unfolding get_cached get_from_db set_entry persist_to_db trim_dot
resolve_ip lookup_addr now ip c = on_cached lookup_addr now ip c (get_cached now ip c)

-- RegisterHostname; `lookup_host` gives no address where the resolver fails.
unfoldable pub register_hostname : (Str → List Str) → ℕ → Str → DnsCache → DnsCache
unfolding register_ips
register_hostname lookup_host now hostname c = register_ips now hostname (lookup_host hostname) c

-- loadFromDB, at the start of the program.
unfoldable pub load_from_db : ℕ → DnsCache → DnsCache
unfolding keep
load_from_db now c = record c {
  entries =
      map (λ r. record { ip = r.ip; hostname = r.hostname; expiry = now + ttl })
        (keep (λ r. ltb now (r.updated_at + db_ttl)) c.table);
}
