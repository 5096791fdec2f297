-- ===== src/DockerResolver.antt =====
-- internal/greyproxy/docker_resolver.go: from addresses to the names of containers. What the Docker
-- daemon answers is an argument: `none` is an error of the request or of its body.
pub mod Staleness
use greyproxy.Prelude.{
  ℕ, ◌+◌, Bool, true, false, Option, none, some, List, [], ◌∷◌, ltb, ◌==◌, nat_eq, list_eq,
  if◌then◌else◌, any, length, take, drop,
}
use greyproxy.Go.Strings.{Str, codes, has_prefix}
use greyproxy.Go.Maps.{get, put}

pub record DockerCacheEntry : Type 0 where
  pub container_name : Str
  pub container_id : Str
  pub expires_at : ℕ

abbrev pub Cache : Type 0
Cache = List (Str × DockerCacheEntry)

pub record DockerContainerSummary : Type 0 where
  pub id : Str
  pub names : List Str
  pub addresses : List Str

unfoldable pub short_id : Str → Str
short_id id = if ltb 12 (length id) then take 12 id else id

trim_slash : Str → Str
unfolding has_prefix
trim_slash name = if has_prefix name (codes "/") then drop 1 name else name

abbrev name_of : Str → List Str → Str
name_of id [] = short_id id
name_of id (name ∷ names) = trim_slash name

-- containerNameFromDocker
unfoldable pub container_name_from_docker : DockerContainerSummary → Str
unfolding short_id trim_slash
container_name_from_docker c = name_of c.id c.names

-- queryDockerForIP: the name and the short id; both are empty if no container has the address.
unfoldable pub find_container : Str → List DockerContainerSummary → Str × Str
unfolding container_name_from_docker short_id any
find_container ip [] = ([], [])
find_container ip (c ∷ containers) =
    let rest = find_container ip containers in
    if any (λ a. a == ip) c.addresses then (container_name_from_docker c, short_id c.id) else rest

-- The TTL that a resolver has for the configured one.
unfoldable pub cache_ttl : ℕ → ℕ
cache_ttl ttl = if ttl == 0 then 30 else ttl

abbrev pub Answer : Type 0
Answer = Option (List DockerContainerSummary)

abbrev pub fresh : ℕ → Option DockerCacheEntry → Option (Str × Str)
fresh now none = none
fresh now (some e) = if ltb now e.expires_at then some (e.container_name, e.container_id) else none

abbrev pub store_found : ℕ → Str → Cache → Str × Str → Cache × (Str × Str)
store_found expires ip cache (name, id) = if name == [] then (cache, ([], [])) else (
  put ip (record { container_name = name; container_id = id; expires_at = expires }) cache,
  (name, id),
)

abbrev pub on_answer : ℕ → Str → Cache → Answer → Cache × (Str × Str)
on_answer expires ip cache none = (cache, ([], []))
on_answer expires ip cache (some containers) =
    store_found expires ip cache (find_container ip containers)

abbrev pub or_query : ℕ → Str → Answer → Cache → Option (Str × Str) → Cache × (Str × Str)
or_query expires ip answer cache (some found) = (cache, found)
or_query expires ip answer cache none = on_answer expires ip cache answer

-- ResolveIP
unfoldable pub resolve_ip : ℕ → ℕ → Str → Answer → Cache → Cache × (Str × Str)
unfolding find_container get put
resolve_ip ttl now ip answer cache =
    if ip == []
    then (cache, ([], []))
    else or_query (now + ttl) ip answer cache (fresh now (get ip cache))
