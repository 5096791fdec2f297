-- ===== src/DnsCache/Lookup.antt =====
-- What a lookup in the cache finds after a registration.
use greyproxy.Prelude.{
  ℕ, ◌+◌, ◌<◌, ◌&&◌, ◌≡◌, ◌∙◌, true, false, Option, some, List, [], ◌∷◌, ltb, ◌==◌, list_eq, arith,
  first, In, Bool-cases, inl, inr, ==_refl, ==_comm, first-keep_apart, list_eqb_iff,
}
use greyproxy.Go.Strings.{Str}
use greyproxy.DnsCache.{
  DnsCache, Entry, Row, ttl, db_ttl, set_entry, persist_to_db, get_cached, get_from_db,
  register_ips, register_ips_loop, resolve_ip,
}

-- The first entry and the first fresh row for an address.
abbrev entry_of : Str → List Entry → Option Entry
entry_of ip = first (λ e. e.ip == ip)

abbrev row_of : ℕ → Str → List Row → Option Row
row_of later ip = first (λ r. r.ip == ip && ltb later (r.updated_at + db_ttl))

ne_key : (key ip other : Str) → (other == ip) ≡ false → (key == ip) ≡ true → (key == other) ≡ false
ne_key key ip other n q = rw ((list_eqb_iff key ip).0 q) (==_comm {A = Str} ip other ∙ n)

entry-set_same :
    (now : ℕ) (hostname ip : Str) (entries : List Entry)
    → entry_of ip (set_entry now hostname ip entries)
      ≡ some (record { ip = ip; hostname = hostname; expiry = now + ttl })
unfolding set_entry first
entry-set_same now hostname ip entries = rw (==_refl ip)

entry-set_other :
    (now : ℕ) (hostname ip other : Str) (entries : List Entry)
    → (other == ip) ≡ false
    → entry_of other (set_entry now hostname ip entries) ≡ entry_of other entries
unfolding set_entry first
entry-set_other now hostname ip other entries n =
    rw (==_comm {A = Str} ip other, n)
      (first-keep_apart (λ e. e.ip == other) (λ e. e.ip == ip) entries
        (λ e q. ne_key e.ip ip other n q))

row-persist_same :
    (now later : ℕ) (hostname ip : Str) (table : List Row)
    → later < now + db_ttl
    → row_of later ip (persist_to_db now hostname ip table)
      ≡ some (record { ip = ip; hostname = hostname; updated_at = now })
unfolding persist_to_db first
row-persist_same now later hostname ip table h = rw (==_refl ip) (ground (arith, h))

row-persist_other :
    (now later : ℕ) (hostname ip other : Str) (table : List Row)
    → (other == ip) ≡ false
    → row_of later other (persist_to_db now hostname ip table) ≡ row_of later other table
unfolding persist_to_db first
row-persist_other now later hostname ip other table n =
    rw (==_comm {A = Str} ip other, n)
      (first-keep_apart (λ r. r.ip == other && ltb later (r.updated_at + db_ttl)) (λ r. r.ip == ip)
        table (λ r q. rw (ne_key r.ip ip other n q)))

-- The cache and the table know the address under the name.
record Knows (now later : ℕ) (hostname ip : Str) (c : DnsCache) : Type 0 where
  entry : entry_of ip c.entries ≡ some (record { ip = ip; hostname = hostname; expiry = now + ttl })
  row : row_of later ip c.table ≡ some (record { ip = ip; hostname = hostname; updated_at = now })

module _ (now later : ℕ) (hostname : Str) (fresh : later < now + db_ttl) where
  write : Str → DnsCache → DnsCache
  write ip c = record {
    entries = set_entry now hostname ip c.entries;
    table = persist_to_db now hostname ip c.table;
  }

  written-Knows : (ip : Str) (c : DnsCache) → Knows now later hostname ip (write ip c)
  unfolding write
  written-Knows ip c = record {
    entry = entry-set_same now hostname ip c.entries;
    row = row-persist_same now later hostname ip c.table fresh;
  }

  write-Knows :
      (ip other : Str) (c : DnsCache)
      → Knows now later hostname other c
      → Knows now later hostname other (write ip c)
  unfolding write
  write-Knows ip other c k = elim (Bool-cases (other == ip)) [
    | inl q ↦ rw ((list_eqb_iff other ip).0 q) (written-Knows ip c)
    | inr q ↦ record {
      entry = entry-set_other now hostname ip other c.entries q ∙ k.entry;
      row = row-persist_other now later hostname ip other c.table q ∙ k.row;
    }
  ]

  loop-keeps :
      (ips : List Str) (ip : Str) (c : DnsCache)
      → Knows now later hostname ip c
      → Knows now later hostname ip (register_ips_loop now hostname ips c)
  unfolding register_ips_loop write
  loop-keeps [] ip c k = k
  loop-keeps (x ∷ ips) ip c k = loop-keeps ips ip (write x c) (write-Knows x ip c k)

  loop-Knows :
      (ips : List Str) (ip : Str) (c : DnsCache)
      → In ip ips
      → Knows now later hostname ip (register_ips_loop now hostname ips c)
  unfolding register_ips_loop write
  loop-Knows [] ip c i = absurd i
  loop-Knows (x ∷ ips) ip c (inl e) = loop-keeps ips ip (write x c) (rw e (written-Knows x c))
  loop-Knows (x ∷ ips) ip c (inr i) = loop-Knows ips ip (write x c) i

known-resolve :
    (lookup_addr : Str → List Str) (now later : ℕ) (x : ℕ) (name ip : Str) (c : DnsCache)
    → Knows now later (x ∷ name) ip c
    → (resolve_ip lookup_addr later ip c).1 ≡ x ∷ name
unfolding resolve_ip get_cached get_from_db
known-resolve lookup_addr now later x name ip c k = elim (Bool-cases (ltb (now + ttl) later)) [
  | inl old ↦ rw (k.entry, old, k.row)
  | inr young ↦ rw (k.entry, young)
]

pub register_ips-resolve :
    (lookup_addr : Str → List Str) (now later : ℕ) (x : ℕ) (name ip : Str) (ips : List Str)
    (c : DnsCache)
    → In ip ips
    → later < now + db_ttl
    → (resolve_ip lookup_addr later ip (register_ips now (x ∷ name) ips c)).1 ≡ x ∷ name
unfolding register_ips
register_ips-resolve lookup_addr now later x name ip ips c i h =
    known-resolve lookup_addr now later x name ip (register_ips now (x ∷ name) ips c)
      (loop-Knows now later (x ∷ name) h ips ip c i)
