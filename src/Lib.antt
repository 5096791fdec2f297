-- ===== src/Lib.antt =====
-- greyproxy: a proxy that lets the connections of sandboxed containers through only by rules, and asks
-- the user about the others. This library models the part that decides (internal/greyproxy, with
-- internal/greyproxy/plugins/bypass.go) and proves what it promises.
--
-- How the parts interact. A connection reaches Bypass.Contains (Bypass.antt), which identifies its
-- container, resolves its host name through the DNS cache (DnsCache.antt), and asks the silent mode
-- (AllowAll.antt), the sessions (Store/Sessions.antt) and the rules (Store/Matching.antt, over the
-- patterns of Patterns.antt). A connection without a rule is recorded as a pending request
-- (Store/Pending.antt), counted as waiting (Waiters.antt), and held until an event of the bus
-- (Events.antt) announces a decision of the user, which writes a rule (Store/Approval.antt,
-- Store/Rules.antt). The entry of the log is Store/Logs.antt. In the requests that pass, the
-- placeholders of credentials are replaced (CredentialStore.antt); of those that the endpoint rules
-- know (EndpointRegistry.antt), a dissector reads the messages (Dissector.antt), from which the
-- conversations are put together (Conversation.antt).
--
-- Which file models what, under internal/greyproxy:
--   Go: what the program uses of Go's standard library (strings, strconv, path/filepath.Match,
--   net.ParseIP, net.ParseCIDR, net.SplitHostPort).
--   Patterns: patterns.go.
--   Store: the tables of migrations.go and models.go as lists of rows in the order of their row ids.
--   Store/Rules, Matching, Pending, Approval, Ingest and Logs: crud.go. Store/Sessions: credential_crud.go.
--   Store/Queries and Store/Like: the listings of crud.go. Transactions: the HTTP transactions of crud.go.
--   ConnTracker: conn_tracker.go. EndpointRegistry: endpoint_registry.go. Redact: redact.go.
--   Events: events.go. Waiters: waiters.go. AllowAll: allowall.go. DnsCache: dns_cache.go.
--   DockerResolver: docker_resolver.go. EndpointRegistry/Table: the table of the endpoint rules;
--   EndpointRegistry/Routing: which dissector reads a request, with dissector/dissector.go.
--   CredentialStore: credential_store.go; CredentialStore/Globals: credential_crud.go.
--   Dissector: the data of dissector/dissector.go; Dissector/Sse: dissector/sse.go.
--   Conversation: conversation_assembler.go, session_strategy.go, subagent_strategy.go,
--   scaffolding.go, client_adapter.go and client_*.go.
--   Middleware: middleware/cascade.go and middleware/filter.go. Middleware/Pending: pending.go.
--   Bypass: plugins/bypass.go, and the client ids of plugins/auther.go.
-- A function of the source keeps its name in snake case. A method that changes its receiver or the
-- database returns the new state; an error is a result. A map is an association list.
--
-- Bounds. Texts are lists of code points, and letter case is mapped in ASCII only. Numbers are
-- unbounded; where the source reads an int64 from text, its range is kept (Go/Strconv). Times are
-- whole seconds, durations stay below 2^63 nanoseconds, and one call sees one time. A statement of
-- SQL fails only by a constraint of its table. sort.Slice leaves the order of equal elements open:
-- the model sorts by insertion. The recursions are structural, but for the loop of
-- Transactions/Maintenance, whose fuel is one round more than there are rows. What happens while a
-- connection is held is an explicit sequence of wakes, and the calls on the silent mode and on the
-- waiters are sequences of steps.
--
-- Not modelled: the copies of the GOST libraries (gostx, gostcore, gosocks5) and the TLS dissector;
-- the web pages and API handlers; what the dissectors read from JSON; the loading and the writing
-- of conversations; notifications, settings and encryption, which are input and output around the
-- decision; the statistics of the dashboard. The resolver of the operating system, the answers of
-- Docker, the decoder of JSON, the cipher and the hash of a system prompt are parameters.
pub mod Prelude
pub mod Go
pub mod Patterns
pub mod Store
pub mod Events
pub mod Transactions
pub mod Waiters
pub mod AllowAll
pub mod DnsCache
pub mod Bypass
pub mod ConnTracker
pub mod EndpointRegistry
pub mod Redact
pub mod CredentialStore
pub mod Dissector
pub mod Conversation
pub mod DockerResolver
pub mod Middleware
mod Tests
