-- ===== src/Tests/Resolvers.antt =====
-- The theorems on the Docker resolver and on the stash of middleware events at concrete inputs.
use greyproxy.Prelude.{
  ◌≡◌, ◌+◌, ◌<◌, ℕ, refl, false, none, some, List, [], ◌∷◌, ◌⊎◌, In, list_eqb, any,
}
use greyproxy.Go.Strings.{Str, codes}
use greyproxy.DockerResolver.{DockerContainerSummary, Answer, resolve_ip}
use greyproxy.DockerResolver.Staleness.{Call, after, Names, resolve_ip-not_stale}
use greyproxy.Middleware.Pending as Pending
use greyproxy.Middleware.Drain.{drain_events-waiting}

abbrev app : DockerContainerSummary
app = record {
  id = codes "0123456789abcdef";
  names = codes "/app-1" ∷ [];
  addresses = codes "10.0.0.7" ∷ [];
}

abbrev asked : List Call
asked = (100, codes "10.0.0.7", some (app ∷ [])) ∷ []

abbrev named : Str × Str
named = (codes "app-1", codes "0123456789ab")

kept : (resolve_ip 30 120 (codes "10.0.0.7") none (after 30 asked)).1 ≡ named
unfolding resolve_ip list_eqb any
kept = refl

resolve_ip-not_stale_example :
    Names (codes "10.0.0.7") named none
    ⊎ ((t : ℕ) × (earlier : Answer) × In (t, codes "10.0.0.7", earlier) asked
        × (120 < t + 30)
        × Names (codes "10.0.0.7") named earlier)
resolve_ip-not_stale_example =
    resolve_ip-not_stale 30 120 (codes "10.0.0.7") none asked named (λ e. cc) kept

abbrev event : Pending.PendingEvent
event = record {
  sequence = 1;
  middleware_name = "m";
  middleware_url = "ws://m";
  hook = "http-request";
  action = "deny";
  status_code = 403;
  headers_changed = [];
  body_rewritten = false;
  duration_ms = 3;
  created_at = 10;
}

abbrev stashes : List Pending.Call
stashes =
    Pending.swept 50
    ∷ Pending.stashed 20 (codes "r2") event
    ∷ Pending.stashed 12 (codes "r1") event
    ∷ Pending.stashed 10 (codes "r1") event
    ∷ []

drain_events-waiting_example :
    (Pending.drain_events (codes "r1") (Pending.after stashes)).1
    ≡ Pending.events_in (Pending.waiting (codes "r1") stashes)
drain_events-waiting_example = drain_events-waiting (codes "r1") stashes (λ e. cc)

waiting_run : Pending.events_in (Pending.waiting (codes "r1") stashes) ≡ event ∷ event ∷ []
unfolding list_eqb
waiting_run = refl
