-- ===== src/Snapshot/Settings.antt =====
-- The settings in the snapshot of control-plane/lib/snapshots.ts: normalizeOptimization, resilience,
-- the webhook and the pool of proxies.
use papi.Common.{
  ℕ, List, [], map, Option, none, some, Bool, false, not, if◌then◌else◌, ◌==◌, length,
}
use papi.Common.Number.{Number, nan}
use papi.Common.Text.{Text, codes, trim}
use papi.Common.Json.{Json, null, bool, num, str, to_number, truthy, member_of}
use papi.Common.Result.{Result, ok, err, plain}
use papi.Proxies.{Engine, normalize_proxy}
use papi.Proxies.Listing.{Run, went, threw, parse_proxy_list}
use papi.Snapshot.Tables.{Routing, Resilience, Optimization, Webhook}

-- `Number(value) || n`
abbrev pub or_number : Number → ℕ → ℕ
or_number nan n = n
or_number (Number.num v) n = if v == 0 then n else v

-- `typeof value === 'string' && value`
abbrev pub some_text : Option Json → Option Text
some_text (some (str s)) = if length s == 0 then none else some s
some_text _ = none

abbrev pub is_true : Option Json → Bool
is_true (some (bool b)) = b
is_true _ = false

unfoldable pub normalize_optimization : Option Json → Optimization
normalize_optimization o = record {
  rtk_compression = truthy (member_of (codes "rtk_compression") o);
  caveman = truthy (member_of (codes "caveman") o);
  headroom = truthy (member_of (codes "headroom") o);
  headroom_reserve = or_number (to_number (member_of (codes "headroom_reserve") o)) 120000;
  headroom_keep = or_number (to_number (member_of (codes "headroom_keep") o)) 8;
  rtk_mode = some_text (member_of (codes "rtk_mode") o);
  caveman_mode = some_text (member_of (codes "caveman_mode") o);
  headroom_profile = some_text (member_of (codes "headroom_profile") o);
  squoze = is_true (member_of (codes "squoze") o);
}

-- `value ?? default`
abbrev pub or_json : Option Json → Json → Json
or_json none default = default
or_json (some null) default = default
or_json (some value) default = value

unfoldable pub resilience_of : Option Json → Resilience
resilience_of r = record {
  cooldown = or_json (member_of (codes "cooldown") r) (str (codes "30s"));
  circuit_failures = to_number (some (or_json (member_of (codes "circuit_failures") r) (num 3)));
  circuit_reset = or_json (member_of (codes "circuit_reset") r) (str (codes "1m"));
  lockout_failures = to_number (some (or_json (member_of (codes "lockout_failures") r) (num 10)));
  lockout_duration = or_json (member_of (codes "lockout_duration") r) (str (codes "15m"));
}

-- A missing row of routing_settings stands for this one; its resilience has the defaults.
unfoldable pub routing_of : Option Routing → Routing
routing_of (some routing) = routing
routing_of none = record {
  strategy = "balanced";
  sticky_ttl = "1h";
  max_attempts = 2;
  resilience = none;
}

-- `typeof value === 'string' ? value : ''`
abbrev pub text_or_empty : Option Json → Text
text_or_empty (some (str s)) = s
text_or_empty _ = []

unfoldable pub webhook_of : Option Json → Option Webhook
webhook_of value =
    if not (truthy value)
    then none
    else some (record {
      enabled = truthy (member_of (codes "enabled") value);
      url = text_or_empty (member_of (codes "url") value);
      secret = text_or_empty (member_of (codes "secret") value);
    })

proxies_from : Run → Result (List Text)
proxies_from (went listing) = ok (map normalize_proxy listing.entries)
proxies_from (threw listing) = err (plain "URI malformed")

raw_proxies : Engine → Option Json → Result (List Text)
unfolding proxies_from
raw_proxies engine (some (str raw)) =
    if length (trim raw) == 0 then ok [] else proxies_from (parse_proxy_list engine raw)
raw_proxies engine _ = ok []

unfoldable pub proxies_of : Engine → Option Json → Result (List Text)
unfolding raw_proxies
proxies_of engine value = raw_proxies engine (member_of (codes "raw") value)
