-- ===== src/RateLimit.antt =====
-- control-plane/lib/rate-limit.ts: the fixed-window limiter in front of signup, login and
-- verification. The module's `Map` is the state; the clock is an argument.
pub mod Window
mod Tests
use papi.Common.{
  ℕ, ◌+◌, String, List, [], Option, none, some, Bool, true, false, ◌||◌, not, if◌then◌else◌, ltb,
  leb, length, select, ◌==◌,
}
use papi.Common.Dict.{Dict, lookup, insert}
use papi.Common.Number.{Number, num, ◌<=◌, ◌>=◌}
use papi.Common.Text.{Text, codes, split}
use papi.Ipacl.{first_hop}

pub record Bucket : Type 0 where
  pub count : ℕ
  pub reset_at : ℕ

abbrev pub Buckets : Type 0
Buckets = Dict Bucket

abbrev pub max_buckets : ℕ
max_buckets = 50000

-- Entries that a sweep at time `now` keeps: `resetAt > now`.
abbrev pub is_live : ℕ → String × Bucket → Bool
is_live now e = not (leb e.1.reset_at now)

-- A map above the cap loses its expired buckets, and all of them if that is not enough.
unfoldable pub shed : ℕ → Buckets → Buckets
shed now m =
    let swept = select (is_live now) m in
    if ltb max_buckets (length m) then (if ltb max_buckets (length swept) then [] else swept) else m

-- What the call does once it has looked its bucket up.
unfoldable pub consume : Buckets → String → Number → ℕ → ℕ → Option Bucket → Buckets × Bool
consume m key limit window now none =
    (insert key (record { count = 1; reset_at = now + window }) m, true)
consume m key limit window now (some b) =
    if leb b.reset_at now
    then (insert key (record { count = 1; reset_at = now + window }) m, true)
    else if num b.count >= limit
    then (m, false)
    else (insert key (record b { count = b.count + 1 }) m, true)

unfoldable pub rate_limit : Buckets → String → Number → ℕ → ℕ → Buckets × Bool
rate_limit m key limit window now =
    if (limit <= num 0) || leb window 0
    then (m, false)
    else consume (shed now m) key limit window now (lookup key (shed now m))

-- The first hop of `x-forwarded-for`, where there is one.
unfoldable pub client_ip : Option Text → Text
client_ip none = codes "local"
client_ip (some forwarded) =
    let hop = first_hop (split b',' forwarded) in if length hop == 0 then codes "local" else hop

unfoldable pub clear_rate_limits_for_tests : Buckets → Buckets
clear_rate_limits_for_tests m = []
