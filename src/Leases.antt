-- ===== src/Leases.antt =====
-- control-plane/lib/redis.ts with its store in memory: values that are consumed once, and leases of
-- values that are polled. Every operation is one step, as a script is in Redis.
pub mod Exclusive
pub mod Interleaved
pub mod Taken
mod Tests
use papi.Common.{
  ℕ, zero, suc, ◌+◌, ◌-◌, ◌*◌, ◌/◌, List, [], ◌∷◌, Option, none, some, Bool, true, false, not, ◌&&◌,
  ◌||◌, if◌then◌else◌, ltb, leb, max, String,
}
use papi.Common.Dict.{Dict, lookup, insert, remove}
use papi.Common.Json.{Json, Fields}

-- A value with the two times that the code reads from it; `rest` has its other properties.
pub record Value : Type 0 where
  pub next_poll_at : Option ℕ
  pub lease_until : Option ℕ
  pub rest : Fields

-- A text with the time at which it expires.
pub record Hit : Type 0 where
  pub value : Value
  pub expires : ℕ

abbrev pub Memory : Type 0
Memory = Dict Hit

unfoldable pub set_json_with_ttl : ℕ → String → Value → ℕ → Memory → Memory
set_json_with_ttl now key value ttl_seconds =
    insert key (record { value = value; expires = now + ttl_seconds * 1000 })

unfoldable pub set_json_until : String → Value → ℕ → Memory → Memory
set_json_until key value expires = insert key (record { value = value; expires = expires })

unfoldable pub live : ℕ → Option Hit → Option Hit
live now none = none
live now (some hit) = if leb hit.expires now then none else some hit

value_of : Option Hit → Option Value
value_of none = none
value_of (some hit) = some hit.value

-- `consumeJsonOnce`
unfoldable pub consume_json_once : ℕ → String → Memory → Option Value × Memory
unfolding live value_of
consume_json_once now key m = (value_of (live now (lookup key m)), remove key m)

abbrev pub is_after : Option ℕ → ℕ → Bool
is_after none now = false
is_after (some t) now = ltb now t

pub data Consumed : Type 0 where
  missing : Consumed
  too_soon : (value : Value) → (ttl_seconds : ℕ) → Consumed
  due : (value : Value) → (ttl_seconds : ℕ) → Consumed

-- `Math.max(1, Math.ceil(ms / 1000))`
seconds : ℕ → ℕ
seconds ms = max 1 ((ms + 999) / 1000)

unfoldable pub consume_live : ℕ → String → Memory → Option Hit → Consumed × Memory
unfolding seconds
consume_live now key m none = (missing, remove key m)
consume_live now key m (some hit) =
    if is_after hit.value.next_poll_at now
    then (too_soon hit.value (seconds (hit.expires - now)), m)
    else (due hit.value (seconds (hit.expires - now)), remove key m)

unfoldable pub consume_json_when_due : ℕ → String → Memory → Consumed × Memory
unfolding live consume_live
consume_json_when_due now key m = consume_live now key m (live now (lookup key m))

pub data Leased : Type 0 where
  missing : Leased
  too_soon : (value : Value) → (expires : ℕ) → Leased
  leased : (value : Value) → (expires : ℕ) → Leased

unfoldable pub lease_live : ℕ → ℕ → String → Memory → Option Hit → Leased × Memory
lease_live now lease_ms key m none = (missing, remove key m)
lease_live now lease_ms key m (some hit) =
    let taken = record hit.value { lease_until = some (now + lease_ms) } in
    if is_after hit.value.next_poll_at now || is_after hit.value.lease_until now
    then (too_soon hit.value hit.expires, m)
    else (leased taken hit.expires, insert key (record { value = taken; expires = hit.expires }) m)

unfoldable pub lease_json_when_due : ℕ → ℕ → String → Memory → Leased × Memory
unfolding live lease_live
lease_json_when_due now lease_ms key m = lease_live now lease_ms key m (live now (lookup key m))

-- `expires` is absent or zero where the code reads no time.
unfoldable pub update_until : ℕ → String → Value → Option ℕ → Memory → Memory
update_until now key value none m = remove key m
update_until now key value (some expires) m =
    if leb expires now
    then remove key m
    else insert key (record { value = record value { lease_until = none }; expires = expires }) m

unfoldable pub update_leased_json : ℕ → String → Value → Option ℕ → Bool → Memory → Memory
unfolding update_until
update_leased_json now key value expires is_delete m =
    if is_delete then remove key m else update_until now key value expires m
