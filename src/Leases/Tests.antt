-- ===== src/Leases/Tests.antt =====
-- Runs of control-plane/lib/redis.ts on a concrete store.
use papi.Common.{◌≡◌, refl, List, [], ◌∷◌, none, some, true, false, arith}
use papi.Common.Json.{end}
use papi.Common.Dict.{lookup, insert}
use papi.Leases.{Value, Memory, lease_json_when_due}
use papi.Leases.Exclusive.{is_leased}
use papi.Leases.Interleaved.{
  Call, lease, consume_due, set_ttl, after_call, after_calls, lease_json_when_due-alone,
}
use papi.Leases.Taken.{gives, consumed_once}

abbrev device : Value
device = record { next_poll_at = some 5; lease_until = none; rest = end }

abbrev memory : Memory
memory = ("device", record { value = device; expires = 900 }) ∷ []

-- Others look at the key, poll it and store another one in between.
abbrev others : List Call
others = lease 15 90 "device" ∷ consume_due 3 "device" ∷ set_ttl 16 "other" device 60 ∷ []

lease_json_when_due-alone_example :
    is_leased
      (lease_json_when_due 20 30 "device"
        (after_calls others (lease_json_when_due 10 30 "device" memory).1)).0
    ≡ false
unfolding lease_json_when_due lookup
lease_json_when_due-alone_example =
    lease_json_when_due-alone 10 20 30 30 "device" memory others refl refl (omega arith)

consumed_once_example :
    gives "device"
      (lease 50 10 "device")
      (after_calls others (after_call (consume_due 10 "device") memory))
    ≡ false
unfolding papi.Leases.consume_json_when_due lookup
consumed_once_example =
    consumed_once "device" (consume_due 10 "device") (lease 50 10 "device") memory others refl refl

-- After the lease's time the value can be leased again.
leased_again :
    is_leased (lease_json_when_due 40 30 "device" (lease_json_when_due 10 30 "device" memory).1).0
    ≡ true
unfolding lease_json_when_due lookup insert
leased_again = refl
