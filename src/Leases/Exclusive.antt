-- ===== src/Leases/Exclusive.antt =====
-- On the leases of control-plane/lib/redis.ts.
use papi.Common.{
  ℕ, ◌+◌, ◌<◌, ◌≡◌, refl, String, Option, none, some, Bool, true, false, ◌||◌, leb, str_eq_refl,
  Bool-cases, inl, inr, arith,
}
use papi.Common.Dict.{lookup, lookup-insert, lookup-remove}
use papi.Leases.{
  Hit, Memory, Leased, missing, too_soon, leased, live, is_after, lease_live, lease_json_when_due,
  consume_json_once,
}

abbrev pub is_leased : Leased → Bool
is_leased missing = false
is_leased (too_soon value expires) = false
is_leased (leased value expires) = true

-- What a lease leaves under its key.
pub leased-lookup :
    (now lease_ms : ℕ) (key : String) (m : Memory) (h : Option Hit)
    → is_leased (lease_live now lease_ms key m h).0 ≡ true
    → (hit : Hit) × (lookup key (lease_live now lease_ms key m h).1 ≡ some hit)
      × (hit.value.lease_until ≡ some (now + lease_ms))
unfolding lease_live
leased-lookup now lease_ms key m none q = cc
leased-lookup now lease_ms key m (some hit) q =
    elim (Bool-cases (is_after hit.value.next_poll_at now || is_after hit.value.lease_until now)) [
      | inl b ↦ ground (arith, b, q)
      | inr b ↦
          let taken = record hit {
            value = record hit.value { lease_until = some (now + lease_ms) };
          } in
          (taken, rw (b, lookup-insert key key taken m, str_eq_refl key) refl, refl)
    ]

still_leased :
    (now lease_ms until : ℕ) (key : String) (m : Memory) (hit : Hit)
    → hit.value.lease_until ≡ some until
    → now < until
    → is_leased (lease_live now lease_ms key m (live now (some hit))).0 ≡ false
unfolding live lease_live
still_leased now lease_ms until key m hit e lt = elim (Bool-cases (leb hit.expires now)) [
  | inl b ↦ rw b refl
  | inr b ↦
      let after : is_after hit.value.lease_until now ≡ true = rw e (ground (arith, lt)) in
      let held : (is_after hit.value.next_poll_at now || is_after hit.value.lease_until now)
          ≡ true =
        ground (arith, after) in
      rw (b, held) refl
]

-- When `leaseJsonWhenDue` gives a lease, no call gives a lease of the same key before the lease's time
-- is over, in any store that has the same value under the key.
pub lease_json_when_due-exclusive :
    (now later lease_ms other_ms : ℕ) (key : String) (m n : Memory)
    → is_leased (lease_json_when_due now lease_ms key m).0 ≡ true
    → lookup key n ≡ lookup key (lease_json_when_due now lease_ms key m).1
    → later < now + lease_ms
    → is_leased (lease_json_when_due later other_ms key n).0 ≡ false
unfolding lease_json_when_due
lease_json_when_due-exclusive now later lease_ms other_ms key m n q same lt =
    let (hit, found, until) = leased-lookup now lease_ms key m (live now (lookup key m)) q in
    rw (same, found) (still_leased later other_ms (now + lease_ms) key n hit until lt)

-- A value that `consumeJsonOnce` has looked for is not given again.
pub consume_json_once-again :
    (now later : ℕ) (key : String) (m : Memory)
    → (consume_json_once later key (consume_json_once now key m).1).0 ≡ none
unfolding consume_json_once live
consume_json_once-again now later key m = rw (lookup-remove key key m, str_eq_refl key) refl
