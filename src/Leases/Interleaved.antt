-- ===== src/Leases/Interleaved.antt =====
-- Calls of control-plane/lib/redis.ts by any number of pollers, one after another in any order, and
-- at times that need not grow.
use papi.Common.{
  ℕ, ◌+◌, ◌≤◌, ◌<◌, ◌≡◌, refl, String, List, [], ◌∷◌, Option, none, some, Bool, true, false, ◌||◌,
  leb, str_eq, str_eq_iff, any, ◌*◌, Bool-cases, inl, inr, arith,
}
use papi.Common.Dict.{lookup, remove, lookup-insert, lookup-remove}
use papi.Leases.{
  Value, Hit, consume_live, update_until, Memory, live, is_after, consume_json_once,
  consume_json_when_due, lease_live, lease_json_when_due, set_json_with_ttl, set_json_until,
  update_leased_json,
}
use papi.Leases.Exclusive.{is_leased, leased-lookup}

pub data Call : Type 0 where
  consume_once : (now : ℕ) → (key : String) → Call
  consume_due : (now : ℕ) → (key : String) → Call
  lease : (now : ℕ) → (lease_ms : ℕ) → (key : String) → Call
  set_ttl : (now : ℕ) → (key : String) → (value : Value) → (ttl_seconds : ℕ) → Call
  set_until : (key : String) → (value : Value) → (expires : ℕ) → Call
  update :
      (now : ℕ)
      → (key : String) → (value : Value) → (expires : Option ℕ) → (is_delete : Bool) → Call

unfoldable pub after_call : Call → Memory → Memory
after_call (consume_once now key) m = (consume_json_once now key m).1
after_call (consume_due now key) m = (consume_json_when_due now key m).1
after_call (lease now lease_ms key) m = (lease_json_when_due now lease_ms key m).1
after_call (set_ttl now key value ttl_seconds) m = set_json_with_ttl now key value ttl_seconds m
after_call (set_until key value expires) m = set_json_until key value expires m
after_call (update now key value expires is_delete) m =
    update_leased_json now key value expires is_delete m

unfoldable pub after_calls : List Call → Memory → Memory
after_calls [] m = m
after_calls (c ∷ cs) m = after_calls cs (after_call c m)

-- A call that may store a new value under the key.
abbrev pub stores : String → Call → Bool
stores key (consume_once now k) = false
stores key (consume_due now k) = false
stores key (lease now lease_ms k) = false
stores key (set_ttl now k value ttl_seconds) = str_eq k key
stores key (set_until k value expires) = str_eq k key
stores key (update now k value expires is_delete) = str_eq k key

-- The key has no value, or one that is leased at least until the time.
abbrev pub Reaches : ℕ → Option ℕ → Type 0
Reaches until none = ⊥
Reaches until (some u) = until ≤ u

abbrev pub HeldHit : ℕ → Option Hit → Type 0
HeldHit until none = Unit
HeldHit until (some hit) = Reaches until hit.value.lease_until

lookup-remove_none :
    (key k : String) (m : Memory) (until : ℕ)
    → HeldHit until (lookup key m)
    → HeldHit until (lookup key (remove k m))
lookup-remove_none key k m until h = elim (Bool-cases (str_eq k key)) [
  | inl same ↦ rw (lookup-remove k key m, same) tt
  | inr other ↦ rw (lookup-remove k key m, other) h
]

consume_live-HeldHit :
    (now until : ℕ) (key k : String) (m : Memory) (h : Option Hit)
    → HeldHit until (lookup key m)
    → HeldHit until (lookup key (consume_live now k m h).1)
unfolding consume_live
consume_live-HeldHit now until key k m none held = lookup-remove_none key k m until held
consume_live-HeldHit now until key k m (some hit) held =
    elim (Bool-cases (is_after hit.value.next_poll_at now)) [
      | inl early ↦ rw (early, consume_live) held
      | inr ready ↦ rw (ready, consume_live) (lookup-remove_none key k m until held)
    ]

live-some : (now : ℕ) (o : Option Hit) {hit : Hit} → live now o ≡ some hit → o ≡ some hit
unfolding live
live-some now none e = e
live-some now (some h) e = elim (Bool-cases (leb h.expires now)) [
  | inl over ↦ (let q : none ≡ some _ = rw over at e in absurd (ground arith))
  | inr open_still ↦ rw open_still at e
]

-- A lease that is given was free, so the old one was over.
Reaches-later :
    (until now lease_ms : ℕ) (old : Option ℕ)
    → Reaches until old
    → is_after old now ≡ false
    → until ≤ now + lease_ms
Reaches-later until now lease_ms none held free = absurd held
Reaches-later until now lease_ms (some u) held free = ground arith

lease_live-HeldHit :
    (now until lease_ms : ℕ) (key k : String) (m : Memory) (h : Option Hit)
    → ((hit : Hit) → h ≡ some hit → lookup k m ≡ some hit)
    → HeldHit until (lookup key m)
    → HeldHit until (lookup key (lease_live now lease_ms k m h).1)
unfolding lease_live
lease_live-HeldHit now until lease_ms key k m none there held =
    lookup-remove_none key k m until held
lease_live-HeldHit now until lease_ms key k m (some hit) there held =
    elim (Bool-cases (is_after hit.value.next_poll_at now || is_after hit.value.lease_until now)) [
      | inl busy ↦ rw (busy, lease_live) held
      | inr free ↦
          (let taken = record hit {
            value = record hit.value { lease_until = some (now + lease_ms) };
          } in
            elim (Bool-cases (str_eq k key)) [
              | inl same ↦
                  (let e = (str_eq_iff k key).0 same in
                    let mine : lookup key m ≡ some hit = rw (← e) (there hit refl) in
                    let old : Reaches until hit.value.lease_until = rw mine at held in
                    rw (free, lease_live)
                      (rw (lookup-insert k key taken m) (
                        rw same (
                          Reaches-later until now lease_ms hit.value.lease_until old
                            (ground arith)))))
              | inr other ↦ rw (free, lease_live) (rw (lookup-insert k key taken m) (rw other held))
            ])
    ]

after_call-HeldHit :
    (until : ℕ) (key : String) (c : Call) (m : Memory)
    → stores key c ≡ false
    → HeldHit until (lookup key m)
    → HeldHit until (lookup key (after_call c m))
unfolding after_call consume_json_once consume_json_when_due lease_json_when_due set_json_with_ttl
    set_json_until update_leased_json update_until
after_call-HeldHit until key (consume_once now k) m e held = lookup-remove_none key k m until held
after_call-HeldHit until key (consume_due now k) m e held =
    consume_live-HeldHit now until key k m (live now (lookup k m)) held
after_call-HeldHit until key (lease now lease_ms k) m e held =
    lease_live-HeldHit now until lease_ms key k m (live now (lookup k m))
      (λ hit found. live-some now (lookup k m) found) held
after_call-HeldHit until key (set_ttl now k value ttl_seconds) m e held =
    rw (lookup-insert k key (record { value = value; expires = now + ttl_seconds * 1000 }) m)
      (rw e held)
after_call-HeldHit until key (set_until k value expires) m e held =
    rw (lookup-insert k key (record { value = value; expires = expires }) m) (rw e held)
after_call-HeldHit until key (update now k value expires true) m e held =
    lookup-remove_none key k m until held
after_call-HeldHit until key (update now k value none false) m e held =
    lookup-remove_none key k m until held
after_call-HeldHit until key (update now k value (some expires) false) m e held =
    elim (Bool-cases (leb expires now)) [
      | inl over ↦ rw over (lookup-remove_none key k m until held)
      | inr open_still ↦
          (let kept : Hit = record {
            value = record value { lease_until = none };
            expires = expires;
          } in
            rw open_still (rw (lookup-insert k key kept m) (rw e held)))
    ]

pub after_calls-HeldHit :
    (until : ℕ) (key : String) (cs : List Call) (m : Memory)
    → any (stores key) cs ≡ false
    → HeldHit until (lookup key m)
    → HeldHit until (lookup key (after_calls cs m))
unfolding after_calls
after_calls-HeldHit until key [] m e held = held
after_calls-HeldHit until key (c ∷ cs) m e held =
    after_calls-HeldHit until key cs (after_call c m) (ground arith)
      (after_call-HeldHit until key c m (ground arith) held)

held-unleased :
    (later other_ms until : ℕ) (key : String) (m : Memory) (h : Option Hit)
    → HeldHit until h
    → later < until
    → is_leased (lease_live later other_ms key m (live later h)).0 ≡ false
unfolding live lease_live
held-unleased later other_ms until key m none held lt = refl
held-unleased later other_ms until key m (some hit) held lt =
    elim (Bool-cases (leb hit.expires later)) [
      | inl over ↦ rw over refl
      | inr open_still ↦
          rw (open_still, lease_live)
            (rw (busy hit.value.next_poll_at hit.value.lease_until held) refl)
    ]
  where
    busy :
        (next : Option ℕ) (old : Option ℕ)
        → Reaches until old
        → (is_after next later || is_after old later) ≡ true
    busy next none old = absurd old
    busy next (some u) old = ground arith

leased-HeldHit :
    (until : ℕ) (h : Option Hit) {hit : Hit}
    → h ≡ some hit
    → hit.value.lease_until ≡ some until
    → HeldHit until h
leased-HeldHit until h e f = rw e (rw f (omega arith))

-- When `leaseJsonWhenDue` has given a lease, no call gives a lease of the key before the lease's time
-- is over, whatever calls of this store are made in between, by whom and at what times, as long as
-- none of them stores a new value under the key.
pub lease_json_when_due-alone :
    (now later lease_ms other_ms : ℕ) (key : String) (m : Memory) (cs : List Call)
    → is_leased (lease_json_when_due now lease_ms key m).0 ≡ true
    → any (stores key) cs ≡ false
    → later < now + lease_ms
    → is_leased
        (lease_json_when_due later other_ms key
          (after_calls cs (lease_json_when_due now lease_ms key m).1)).0
      ≡ false
unfolding lease_json_when_due
lease_json_when_due-alone now later lease_ms other_ms key m cs q e lt =
    let (hit, found, until) = leased-lookup now lease_ms key m (live now (lookup key m)) q in
    held-unleased later other_ms (now + lease_ms) key _ _
      (after_calls-HeldHit (now + lease_ms) key cs _ e
        (leased-HeldHit (now + lease_ms) _ found until))
      lt
