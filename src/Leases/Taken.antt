-- ===== src/Leases/Taken.antt =====
-- What is taken away with control-plane/lib/redis.ts, between any other calls.
use papi.Common.{
  ℕ, ◌+◌, ◌≡◌, refl, String, List, Option, none, some, Bool, true, false, str_eq, str_eq_iff, any,
  ap, ◌∙◌, is_some, ◌&&◌, Bool-cases, inl, inr, arith, &&_split,
}
use papi.Common.Dict.{lookup, remove, lookup-remove}
use papi.Leases.{
  Hit, consume_live, Memory, live, is_after, consume_json_once, Consumed, missing, too_soon, due,
  consume_json_when_due, lease_live, lease_json_when_due,
}
use papi.Leases.Exclusive.{is_leased}
use papi.Leases.Interleaved.{
  Call, consume_once, consume_due, lease, set_ttl, set_until, update, after_call, after_calls,
  stores, Reaches, HeldHit, after_calls-HeldHit,
}

abbrev pub is_due : Consumed → Bool
is_due missing = false
is_due (too_soon value ttl_seconds) = false
is_due (due value ttl_seconds) = true

-- Whether a call takes the value of the key away, and whether a call gives a value of the key.
abbrev pub consumes : String → Call → Memory → Bool
consumes key (consume_once now k) m = str_eq k key
consumes key (consume_due now k) m = str_eq k key && is_due (consume_json_when_due now k m).0
consumes key c m = false

abbrev pub gives : String → Call → Memory → Bool
gives key (consume_once now k) m = str_eq k key && is_some (consume_json_once now k m).0
gives key (consume_due now k) m = str_eq k key && is_due (consume_json_when_due now k m).0
gives key (lease now lease_ms k) m =
    str_eq k key && is_leased (lease_json_when_due now lease_ms k m).0
gives key c m = false

consume_live-removed :
    (now : ℕ) (key : String) (m : Memory) (h : Option Hit)
    → is_due (consume_live now key m h).0 ≡ true
    → (consume_live now key m h).1 ≡ remove key m
unfolding consume_live
consume_live-removed now key m none e = refl
consume_live-removed now key m (some hit) e =
    elim (Bool-cases (is_after hit.value.next_poll_at now)) [
      | inl early ↦ (let q : false ≡ true = rw (early, consume_live) at e in absurd (cc))
      | inr ready ↦ rw (ready, consume_live) refl
    ]

removed-gone : (k key : String) (m : Memory) → str_eq k key ≡ true → lookup key (remove k m) ≡ none
removed-gone k key m same = rw (lookup-remove k key m, same) refl

consumes-gone :
    (key : String) (c : Call) (m : Memory)
    → consumes key c m ≡ true
    → lookup key (after_call c m) ≡ none
unfolding after_call consume_json_once consume_json_when_due
consumes-gone key (consume_once now k) m e = removed-gone k key m e
consumes-gone key (consume_due now k) m e =
    let (same, ready) =
      &&_split (str_eq k key) (is_due (consume_live now k m (live now (lookup k m))).0) e in
    ap (lookup key) (consume_live-removed now k m (live now (lookup k m)) ready)
    ∙ removed-gone k key m same
consumes-gone key (lease now lease_ms k) m e = absurd (ground arith)
consumes-gone key (set_ttl now k value ttl_seconds) m e = absurd (ground arith)
consumes-gone key (set_until k value expires) m e = absurd (ground arith)
consumes-gone key (update now k value expires is_delete) m e = absurd (ground arith)

-- A value that is leased for ever is none.
forever-none : (h : Option Hit) → ((until : ℕ) → HeldHit until h) → h ≡ none
forever-none none held = refl
forever-none (some hit) held = absurd (never hit.value.lease_until held)
  where
    never : (old : Option ℕ) → ((until : ℕ) → Reaches until old) → ⊥
    never none held = held 0
    never (some u) held = let h = held (u + 1) in absurd (omega arith)

after_calls-gone :
    (key : String) (cs : List Call) (m : Memory)
    → any (stores key) cs ≡ false
    → lookup key m ≡ none
    → lookup key (after_calls cs m) ≡ none
after_calls-gone key cs m e gone =
    forever-none (lookup key (after_calls cs m))
      (λ until. after_calls-HeldHit until key cs m e (rw gone tt))

at_key :
    (k key : String) (b : Bool) → (str_eq k key ≡ true → b ≡ false) → (str_eq k key && b) ≡ false
at_key k key b h = elim (Bool-cases (str_eq k key)) [
  | inl same ↦ rw (same, h same) refl
  | inr other ↦ rw other refl
]

gives-none : (key : String) (d : Call) (m : Memory) → lookup key m ≡ none → gives key d m ≡ false
unfolding consume_json_once consume_json_when_due lease_json_when_due live consume_live lease_live
gives-none key (consume_once now k) m gone =
    at_key k key _ (λ same. rw ((str_eq_iff k key).0 same) (rw gone refl))
gives-none key (consume_due now k) m gone =
    at_key k key _ (λ same. rw ((str_eq_iff k key).0 same) (rw gone refl))
gives-none key (lease now lease_ms k) m gone =
    at_key k key _ (λ same. rw ((str_eq_iff k key).0 same) (rw gone refl))
gives-none key (set_ttl now k value ttl_seconds) m gone = refl
gives-none key (set_until k value expires) m gone = refl
gives-none key (update now k value expires is_delete) m gone = refl

-- Once a call has taken the value of a key, no call gives a value of the key, to be used or to be
-- leased, whatever calls are made in between, as long as none of them stores a new value under it.
pub consumed_once :
    (key : String) (c d : Call) (m : Memory) (cs : List Call)
    → consumes key c m ≡ true
    → any (stores key) cs ≡ false
    → gives key d (after_calls cs (after_call c m)) ≡ false
consumed_once key c d m cs taken e =
    gives-none key d _ (after_calls-gone key cs (after_call c m) e (consumes-gone key c m taken))
