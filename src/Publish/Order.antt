-- ===== src/Publish/Order.antt =====
-- What publishLatest of control-plane/lib/control.ts publishes, and when.
use papi.Common.{
  ℕ, ◌+◌, ◌==◌, ◌≤◌, any, find, Memᴰ, ◌⊎◌, length, select, str_eq, str_eq_iff, some-any,
  any_num-Mem, ◌<◌, ◌≡◌, refl, sym, ◌∙◌, ap, subst, List, [], ◌∷◌, Option, none, some, true, not,
  ◌&&◌, ◌||◌, ltb, leb, arith, All, Bool-cases, inl, inr,
}
use papi.Common.Result.{ok, >>-eq-ok, guard-eq-ok}
use papi.Publish.{
  SnapshotAccount, adopted_v2, ConfigVersion, Gateway, Ack, Registry, is_published, max_published,
  later, last_draft, requires_schema_v2, is_active, ready, check_gateways, count_active,
  assert_schema_v2_publishable, store_draft, draft_or_new, if_required, publish_row, publish_latest,
}

last_draft-lt :
    (above : ℕ) (versions : List ConfigVersion) (row : ConfigVersion)
    → last_draft above versions ≡ some row
    → above < row.version
unfolding last_draft
last_draft-lt above [] row e = absurd (ground arith)
last_draft-lt above (v ∷ versions) row e =
    elim (Bool-cases (not (is_published v.status) && ltb above v.version)) [
      | inr out ↦ last_draft-lt above versions row (rw (out, last_draft) at e)
      | inl is_in ↦
          go (last_draft above versions) refl (rw (is_in, last_draft) at e) is_in
            (last_draft-lt above versions)
    ]
  where
    go :
        (o : Option ConfigVersion)
        → last_draft above versions ≡ o
        → later v o ≡ some row
        → (not (is_published v.status) && ltb above v.version) ≡ true
        → ((w : ConfigVersion) → last_draft above versions ≡ some w → above < w.version)
        → above < row.version
    go none found e is_in rest = (let s : v ≡ row = cc in rw (← s) (ground arith))
    go (some w) found e is_in rest = elim (Bool-cases (ltb w.version v.version)) [
      | inl less ↦
          (let q : some v ≡ some row = rw less at e in
            let s : v ≡ row = cc in rw (← s) (ground arith))
      | inr more ↦
          (let q : some w ≡ some row = rw more at e in
            let s : w ≡ row = cc in rw (← s) (rest w found))
    ]

max_published-lt :
    (n : ℕ) (versions : List ConfigVersion)
    → 0 < n
    → All (λ v. v.version < n) versions
    → max_published versions < n
unfolding max_published
max_published-lt n [] pos h = pos
max_published-lt n (v ∷ versions) pos (k, h) =
    (let rest = max_published-lt n versions pos h in ground arith)

publish_row-ok :
    (least ttl now : ℕ) (p : ConfigVersion × Registry) (row : ConfigVersion) (r' : Registry)
    → publish_row least ttl now p ≡ ok (row, r')
    → (if_required (requires_schema_v2 p.0) (assert_schema_v2_publishable least ttl now p.1)
        ≡ ok tt)
      × (row ≡ p.0)
unfolding publish_row
publish_row-ok least ttl now (v, r) row r' e =
    (let (checked, rest) =
        >>-eq-ok (if_required (requires_schema_v2 v) (assert_schema_v2_publishable least ttl now r))
          _ e in
      (checked, cc))

-- Where the numbers of the stored versions lie below the next one, what is published has a greater
-- number than every version published before.
pub publish_latest-lt :
    (least ttl now : ℕ) (compiled : ConfigVersion) (r : Registry) (row : ConfigVersion)
    (r' : Registry)
    → 0 < r.next_version
    → All (λ v. v.version < r.next_version) r.versions
    → publish_latest least ttl now compiled r ≡ ok (row, r')
    → max_published r.versions < row.version
unfolding publish_latest store_draft
publish_latest-lt least ttl now compiled r row r' pos below e =
    go (last_draft (max_published r.versions) r.versions) refl e
  where
    go :
        (o : Option ConfigVersion)
        → last_draft (max_published r.versions) r.versions ≡ o
        → publish_row least ttl now (draft_or_new o compiled r) ≡ ok (row, r')
        → max_published r.versions < row.version
    go (some v) found e =
        (let (checked, same) = publish_row-ok least ttl now (v, r) row r' e in
          rw same (last_draft-lt (max_published r.versions) r.versions v found))
    go none found e =
        (let (checked, same) = publish_row-ok least ttl now (store_draft compiled r) row r' e in
          rw same (max_published-lt r.next_version r.versions pos below))

-- A gateway that may be given a configuration of the second schema: it has the second envelope and
-- lists that schema, and the first of its acknowledgements is an adoption with both.
pub record IsUpgraded (acks : List Ack) (g : Gateway) : Type 0 where
  pub ack : Ack
  pub envelope : 2 ≤ g.envelope_version
  pub schema : Memᴰ 2 g.supported_schemas
  pub latest : find (λ a. str_eq a.gateway_id g.gateway_id) acks ≡ some ack
  pub adopted : ack.adopted ≡ true
  pub ack_envelope : 2 ≤ ack.envelope_version
  pub ack_schema : 2 ≤ ack.schema_version

ready-IsUpgraded :
    (acks : List Ack) (g : Gateway) (o : Option Ack)
    → find (λ a. str_eq a.gateway_id g.gateway_id) acks ≡ o
    → ready acks g ≡ true
    → IsUpgraded acks g
unfolding ready
ready-IsUpgraded acks g none found h =
    let asked : adopted_v2 (find (λ a. str_eq a.gateway_id g.gateway_id) acks) ≡ true =
      ground (arith, h) in
    let bad : adopted_v2 none ≡ true = rw found at asked in absurd (ground (arith, bad))
ready-IsUpgraded acks g (some a) found h =
    let able : leb 2 g.envelope_version ≡ true = ground (arith, h) in
    let lists : any (λ n. n == 2) g.supported_schemas ≡ true = ground (arith, h) in
    let asked : adopted_v2 (find (λ a. str_eq a.gateway_id g.gateway_id) acks) ≡ true =
      ground (arith, h) in
    let took : adopted_v2 (some a) ≡ true = rw found at asked in
    record {
      ack = a;
      envelope = ground (arith, able);
      schema = any_num-Mem 2 g.supported_schemas lists;
      latest = found;
      adopted = ground (arith, took);
      ack_envelope = ground (arith, took);
      ack_schema = ground (arith, took);
    }

check_gateways-ok :
    (now ttl : ℕ) (acks : List Ack) (gateways : List Gateway)
    → check_gateways now ttl acks gateways ≡ ok tt
    → All (λ g. now ≤ g.last_seen_at + ttl → IsUpgraded acks g) gateways
unfolding check_gateways
check_gateways-ok now ttl acks [] e = tt
check_gateways-ok now ttl acks (g ∷ gateways) e = elim (Bool-cases (is_active now ttl g)) [
  | inl here ↦
      (let (able, rest) = guard-eq-ok (ready acks g) _ _ (rw (here, check_gateways) at e) in
        (
          λ recent. ready-IsUpgraded acks g _ refl able,
          check_gateways-ok now ttl acks gateways rest,
        ))
  | inr away ↦ (
    λ recent. absurd (ground (arith, away)),
    check_gateways-ok now ttl acks gateways (rw (away, check_gateways) at e),
  )
]

-- The gateways seen within the time to live.
unfoldable pub recent_count : ℕ → ℕ → List Gateway → ℕ
recent_count now ttl gateways = length (select (λ g. leb now (g.last_seen_at + ttl)) gateways)

count_active-recent :
    (now ttl : ℕ) (gateways : List Gateway)
    → count_active now ttl gateways ≡ recent_count now ttl gateways
unfolding count_active recent_count
count_active-recent now ttl [] = refl
count_active-recent now ttl (g ∷ gateways) = ground (arith, count_active-recent now ttl gateways)

draft_or_new-registry :
    (o : Option ConfigVersion) (compiled : ConfigVersion) (r : Registry)
    → ((draft_or_new o compiled r).1.gateways ≡ r.gateways)
      × ((draft_or_new o compiled r).1.acks ≡ r.acks)
unfolding draft_or_new store_draft
draft_or_new-registry (some v) compiled r = (refl, refl)
draft_or_new-registry none compiled r = (refl, refl)

requires-schema :
    (v : ConfigVersion)
    → (2 ≤ v.schema_version)
      ⊎ ((a : SnapshotAccount) × Memᴰ a v.accounts
          × ((a.adapter ≡ "codex") ⊎ ((a.auth_type ≡ "codex") ⊎ (a.has_revision ≡ true))))
    → requires_schema_v2 v ≡ true
unfolding requires_schema_v2
requires-schema v (inl h) = ground (arith, h)
requires-schema v (inr (a, there, (why))) =
    let is : (str_eq a.adapter "codex" || str_eq a.auth_type "codex" || a.has_revision) ≡ true =
      ground (arith, why, str_eq_iff a.adapter "codex", str_eq_iff a.auth_type "codex") in
    let some_account =
      some-any (λ a. str_eq a.adapter "codex" || str_eq a.auth_type "codex" || a.has_revision)
        v.accounts a there is in
    ground (arith, some_account)

-- A configuration with schema 2, or with an account that is a codex one or has a revision of its
-- credential, is published only when at least `least` gateways were seen within the time to live, and
-- each gateway seen within it has an envelope of 2 or more, supports schema 2 and adopted, with the
-- first of its acknowledgements, an envelope and a schema of 2 or more.
pub publish_latest-ready :
    (least ttl now : ℕ) (compiled : ConfigVersion) (r : Registry) (row : ConfigVersion)
    (r' : Registry)
    → publish_latest least ttl now compiled r ≡ ok (row, r')
    → (2 ≤ row.schema_version)
      ⊎ ((a : SnapshotAccount) × Memᴰ a row.accounts
          × ((a.adapter ≡ "codex") ⊎ ((a.auth_type ≡ "codex") ⊎ (a.has_revision ≡ true))))
    → (least ≤ recent_count now ttl r.gateways)
      × All (λ g. now ≤ g.last_seen_at + ttl → IsUpgraded r.acks g) r.gateways
unfolding publish_latest assert_schema_v2_publishable
publish_latest-ready least ttl now compiled r row r' e why =
    (let o = last_draft (max_published r.versions) r.versions in
      let p = draft_or_new o compiled r in
      let (checked, same) = publish_row-ok least ttl now p row r' e in
      let (gateways, acks) = draft_or_new-registry o compiled r in
      let needed = requires-schema row why in
      let needs : requires_schema_v2 p.0 ≡ true = ap requires_schema_v2 (sym same) ∙ needed in
      let run : assert_schema_v2_publishable least ttl now p.1 ≡ ok tt =
        ap (λ b. if_required b (assert_schema_v2_publishable least ttl now p.1)) (sym needs)
        ∙ checked in
      let (enough, each) = guard-eq-ok (leb least (count_active now ttl p.1.gateways)) _ _ run in
      let all_ready = check_gateways-ok now ttl p.1.acks p.1.gateways each in
      let counted : least ≤ count_active now ttl p.1.gateways = ground (arith, enough) in
      (
        subst (λ n. least ≤ n) (count_active-recent now ttl r.gateways)
            (subst (λ gs. least ≤ count_active now ttl gs) gateways counted),
        subst (λ as_given. All (λ g. now ≤ g.last_seen_at + ttl → IsUpgraded as_given g) r.gateways)
            acks
            (subst (λ gs. All (λ g. now ≤ g.last_seen_at + ttl → IsUpgraded p.1.acks g) gs) gateways
              all_ready),
      ))
