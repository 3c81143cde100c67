-- ===== src/Publish.antt =====
-- Publishing a configuration (control-plane/lib/control.ts).
-- The compilation of a draft is an argument; the audit row of a publication is left out.
pub mod Order
pub mod Acks
pub mod Identified
mod Tests
use papi.Common.{
  ℕ, suc, ◌+◌, String, List, [], ◌∷◌, ◌++◌, Option, none, some, Bool, true, false, not, ◌&&◌, ◌||◌,
  if◌then◌else◌, ltb, leb, ◌==◌, str_eq, any, find, update_where, max, length,
}
use papi.Common.Result.{Result, ok, err, api, ◌>>=◌, ◌>>◌, guard}

-- The states that a publication reads or writes; `rolled_back` and `invalid`, which other operations
-- give a row, count for it as neither and are left out.
pub data VersionStatus : Type 0 where
  draft : VersionStatus
  published : VersionStatus

-- An account of a snapshot, as `requiresSchemaV2` reads it.
pub record SnapshotAccount : Type 0 where
  pub adapter : String
  pub auth_type : String
  pub has_revision : Bool

-- A row of config_versions.
pub record ConfigVersion : Type 0 where
  pub version : ℕ
  pub status : VersionStatus
  pub checksum : String
  pub schema_version : ℕ
  pub accounts : List SnapshotAccount

-- A row of gateway_instances.
pub record Gateway : Type 0 where
  pub gateway_id : String
  pub supported_schemas : List ℕ
  pub envelope_version : ℕ
  pub last_seen_at : ℕ

-- A row of gateway_config_acks, as the check of a publication reads it.
pub record Ack : Type 0 where
  pub gateway_id : String
  pub adopted : Bool
  pub envelope_version : ℕ
  pub schema_version : ℕ

-- The acknowledgements stand from the latest to the earliest.
pub record Registry : Type 0 where
  pub versions : List ConfigVersion
  pub next_version : ℕ
  pub gateways : List Gateway
  pub acks : List Ack

abbrev pub is_published : VersionStatus → Bool
is_published published = true
is_published draft = false

-- `COALESCE(max(version), 0)` of the published rows.
unfoldable pub max_published : List ConfigVersion → ℕ
max_published [] = 0
max_published (v ∷ versions) =
    if is_published v.status then max v.version (max_published versions) else max_published versions

-- The later of two rows, for `ORDER BY version DESC LIMIT 1`.
abbrev pub later : ConfigVersion → Option ConfigVersion → Option ConfigVersion
later v none = some v
later v (some w) = if ltb w.version v.version then some v else some w

-- The last draft above a version.
unfoldable pub last_draft : ℕ → List ConfigVersion → Option ConfigVersion
last_draft above [] = none
last_draft above (v ∷ versions) =
    if not (is_published v.status) && ltb above v.version
    then later v (last_draft above versions)
    else last_draft above versions

unfoldable pub requires_schema_v2 : ConfigVersion → Bool
requires_schema_v2 v =
    leb 2 v.schema_version
    || any (λ a. str_eq a.adapter "codex" || str_eq a.auth_type "codex" || a.has_revision)
        v.accounts

abbrev pub is_active : ℕ → ℕ → Gateway → Bool
is_active now ttl g = leb now (g.last_seen_at + ttl)

abbrev pub adopted_v2 : Option Ack → Bool
adopted_v2 none = false
adopted_v2 (some a) = a.adopted && leb 2 a.envelope_version && leb 2 a.schema_version

-- What the check asks of an active gateway.
unfoldable pub ready : List Ack → Gateway → Bool
ready acks g =
    leb 2 g.envelope_version
    && any (λ n. n == 2) g.supported_schemas
    && adopted_v2 (find (λ a. str_eq a.gateway_id g.gateway_id) acks)

unfoldable pub check_gateways : ℕ → ℕ → List Ack → List Gateway → Result (Unit {0})
unfolding ready
check_gateways now ttl acks [] = ok tt
check_gateways now ttl acks (g ∷ gateways) =
    if is_active now ttl g
    then (guard (ready acks g) (api 426 "upgrade_required") >> check_gateways now ttl acks gateways)
    else check_gateways now ttl acks gateways

unfoldable pub count_active : ℕ → ℕ → List Gateway → ℕ
count_active now ttl [] = 0
count_active now ttl (g ∷ gateways) =
    (if is_active now ttl g then 1 else 0) + count_active now ttl gateways

unfoldable pub assert_schema_v2_publishable : ℕ → ℕ → ℕ → Registry → Result (Unit {0})
unfolding check_gateways count_active
assert_schema_v2_publishable least ttl now r = do
  guard (leb least (count_active now ttl r.gateways)) (api 409 "insufficient_active_gateways")
  check_gateways now ttl r.acks r.gateways

-- `storeDraft`, for a compiled snapshot.
unfoldable pub store_draft : ConfigVersion → Registry → ConfigVersion × Registry
store_draft compiled r =
    let row = record compiled { version = r.next_version; status = draft } in
    (row, record r { versions = r.versions ++ row ∷ []; next_version = suc r.next_version })

-- `draft.rows[0] ?? (await storeDraft(client))`
abbrev pub draft_or_new : Option ConfigVersion → ConfigVersion → Registry → ConfigVersion × Registry
unfolding store_draft
draft_or_new (some row) compiled r = (row, r)
draft_or_new none compiled r = store_draft compiled r

abbrev pub if_required : Bool → Result (Unit {0}) → Result (Unit {0})
if_required true check = check
if_required false check = ok tt

abbrev pub mark : ℕ → List ConfigVersion → List ConfigVersion
mark version = update_where (λ v. v.version == version) (λ v. record v { status = published })

unfoldable pub publish_row :
    ℕ → ℕ → ℕ → ConfigVersion × Registry → Result (ConfigVersion × Registry)
unfolding requires_schema_v2 assert_schema_v2_publishable
publish_row least ttl now (row, r) = do
  if_required (requires_schema_v2 row) (assert_schema_v2_publishable least ttl now r)
  ok (row, record r { versions = mark row.version r.versions })

unfoldable pub publish_latest :
    ℕ → ℕ → ℕ → ConfigVersion → Registry → Result (ConfigVersion × Registry)
unfolding last_draft max_published publish_row
publish_latest least ttl now compiled r =
    publish_row least ttl now
      (draft_or_new (last_draft (max_published r.versions) r.versions) compiled r)
